-- ===== src/Threads/Safe/Pipelines.antt =====
-- Lookups and the preview pipeline are safe.
use Prim.Native.String.{String}
use sqlgate.Prelude.{◌≡◌, refl, ◌∙◌, ap, inl, inr, Option, none, some, Bool-cases, Result, ok, err}
use sqlgate.Text.{Text, codes, text_eq}
use sqlgate.Db.{Uuid, submitted, previewed, Request, DbResult, find}
use sqlgate.Db.Calls.{get_request-find, db-get_request}
use sqlgate.Host.{Host}
use sqlgate.Http.Response.{Response}
use sqlgate.Targets.{PreviewResult}
use sqlgate.Workflow.Calls.{get_request-Change, append_audit_event-Change, insert_preview-Change}
use sqlgate.Threads.{Task}
use sqlgate.Threads.Pipelines.{
  on_found_task, with_request_task, finish_preview_task, on_persisted_task, on_shown_task,
  preview_task, run_preview_task,
}
use sqlgate.Threads.History.{History, before, Ever, Holds, stay, Event-of_Change, Ever-Follows}
use sqlgate.Threads.History.Calls.{update_status-Event}
use sqlgate.Threads.Safe.{Safe}

module _ (host : Host) where
  Safe-on_found :
      (h : History) (what : String) (t : Request → Task Response) (o : DbResult (Option Request))
      → ((r : Request) → o ≡ ok (some r) → Safe host h (t r))
      → Safe host h (on_found_task what t o)
  unfolding on_found_task
  Safe-on_found h what t (err e) s = tt
  Safe-on_found h what t (ok none) s = tt
  Safe-on_found h what t (ok (some r)) s = s r refl

  -- After a lookup, the row that was read was the row of the table then.
  pub Safe-with_request :
      (h : History) (i : Uuid) (what : String) (t : Request → Task Response)
      → ((g : History) (r : Request) → find i g.now.db.requests ≡ some r → Safe host g (t r))
      → Safe host h (with_request_task host i what t)
  Safe-with_request h i what t s = λ g f.
      let same = ap (λ d. find i d.requests) (db-get_request host.server i g.now) in
      (
        Event-of_Change host g _ (get_request-Change host g.now i),
        Safe-on_found _ what t _
            λ r answered. s _ r (same ∙ get_request-find host.server i g.now (some r) answered),
      )

  Safe-finish_preview :
      (h : History) (i : Uuid) (kind topology email : Text) (p : PreviewResult)
      → Ever (Holds i (λ r. r.status ≡ submitted)) h
      → Safe host h (finish_preview_task host i kind topology email p)
  unfolding finish_preview_task
  Safe-finish_preview h i kind topology email p ever = λ g f. (
    update_status-Event host g i previewed email (Ever-Follows host _ f ever),
    λ g' f'. (
      Event-of_Change host g' _
          (append_audit_event-Change host g'.now (some i) (codes "previewed") email _),
      tt,
    ),
  )

  Safe-on_persisted :
      (h : History) (i : Uuid) (kind topology email : Text) (p : PreviewResult) (o : DbResult Uuid)
      → Ever (Holds i (λ r. r.status ≡ submitted)) h
      → Safe host h (on_persisted_task host i kind topology email p o)
  unfolding on_persisted_task
  Safe-on_persisted h i kind topology email p (err e) ever = tt
  Safe-on_persisted h i kind topology email p (ok _) ever =
      Safe-finish_preview h i kind topology email p ever

  Safe-on_shown :
      (h : History) (i : Uuid) (kind topology email : Text) (o : Result PreviewResult Text)
      → Ever (Holds i (λ r. r.status ≡ submitted)) h
      → Safe host h (on_shown_task host i kind topology email o)
  unfolding on_shown_task
  Safe-on_shown h i kind topology email (err message) ever = tt
  Safe-on_shown h i kind topology email (ok p) ever = λ g f. (
    Event-of_Change host g _ (insert_preview-Change host g.now i _ _ _),
    Safe-on_persisted _ i kind topology email p _ (before (Ever-Follows host _ f ever)),
  )

  Safe-preview :
      (h : History) (i : Uuid) (query kind database topology email : Text) (o : Option Text)
      → Ever (Holds i (λ r. r.status ≡ submitted)) h
      → Safe host h (preview_task host i query kind database topology email o)
  unfolding preview_task
  Safe-preview h i query kind database topology email none ever = tt
  Safe-preview h i query kind database topology email (some url) ever =
      elim (Bool-cases (text_eq kind (codes "postgres"))) [
        | inl postgres ↦
            rw (postgres, preview_task)
              λ g f. (
                stay refl refl,
                Safe-on_shown _ i kind topology email _ (before (Ever-Follows host _ f ever)),
              )
        | inr other ↦ elim (Bool-cases (text_eq kind (codes "mysql"))) [
          | inl mysql ↦ rw (other, mysql, preview_task) tt
          | inr neither ↦ rw (other, neither, preview_task) tt
        ]
      ]

  pub Safe-run_preview :
      (h : History) (i : Uuid) (query kind database topology email : Text)
      → Ever (Holds i (λ r. r.status ≡ submitted)) h
      → Safe host h (run_preview_task host i query kind database topology email)
  unfolding run_preview_task
  Safe-run_preview h i query kind database topology email ever =
      Safe-preview h i query kind database topology email _ ever
