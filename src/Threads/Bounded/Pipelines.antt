-- ===== src/Threads/Bounded/Pipelines.antt =====
-- The acts of the two pipelines (src/preview/engine.rs, src/execute/engine.rs).
use Prim.Native.String.{String}
use sqlgate.Prelude.{ℕ, suc, Option, none, some, ok, err, Result}
use sqlgate.Text.{Text, codes, text_eq}
use sqlgate.Db.{Uuid, Request, DbResult}
use sqlgate.Db.Approvals.{is_approved}
use sqlgate.Host.{Host}
use sqlgate.Http.Response.{Response}
use sqlgate.Targets.{resolve_target_url, PreviewResult}
use sqlgate.Execute.Hash.{verify_query_hash}
use sqlgate.Execute.Engine.{ExecResult}
use sqlgate.Threads.{Task}
use sqlgate.Threads.Bounded.{Bounded, Bounded-bind, Bounded-if}
use sqlgate.Threads.Pipelines.{
  on_found_task, with_request_task, finish_preview_task, on_persisted_task, on_shown_task,
  preview_task, run_preview_task, mark_executed_task, record_result_task, execute_on_task,
  execute_approved_task, execute_found_task, run_execute_task,
}

Bounded-on_found :
    (n : ℕ) (what : String) (k : Request → Task Response) (o : DbResult (Option Request))
    → ((r : Request) → Bounded n (k r))
    → Bounded n (on_found_task what k o)
unfolding on_found_task
Bounded-on_found n what k (err e) b = tt
Bounded-on_found n what k (ok none) b = tt
Bounded-on_found n what k (ok (some r)) b = b r

module _ (host : Host) where
  pub Bounded-with_request :
      (n : ℕ) (i : Uuid) (what : String) (k : Request → Task Response)
      → ((r : Request) → Bounded n (k r))
      → Bounded (suc n) (with_request_task host i what k)
  Bounded-with_request n i what k b = λ w. Bounded-on_found n what k _ b

  Bounded-on_persisted :
      (i : Uuid) (kind topology email : Text) (r : PreviewResult) (o : DbResult Uuid)
      → Bounded 2 (on_persisted_task host i kind topology email r o)
  unfolding on_persisted_task finish_preview_task
  Bounded-on_persisted i kind topology email r (err e) = tt
  Bounded-on_persisted i kind topology email r (ok _) = λ w v. tt

  Bounded-on_shown :
      (i : Uuid) (kind topology email : Text) (o : Result PreviewResult Text)
      → Bounded 3 (on_shown_task host i kind topology email o)
  unfolding on_shown_task
  Bounded-on_shown i kind topology email (err message) = tt
  Bounded-on_shown i kind topology email (ok r) =
      λ w. Bounded-on_persisted i kind topology email r _

  Bounded-preview :
      (i : Uuid) (query kind database topology email : Text) (o : Option Text)
      → Bounded 4 (preview_task host i query kind database topology email o)
  unfolding preview_task
  Bounded-preview i query kind database topology email none = tt
  Bounded-preview i query kind database topology email (some url) =
      Bounded-if 4 (text_eq kind (codes "postgres")) _ _
        (λ w. Bounded-on_shown i kind topology email _)
        (Bounded-if 4 (text_eq kind (codes "mysql")) _ _ tt tt)

  pub Bounded-run_preview :
      (i : Uuid) (query kind database topology email : Text)
      → Bounded 4 (run_preview_task host i query kind database topology email)
  unfolding run_preview_task
  Bounded-run_preview i query kind database topology email =
      Bounded-preview i query kind database topology email
        (resolve_target_url host database (codes "PREVIEW"))

  Bounded-mark_executed : (i : Uuid) (o : Option Text) → Bounded 1 (mark_executed_task host i o)
  Bounded-mark_executed i none = λ w. tt
  Bounded-mark_executed i (some _) = tt

  Bounded-record_result :
      (r : Request) (i : Uuid) (email : Text) (result : ExecResult)
      → Bounded 3 (record_result_task host r i email result)
  unfolding record_result_task
  Bounded-record_result r i email result = λ w.
      Bounded-bind 1 1 (mark_executed_task host i result.error_message) _
        (Bounded-mark_executed i result.error_message) λ a v. tt

  Bounded-execute_on :
      (r : Request) (i : Uuid) (email : Text) (o : Option Text)
      → Bounded 4 (execute_on_task host r i email o)
  unfolding execute_on_task
  Bounded-execute_on r i email none = tt
  Bounded-execute_on r i email (some url) =
      Bounded-if 4 (text_eq r.target_kind (codes "postgres")) _ _
        (λ w. Bounded-record_result r i email _)
        (Bounded-if 4 (text_eq r.target_kind (codes "mysql")) _ _ tt tt)

  Bounded-execute_found :
      (i : Uuid) (email : Text) (r : Request) → Bounded 4 (execute_found_task host i email r)
  unfolding execute_found_task execute_approved_task
  Bounded-execute_found i email r =
      Bounded-if 4 (is_approved r.status) _ _
        (Bounded-if 4 (verify_query_hash host r.query_text r.query_hash) _ _
          (Bounded-execute_on r i email (resolve_target_url host r.target_db (codes "EXECUTE")))
          λ w. tt)
        tt

  pub Bounded-run_execute : (i : Uuid) (email : Text) → Bounded 5 (run_execute_task host i email)
  unfolding run_execute_task
  Bounded-run_execute i email =
      Bounded-with_request 4 i "Database error: " (execute_found_task host i email)
        (Bounded-execute_found i email)
