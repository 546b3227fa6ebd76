-- ===== src/Workflow/Previewing.antt =====
-- The preview pipeline as a sequence of admitted changes.
use sqlgate.Prelude.{
  ◌≡◌, inl, inr, some, as_i32, Bool-cases, Option-cases, Result-cases, Result, ok, err,
}
use sqlgate.Text.{Text, codes, text_eq}
use sqlgate.Db.{Uuid, submitted, previewed, Request, DbError, World, find}
use sqlgate.Db.Frames.{requests-insert_preview}
use sqlgate.Host.{Host}
use sqlgate.Targets.{resolve_target_url, PreviewResult, run_preview}
use sqlgate.Preview.Wrapper.{wrap_query}
use sqlgate.Preview.Engine.{
  preview_json, finish_preview, on_persisted, persist_preview, run_preview_pipeline,
}
use sqlgate.Workflow.{Steps, here, next, Steps-one, Steps-append}
use sqlgate.Workflow.Calls.{append_audit_event-Change, insert_preview-Change, update_status-Change}

module _ (host : Host) where
  finish_preview-Steps :
      (i : Uuid) (kind topology email : Text) (p : PreviewResult) (w : World) (r : Request)
      → find i w.db.requests ≡ some r
      → r.status ≡ submitted
      → Steps host w (finish_preview host i kind topology email p w).1
  unfolding finish_preview
  finish_preview-Steps i kind topology email p w r found status =
      next (next here (update_status-Change host w i r previewed email found status))
        (append_audit_event-Change host _ (some i) (codes "previewed") email _)

  on_persisted-Steps :
      (i : Uuid) (kind topology email : Text) (p : PreviewResult) (o : Result Uuid DbError)
      (w : World) (r : Request)
      → find i w.db.requests ≡ some r
      → r.status ≡ submitted
      → Steps host w (on_persisted host i kind topology email p o w).1
  unfolding on_persisted
  on_persisted-Steps i kind topology email p (err e) w r found status = here
  on_persisted-Steps i kind topology email p (ok _) w r found status =
      finish_preview-Steps i kind topology email p w r found status

  persist_preview-Steps :
      (i : Uuid) (kind topology email : Text) (p : PreviewResult) (w : World) (r : Request)
      → find i w.db.requests ≡ some r
      → r.status ≡ submitted
      → Steps host w (persist_preview host i kind topology email p w).1
  unfolding persist_preview
  persist_preview-Steps i kind topology email p w r found status =
      let rows = p.row_count in
      let time = as_i32 p.duration_ms in
      let same = requests-insert_preview host.server w i (preview_json p) rows time in
      Steps-append host (Steps-one host (insert_preview-Change host w i (preview_json p) rows time))
        (on_persisted-Steps i kind topology email p _ _ r (rw same found) status)

  pub run_preview_pipeline-Steps :
      (i : Uuid) (query kind database topology email : Text) (w : World) (r : Request)
      → find i w.db.requests ≡ some r
      → r.status ≡ submitted
      → Steps host w (run_preview_pipeline host i query kind database topology email w).1
  unfolding run_preview_pipeline
  run_preview_pipeline-Steps i query kind database topology email w r found status =
      elim (Option-cases (resolve_target_url host database (codes "PREVIEW"))) [
        | inl missing ↦ rw (missing, run_preview_pipeline) here
        | inr (url, resolved) ↦ elim (Bool-cases (text_eq kind (codes "postgres"))) [
          | inl postgres ↦
              elim (Result-cases (run_preview host w.calls url (wrap_query query) topology)) [
                | inl (p, shown) ↦
                    rw (resolved, postgres, shown, run_preview_pipeline)
                      (persist_preview-Steps i kind topology email p w r found status)
                | inr (e, failed) ↦ rw (resolved, postgres, failed, run_preview_pipeline) here
              ]
          | inr other ↦ elim (Bool-cases (text_eq kind (codes "mysql"))) [
            | inl mysql ↦ rw (resolved, other, mysql, run_preview_pipeline) here
            | inr neither ↦ rw (resolved, other, neither, run_preview_pipeline) here
          ]
        ]
      ]
