-- ===== src/Threads/Alone/Pipelines.antt =====
-- The pipelines, alone.
use Prim.Native.String.{String}
use sqlgate.Prelude.{
  ◌≡◌, refl, Option, none, some, Bool-cases, Option-cases, inl, inr, Result, ok, err,
}
use sqlgate.Text.{Text, codes, text_eq}
use sqlgate.Db.{Uuid, World, Request, DbResult, Exec}
use sqlgate.Host.{Host}
use sqlgate.Http.Response.{Response}
use sqlgate.Templates.{submit_error}
use sqlgate.Fetch.{on_found, with_request}
use sqlgate.Targets.{resolve_target_url, PreviewResult, run_preview}
use sqlgate.Preview.Wrapper.{wrap_query}
use sqlgate.Preview.Engine.{finish_preview, on_persisted, persist_preview, run_preview_pipeline}
use sqlgate.Execute.Hash.{verify_query_hash}
use sqlgate.Execute.Engine.{
  ExecResult, record_result, execute_verified, execute_approved, execute_found,
  run_execute_pipeline,
}
use sqlgate.Db.Approvals.{is_approved}
use sqlgate.Threads.{Task, alone}
use sqlgate.Threads.Pipelines.{
  on_found_task, with_request_task, finish_preview_task, on_persisted_task, on_shown_task,
  preview_task, run_preview_task, record_result_task, execute_on_task, execute_approved_task,
  execute_found_task, run_execute_task,
}

module _ (host : Host) where
  alone-on_found :
      (what : String) (t : Request → Task Response) (k : Request → Exec Response)
      (o : DbResult (Option Request)) (w : World)
      → ((r : Request) (v : World) → alone (t r) v ≡ k r v)
      → alone (on_found_task what t o) w ≡ on_found what k o w
  unfolding on_found_task on_found
  alone-on_found what t k (err e) w h = refl
  alone-on_found what t k (ok none) w h = refl
  alone-on_found what t k (ok (some r)) w h = h r w

  pub alone-with_request :
      (i : Uuid) (what : String) (t : Request → Task Response) (k : Request → Exec Response)
      (w : World)
      → ((r : Request) (v : World) → alone (t r) v ≡ k r v)
      → alone (with_request_task host i what t) w ≡ with_request host i what k w
  alone-with_request i what t k w h = alone-on_found what t k _ _ h

  alone-on_persisted :
      (i : Uuid) (kind topology email : Text) (p : PreviewResult) (o : DbResult Uuid) (w : World)
      → alone (on_persisted_task host i kind topology email p o) w
        ≡ on_persisted host i kind topology email p o w
  unfolding on_persisted_task on_persisted finish_preview_task finish_preview
  alone-on_persisted i kind topology email p (err e) w = refl
  alone-on_persisted i kind topology email p (ok j) w = refl

  alone-on_shown :
      (i : Uuid) (kind topology email : Text) (o : Result PreviewResult Text) (w : World)
      → alone (on_shown_task host i kind topology email o) w ≡ elim o [
        | err message ↦ (submit_error message, w)
        | ok r ↦ persist_preview host i kind topology email r w
      ]
  unfolding on_shown_task persist_preview
  alone-on_shown i kind topology email (err message) w = refl
  alone-on_shown i kind topology email (ok p) w = alone-on_persisted i kind topology email p _ _

  pub alone-run_preview :
      (i : Uuid) (query kind database topology email : Text) (w : World)
      → alone (run_preview_task host i query kind database topology email) w
        ≡ run_preview_pipeline host i query kind database topology email w
  unfolding run_preview_task preview_task run_preview_pipeline
  alone-run_preview i query kind database topology email w =
      elim (Option-cases (resolve_target_url host database (codes "PREVIEW"))) [
        | inl missing ↦ rw (run_preview_task, run_preview_pipeline, missing, preview_task) refl
        | inr (url, resolved) ↦ elim (Bool-cases (text_eq kind (codes "postgres"))) [
          | inl postgres ↦
              rw (run_preview_task, run_preview_pipeline, resolved, preview_task, postgres)
                (alone-on_shown i kind topology email
                  (run_preview host w.calls url (wrap_query query) topology) w)
          | inr other ↦ elim (Bool-cases (text_eq kind (codes "mysql"))) [
            | inl mysql ↦
                rw (run_preview_task, run_preview_pipeline, resolved, preview_task, other, mysql)
                  refl
            | inr neither ↦
                rw (run_preview_task, run_preview_pipeline, resolved, preview_task, other, neither)
                  refl
          ]
        ]
      ]

  alone-record_result :
      (r : Request) (i : Uuid) (email : Text) (result : ExecResult) (w : World)
      → alone (record_result_task host r i email result) w ≡ record_result host r i email result w
  unfolding record_result_task record_result
  alone-record_result r i email result w = elim (Option-cases result.error_message) [
    | inl fine ↦ rw (record_result_task, record_result, fine) refl
    | inr (e, failed) ↦ rw (record_result_task, record_result, failed) refl
  ]

  alone-execute_verified :
      (r : Request) (i : Uuid) (email : Text) (w : World)
      → alone
          (execute_on_task host r i email (resolve_target_url host r.target_db (codes "EXECUTE")))
          w
        ≡ execute_verified host r i email w
  unfolding execute_on_task execute_verified
  alone-execute_verified r i email w =
      elim (Option-cases (resolve_target_url host r.target_db (codes "EXECUTE"))) [
        | inl missing ↦ rw (execute_on_task, execute_verified, missing) refl
        | inr (url, resolved) ↦ elim (Bool-cases (text_eq r.target_kind (codes "postgres"))) [
          | inl postgres ↦
              rw (execute_on_task, execute_verified, resolved, postgres)
                (alone-record_result r i email _ _)
          | inr other ↦ elim (Bool-cases (text_eq r.target_kind (codes "mysql"))) [
            | inl mysql ↦ rw (execute_on_task, execute_verified, resolved, other, mysql) refl
            | inr neither ↦ rw (execute_on_task, execute_verified, resolved, other, neither) refl
          ]
        ]
      ]

  alone-execute_found :
      (i : Uuid) (email : Text) (r : Request) (w : World)
      → alone (execute_found_task host i email r) w ≡ execute_found host i email r w
  unfolding execute_found_task execute_found execute_approved_task execute_approved
  alone-execute_found i email r w = elim (Bool-cases (is_approved r.status)) [
    | inl test ↦ elim (Bool-cases (verify_query_hash host r.query_text r.query_hash)) [
      | inl same ↦
          rw
            (execute_found_task, execute_found, test, execute_approved_task, execute_approved, same)
            (alone-execute_verified r i email w)
      | inr other ↦
          rw
            (
              execute_found_task, execute_found, test, execute_approved_task, execute_approved,
              other,
            )
            refl
    ]
    | inr test ↦ rw (execute_found_task, execute_found, test) refl
  ]

  pub alone-run_execute :
      (i : Uuid) (email : Text) (w : World)
      → alone (run_execute_task host i email) w ≡ run_execute_pipeline host i email w
  unfolding run_execute_task run_execute_pipeline
  alone-run_execute i email w =
      alone-with_request i "Database error: " (execute_found_task host i email)
        (execute_found host i email) w (alone-execute_found i email)
