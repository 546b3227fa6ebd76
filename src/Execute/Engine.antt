-- ===== src/Execute/Engine.antt =====
-- src/execute/engine.rs
pub mod Ready
pub mod Outcomes
use sqlgate.Prelude.{
  ℕ, Bool, true, false, Option, none, some, [], ◌∷◌, ◌++◌, if◌then◌else◌, ℤ, pos, as_i32, ok, err,
}
use sqlgate.Text.{Text, codes, text_eq}
use sqlgate.Json.{Json, null, bool, number, string, object, Fields, end, field}
use sqlgate.Db.{
  Uuid, Status, submitted, previewed, pending_approval, approved, rejected, executed, expired,
  status_text, Request, show_error, Sent, World, DbResult, Exec, pure, ◌>>=◌, ◌>>◌,
}
use sqlgate.Db.Requests.{get_request, update_status}
use sqlgate.Db.Approvals.{is_approved}
use sqlgate.Db.Executions.{insert_execution}
use sqlgate.Db.Audit.{append_audit_event}
use sqlgate.Host.{Host}
use sqlgate.Http.Response.{Response}
use sqlgate.Templates.{submit_error}
use sqlgate.Fetch.{with_request}
use sqlgate.Targets.{resolve_target_url}
use sqlgate.Execute.Hash.{verify_query_hash}

pub record ExecResult : Type 0 where
  pub rows_affected : Option ℤ
  pub error_message : Option Text
  pub hash_matched : Bool

abbrev failed : Option ℤ → Text → ExecResult
failed rows message = record {
  rows_affected = rows;
  error_message = some message;
  hash_matched = true;
}

-- Behind `BEGIN`: the statement is handed to the target, which is recorded; then `COMMIT`, or
-- `ROLLBACK`, whose answer is dropped.
unfoldable pub in_transaction : Host → (url query : Text) → Exec ExecResult
in_transaction host url query w =
    let w' = record w { sent = record { url = url; statement = query } ∷ w.sent } in
    elim (host.target.execute w.calls url query) [
      | ok rows ↦ elim (host.target.batch_execute w.calls url (codes "COMMIT")) [
        | some e ↦ (failed (some (as_i32 rows)) (codes "COMMIT failed: " ++ e), w')
        | none ↦ (
          record { rows_affected = some (as_i32 rows); error_message = none; hash_matched = true },
          w',
        )
      ]
      | err e ↦ (failed none e, w')
    ]

unfoldable pub execute_postgres : Host → (url query : Text) → Exec ExecResult
execute_postgres host url query w = elim (host.target.connect w.calls url) [
  | some e ↦ (failed none (codes "connection failed: " ++ e), w)
  | none ↦ elim (host.target.batch_execute w.calls url (codes "BEGIN")) [
    | some e ↦ (failed none (codes "BEGIN failed: " ++ e), w)
    | none ↦ in_transaction host url query w
  ]
]

abbrev pub option_json {ℓ} : {A : Type ℓ} → (A → Json) → Option A → Json
option_json f none = null
option_json f (some a) = f a

abbrev pub execution_details : ExecResult → ℕ → Json
execution_details r elapsed = object (
    field (codes "hash_matched") (bool r.hash_matched) (
      field (codes "rows_affected") (option_json number r.rows_affected) (
        field (codes "error") (option_json string r.error_message)
          (field (codes "duration_ms") (number (pos elapsed)) end))))

-- Step 5: the status is updated if there is no error.
abbrev pub mark_executed : Host → Uuid → Option Text → Exec (Unit {0})
mark_executed host i none = do update_status host.server i executed; pure tt
mark_executed host i (some _) = pure tt

abbrev pub execution_event : Option Text → Text
execution_event none = codes "executed"
execution_event (some _) = codes "execution_failed"

abbrev pub execution_reply : Option Text → Response
execution_reply none = submit_error (codes "Query executed successfully")
execution_reply (some message) = submit_error (codes "Execution failed: " ++ message)

-- Steps 4 to 6, and the reply.
unfoldable pub record_result : Host → Request → Uuid → Text → ExecResult → Exec Response
record_result host r i email result = do
  insert_execution host.server i r.query_hash result.hash_matched result.rows_affected
      result.error_message
  mark_executed host i result.error_message
  (λ w.
      append_audit_event host.server (some i) (execution_event result.error_message) email
        (some (execution_details result (host.elapsed_ms w.calls))) w)
  pure (execution_reply result.error_message)

-- Steps 2 to 6, for an approved request whose hash was verified.
unfoldable pub execute_verified : Host → Request → Uuid → Text → Exec Response
execute_verified host r i email w = elim (resolve_target_url host r.target_db (codes "EXECUTE")) [
  | none ↦ (
    submit_error
        (codes "no execute connection configured for target '" ++ (r.target_db ++ codes "'")),
    w,
  )
  | some url ↦
      if text_eq r.target_kind (codes "postgres")
      then (let run = execute_postgres host url r.query_text w in
          record_result host r i email run.0 run.1)
      else if text_eq r.target_kind (codes "mysql")
      then (submit_error (codes "MySQL execution not yet implemented"), w)
      else (submit_error (codes "unsupported target: " ++ r.target_kind), w)
]

abbrev pub mismatch_message : Text
mismatch_message = codes "query hash mismatch — query text may have been tampered"

-- Step 1: the hash is verified, or the failure recorded.
unfoldable pub execute_approved : Host → Request → Uuid → Text → Exec Response
execute_approved host r i email =
    if verify_query_hash host r.query_text r.query_hash
    then execute_verified host r i email
    else (do
      insert_execution host.server i r.query_hash false none (some mismatch_message)
      pure (
          submit_error (
            codes
              "Query hash verification failed — the stored query text does not match the submitted hash. Execution aborted.")))

abbrev pub not_approved : Request → Response
not_approved r =
    submit_error (codes "Cannot execute request in status '" ++ (status_text r.status ++ codes "'"))

-- The first test: only approved requests can be executed.
unfoldable pub execute_found : Host → Uuid → Text → Request → Exec Response
execute_found host i email r =
    if is_approved r.status then execute_approved host r i email else pure (not_approved r)

unfoldable pub run_execute_pipeline : Host → Uuid → Text → Exec Response
run_execute_pipeline host i email =
    with_request host i "Database error: " (execute_found host i email)
