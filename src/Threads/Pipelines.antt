-- ===== src/Threads/Pipelines.antt =====
-- The preview pipeline and the execution pipeline (src/preview/engine.rs, src/execute/engine.rs) as
-- tasks.
use Prim.Native.String.{String}
use sqlgate.Prelude.{false, Option, none, some, ◌++◌, if◌then◌else◌, as_i32, Result, ok, err}
use sqlgate.Text.{Text, codes, text_eq, to_uppercase}
use sqlgate.Db.{Uuid, previewed, executed, show_error, Request, DbResult}
use sqlgate.Db.Requests.{get_request, update_status}
use sqlgate.Db.Approvals.{is_approved}
use sqlgate.Db.Executions.{insert_execution}
use sqlgate.Db.Previews.{insert_preview}
use sqlgate.Db.Audit.{append_audit_event}
use sqlgate.Host.{Host}
use sqlgate.Http.Response.{Response}
use sqlgate.Templates.{submit_error, preview_result}
use sqlgate.Fetch.{failure}
use sqlgate.Targets.{resolve_target_url, PreviewResult, run_preview}
use sqlgate.Preview.Wrapper.{wrap_query}
use sqlgate.Preview.Engine.{preview_json, preview_details}
use sqlgate.Execute.Hash.{verify_query_hash}
use sqlgate.Execute.Engine.{
  ExecResult, execute_postgres, execution_details, execution_event, execution_reply, not_approved,
  mismatch_message,
}
use sqlgate.Threads.{Task, done, atom, ◌>>=◌, ◌>>◌}

unfoldable pub on_found_task :
    String → (Request → Task Response) → DbResult (Option Request) → Task Response
on_found_task what k (err e) = done (failure what e)
on_found_task what k (ok none) = done (submit_error (codes "Request not found"))
on_found_task what k (ok (some r)) = k r

abbrev pub with_request_task :
    Host → Uuid → (what : String) → (Request → Task Response) → Task Response
with_request_task host i what k = do
  found ← atom (get_request host.server i)
  on_found_task what k found

unfoldable pub finish_preview_task :
    Host → Uuid → (kind topology email : Text) → PreviewResult → Task Response
finish_preview_task host i kind topology email r = do
  atom (update_status host.server i previewed)
  atom (
      append_audit_event host.server (some i) (codes "previewed") email
        (some (preview_details r topology kind)))
  done (preview_result host (host.show_uuid i) r.columns r.rows r.row_count r.duration_ms topology)

unfoldable pub on_persisted_task :
    Host → Uuid → (kind topology email : Text) → PreviewResult → DbResult Uuid → Task Response
on_persisted_task host i kind topology email r (err e) =
    done (submit_error (codes "failed to persist preview: " ++ show_error e))
on_persisted_task host i kind topology email r (ok _) =
    finish_preview_task host i kind topology email r

unfoldable pub on_shown_task :
    Host → Uuid → (kind topology email : Text) → Result PreviewResult Text → Task Response
on_shown_task host i kind topology email (err message) = done (submit_error message)
on_shown_task host i kind topology email (ok r) = do
  inserted ← atom (insert_preview host.server i (preview_json r) r.row_count (as_i32 r.duration_ms))
  on_persisted_task host i kind topology email r inserted

-- The query on the target is an act of its own.
unfoldable pub preview_task :
    Host → Uuid → (query kind database topology email : Text) → Option Text → Task Response
preview_task host i query kind database topology email none = done (
    submit_error (
      codes "no preview connection configured for target '"
      ++ (database
          ++ (codes "' (set TARGET_" ++ (to_uppercase host.tables database ++ codes "_PREVIEW)")))))
preview_task host i query kind database topology email (some url) =
    if text_eq kind (codes "postgres")
    then (do
      shown ← atom (λ w. (run_preview host w.calls url (wrap_query query) topology, w))
      on_shown_task host i kind topology email shown)
    else if text_eq kind (codes "mysql")
    then done (submit_error (codes "MySQL preview engine not yet implemented"))
    else done (submit_error (codes "unsupported target kind: " ++ kind))

unfoldable pub run_preview_task :
    Host → Uuid → (query kind database topology email : Text) → Task Response
run_preview_task host i query kind database topology email =
    preview_task host i query kind database topology email
      (resolve_target_url host database (codes "PREVIEW"))

abbrev pub mark_executed_task : Host → Uuid → Option Text → Task (Unit {0})
mark_executed_task host i none = do atom (update_status host.server i executed); done tt
mark_executed_task host i (some _) = done tt

unfoldable pub record_result_task : Host → Request → Uuid → Text → ExecResult → Task Response
record_result_task host r i email result = do
  atom (
      insert_execution host.server i r.query_hash result.hash_matched result.rows_affected
        result.error_message)
  mark_executed_task host i result.error_message
  atom (λ w.
      append_audit_event host.server (some i) (execution_event result.error_message) email
        (some (execution_details result (host.elapsed_ms w.calls))) w)
  done (execution_reply result.error_message)

-- The transaction on the target is an act of its own.
unfoldable pub execute_on_task : Host → Request → Uuid → Text → Option Text → Task Response
execute_on_task host r i email none = done (
    submit_error
      (codes "no execute connection configured for target '" ++ (r.target_db ++ codes "'")))
execute_on_task host r i email (some url) =
    if text_eq r.target_kind (codes "postgres")
    then (do
      result ← atom (execute_postgres host url r.query_text)
      record_result_task host r i email result)
    else if text_eq r.target_kind (codes "mysql")
    then done (submit_error (codes "MySQL execution not yet implemented"))
    else done (submit_error (codes "unsupported target: " ++ r.target_kind))

unfoldable pub execute_approved_task : Host → Request → Uuid → Text → Task Response
execute_approved_task host r i email =
    if verify_query_hash host r.query_text r.query_hash
    then execute_on_task host r i email (resolve_target_url host r.target_db (codes "EXECUTE"))
    else (do
      atom (insert_execution host.server i r.query_hash false none (some mismatch_message))
      done (
          submit_error (
            codes
              "Query hash verification failed — the stored query text does not match the submitted hash. Execution aborted.")))

unfoldable pub execute_found_task : Host → Uuid → Text → Request → Task Response
execute_found_task host i email r =
    if is_approved r.status then execute_approved_task host r i email else done (not_approved r)

unfoldable pub run_execute_task : Host → Uuid → Text → Task Response
run_execute_task host i email =
    with_request_task host i "Database error: " (execute_found_task host i email)
