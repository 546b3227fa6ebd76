-- ===== src/Server/Handlers/Submit.antt =====
-- `submit_handler` of src/main.rs.
pub mod Outcomes
use Prim.Native.String.{String}
use sqlgate.Prelude.{
  Bool, not, ◌||◌, Option, none, some, [], ◌∷◌, ◌++◌, if◌then◌else◌, Result, ok, err,
}
use sqlgate.Text.{Text, codes, is_empty, text_eq}
use sqlgate.Json.{Json, string, object, end, field}
use sqlgate.Db.{
  Uuid, DbError, pool, query, show_error, unique_violation, DbResult, Exec, pure, ◌>>=◌, ◌>>◌,
}
use sqlgate.Db.Requests.{is_kind, is_topology, insert_request}
use sqlgate.Db.Audit.{append_audit_event}
use sqlgate.Host.{Host}
use sqlgate.Http.Response.{Response}
use sqlgate.Http.Request.{Request, parse_form}
use sqlgate.Templates.{submit_error}
use sqlgate.Targets.{code_is}
use sqlgate.Preview.Validator.{validate_query, max_query_len}
use sqlgate.Preview.Engine.{run_preview_pipeline}
use sqlgate.Execute.Hash.{query_hash}
use sqlgate.Server.Handlers.{Handled, reply, with_pool, with_user, form_value}

-- What the form names.
pub record Submission : Type 0 where
  pub query_text : Text
  pub target_kind : Text
  pub target_db : Text
  pub target_topology : Text

abbrev pub submission : Request → Submission
submission req = record {
  query_text = form_value req "query" "";
  target_kind = form_value req "target_kind" "postgres";
  target_db = form_value req "target_db" "";
  target_topology = form_value req "target_topology" "primary";
}

-- The checks before anything is stored; `ok` lets the submission through.
unfoldable pub check_submission : Host → Submission → Result (Unit {0}) Text
check_submission host s = elim (validate_query host.tables s.query_text max_query_len) [
  | err message ↦ err message
  | ok _ ↦
      if is_empty s.target_db
      then err (codes "Database name is required")
      else if not (is_kind s.target_kind)
      then err (codes "Invalid target kind")
      else if not (is_topology s.target_topology)
      then err (codes "Invalid target topology")
      else ok tt
]

unfoldable pub insert_failure : DbError → Text
insert_failure (query code message) =
    if code_is code unique_violation
    then codes "This exact query has already been submitted"
    else codes "Database error: " ++ show_error (query code message)
insert_failure (pool message) = codes "Database error: " ++ show_error (pool message)

abbrev pub submit_details : Submission → (hash : Text) → Json
submit_details s hash = object (
    field (codes "target_kind") (string s.target_kind) (
      field (codes "target_db") (string s.target_db) (
        field (codes "target_topology") (string s.target_topology)
          (field (codes "query_hash") (string hash) end))))

-- What follows on the answer of the insertion: the log entry, whose failure is dropped, and the
-- preview; or the message of the error.
unfoldable pub on_inserted : Host → Submission → (email : Text) → DbResult Uuid → Exec Response
on_inserted host s email (err e) = pure (submit_error (insert_failure e))
on_inserted host s email (ok i) = do
  append_audit_event host.server (some i) (codes "submitted") email
      (some (submit_details s (query_hash host s.query_text)))
  run_preview_pipeline host i s.query_text s.target_kind s.target_db s.target_topology email

unfoldable pub persist_submission : Host → Submission → (email : Text) → Exec Response
persist_submission host s email = do
  inserted ←
      insert_request host.server s.query_text (query_hash host s.query_text) s.target_kind
        s.target_db s.target_topology email
  on_inserted host s email inserted

unfoldable pub on_checked : Host → Submission → (email : Text) → Result (Unit {0}) Text → Handled
on_checked host s email (err message) = reply (submit_error message)
on_checked host s email (ok _) = with_pool host (persist_submission host s email)

unfoldable pub submit_handler : Host → Request → Handled
submit_handler host req =
    with_user req
      λ user. on_checked host (submission req) user.email (check_submission host (submission req))
