-- ===== src/Tests/Workflow.antt =====
-- The workflow's theorems, on the posts that ask for approval, approve and execute.
use sqlgate.Prelude.{◌≡◌, refl, List, [], ◌∷◌, none, some, Option, inl, inr, arith}
use sqlgate.Text.{text_eq, strip_prefix}
use sqlgate.Text.Utf8.{utf8, utf8_char}
use sqlgate.Db.{Status, previewed, executed, Request, World, find}
use sqlgate.Http.Request.{Stream, parse, parse_form}
use sqlgate.Http.Router.{route}
use sqlgate.Map
use sqlgate.Map.{insert}
use sqlgate.Auth.{is_public_path, authenticate}
use sqlgate.Fetch.{on_found}
use sqlgate.Targets.{resolve_target_url}
use sqlgate.Db.{call}
use sqlgate.Db.Requests.{get_request, update_status, list_requests, set_status}
use sqlgate.Db.Approvals.{
  insert_approval, insert_approval_sql, expire_stale_approvals, expire_rows, is_stale,
}
use sqlgate.Db.Audit.{append_audit_event, append_audit_event_sql}
use sqlgate.Db.Executions.{insert_execution, insert_execution_sql}
use sqlgate.Execute.Hash.{verify_query_hash}
use sqlgate.Execute.Engine.{
  run_execute_pipeline, execute_found, execute_approved, execute_verified, record_result,
  execute_postgres, in_transaction,
}
use sqlgate.Server.Connection.{
  handle_connection, answer_request, dispatch, call_handler, routes, run_handler,
}
use sqlgate.Server.Handlers.Decide.{
  execute_handler, approve_handler, request_approval_handler, request_approval, approve_request,
  store_approval, reload, on_reload, approval_ttl, expiry,
}
use sqlgate.Tests.{some_host, request_in, world_with, posted}
use sqlgate.Workflow.Connections.{serve_all}
use sqlgate.Workflow.Lifecycle.{Later, serve_all-Evolves}
use sqlgate.Workflow.Terminal.{serve_all-KeepsTerminal}
use sqlgate.Workflow.Decisions.{FourEyes, serve_all-FourEyes}
use sqlgate.Workflow.Origin.{AllGenuine, serve_all-AllGenuine}
use sqlgate.Workflow.Audit.{OnlyGrows, serve_all-OnlyGrows}
use sqlgate.Workflow.Authorized.{AllVouched, serve_all-AllVouched}

abbrev posts : List Stream
posts =
    posted "/request-approval" "ada@example.org" "request_id=70" "13"
    ∷ posted "/approve" "bob@example.org" "request_id=70" "13"
    ∷ posted "/execute" "ada@example.org" "request_id=70" "13"
    ∷ []

abbrev start : World
start = world_with previewed []

serve_all-AllVouched_example : AllVouched some_host (serve_all some_host start posts)
serve_all-AllVouched_example = serve_all-AllVouched some_host start posts tt

serve_all-FourEyes_example : FourEyes (serve_all some_host start posts)
serve_all-FourEyes_example = serve_all-FourEyes some_host start posts tt

serve_all-OnlyGrows_example : OnlyGrows start.db (serve_all some_host start posts).db
serve_all-OnlyGrows_example = serve_all-OnlyGrows some_host start posts

found_in : (s : Status) → find 70 (world_with s []).db.requests ≡ some (request_in s)
unfolding find
found_in s = refl

serve_all-Evolves_example :
    Later (request_in previewed) 70 (serve_all some_host start posts).db.requests
serve_all-Evolves_example =
    serve_all-Evolves some_host start posts 70 (request_in previewed) (found_in previewed)

serve_all-KeepsTerminal_example :
    find 70 (serve_all some_host (world_with executed []) posts).db.requests
    ≡ some (request_in executed)
serve_all-KeepsTerminal_example =
    serve_all-KeepsTerminal some_host (world_with executed []) posts 70 (request_in executed)
      (found_in executed) (inr (inl refl))

start-AllGenuine : AllGenuine some_host start
unfolding find utf8 utf8_char text_eq
start-AllGenuine i r h = ground arith

serve_all-AllGenuine_example : AllGenuine some_host (serve_all some_host start posts)
serve_all-AllGenuine_example = serve_all-AllGenuine some_host start posts start-AllGenuine

abbrev status_of : Option Request → Status
status_of none = previewed
status_of (some r) = r.status

-- The three posts lead from a preview to an execution, with one statement sent.
executed_in_three : status_of (find 70 (serve_all some_host start posts).db.requests) ≡ executed
unfolding find serve_all handle_connection parse answer_request is_public_path authenticate dispatch
    strip_prefix call_handler route routes run_handler execute_handler approve_handler
    request_approval_handler parse_form run_execute_pipeline on_found request_approval
    approve_request store_approval reload on_reload expire_stale_approvals get_request update_status
    insert_approval insert_approval_sql append_audit_event append_audit_event_sql insert_execution
    insert_execution_sql list_requests set_status expire_rows call execute_found execute_approved
    execute_verified record_result execute_postgres in_transaction verify_query_hash
    resolve_target_url approval_ttl expiry text_eq is_stale Map.get insert
executed_in_three = refl
