-- ===== src/Tests/Threads.antt =====
-- The theorems on threads, on posts that are served at the same time.
use sqlgate.Prelude.{◌≡◌, refl, true, length, List, [], ◌∷◌, arith}
use sqlgate.Text.{text_eq, strip_prefix}
use sqlgate.Text.Utf8.{utf8, utf8_char}
use sqlgate.Map
use sqlgate.Map.{insert}
use sqlgate.Db.{pending_approval, World, find, call}
use sqlgate.Db.Requests.{get_request, update_status, set_status, list_requests}
use sqlgate.Db.Approvals.{
  insert_approval, insert_approval_sql, expire_stale_approvals, expire_rows, is_stale,
}
use sqlgate.Db.Audit.{append_audit_event, append_audit_event_sql}
use sqlgate.Auth.{is_public_path, authenticate}
use sqlgate.Http.Request.{Stream, parse, parse_form}
use sqlgate.Http.Router.{route}
use sqlgate.Server.Connection.{routes}
use sqlgate.Server.Handlers.Decide.{on_reload, approval_ttl, expiry}
use sqlgate.Workflow.Decisions.{FourEyes}
use sqlgate.Workflow.Origin.{AllGenuine}
use sqlgate.Threads.Connections.{connection_task, handler_task, dispatch_task, answer_task}
use sqlgate.Threads.Pipelines.{on_found_task}
use sqlgate.Threads.Handlers.{approve_task, store_approval_task, reload_task}
use sqlgate.Threads.Invariants.{
  AllCleared, run_server-AllCleared, run_server-FourEyes, run_server-AllGenuine,
}
use sqlgate.Threads.Server.{
  stopped, Move, check, accept, would_block, signal, turn, join, take_turn, advance, run_server,
  fresh,
}
use sqlgate.Threads.Server.Indices.{IsAnswered}
use sqlgate.Threads.Server.Joining.{run_server-leaves_none}
use sqlgate.Threads.Server.Answers.{run_server-IsAnswered}
use sqlgate.Tests.{some_host, world_with, posted}

abbrev approving : Stream
approving = posted "/approve" "bob@example.org" "request_id=70" "13"

abbrev executing : Stream
executing = posted "/execute" "ada@example.org" "request_id=70" "13"

abbrev pending : World
pending = world_with pending_approval []

-- An approval and an execution that are mixed, and a signal between them.
abbrev mixed : List Move
mixed =
    check
    ∷ accept true approving
    ∷ turn 0
    ∷ check
    ∷ would_block
    ∷ check
    ∷ accept true executing
    ∷ signal
    ∷ turn 1
    ∷ turn 0
    ∷ turn 0
    ∷ turn 0
    ∷ turn 0
    ∷ turn 1
    ∷ turn 0
    ∷ turn 1
    ∷ turn 0
    ∷ turn 1
    ∷ turn 0
    ∷ turn 1
    ∷ turn 1
    ∷ turn 1
    ∷ turn 1
    ∷ check
    ∷ join
    ∷ []

run_server-AllCleared_example :
    AllCleared some_host (run_server some_host mixed (fresh pending)).history
run_server-AllCleared_example = run_server-AllCleared some_host pending mixed refl

run_server-FourEyes_example : FourEyes (run_server some_host mixed (fresh pending)).history.now
run_server-FourEyes_example = run_server-FourEyes some_host pending mixed tt

pending-AllGenuine : AllGenuine some_host pending
unfolding find utf8 utf8_char text_eq
pending-AllGenuine i r h = ground arith

run_server-AllGenuine_example :
    AllGenuine some_host (run_server some_host mixed (fresh pending)).history.now
run_server-AllGenuine_example = run_server-AllGenuine some_host pending mixed pending-AllGenuine

abbrev eight_turns : List Move
eight_turns =
    turn 0
    ∷ check
    ∷ turn 0
    ∷ turn 0
    ∷ accept true executing
    ∷ turn 1
    ∷ turn 0
    ∷ turn 0
    ∷ turn 1
    ∷ turn 0
    ∷ turn 0
    ∷ turn 0
    ∷ []

run_server-IsAnswered_example : IsAnswered 0 (
    run_server some_host
      (accept true approving ∷ eight_turns)
      (run_server some_host (check ∷ []) (fresh pending)))
unfolding run_server advance
run_server-IsAnswered_example =
    run_server-IsAnswered some_host pending (check ∷ []) true approving eight_turns refl
      (omega arith)

-- An approval whose thread ends after the signal.
abbrev last_approval : List Move
last_approval =
    check
    ∷ accept true approving
    ∷ signal
    ∷ check
    ∷ join
    ∷ turn 0
    ∷ turn 0
    ∷ turn 0
    ∷ turn 0
    ∷ turn 0
    ∷ turn 0
    ∷ turn 0
    ∷ turn 0
    ∷ join
    ∷ []

last_approval-ends :
    ((run_server some_host last_approval (fresh pending)).loop ≡ stopped)
    × (length (run_server some_host last_approval (fresh pending)).threads ≡ 1)
unfolding run_server advance take_turn connection_task handler_task dispatch_task answer_task
    on_found_task approve_task store_approval_task reload_task on_reload parse is_public_path
    authenticate strip_prefix route routes parse_form expire_stale_approvals get_request
    update_status insert_approval insert_approval_sql append_audit_event append_audit_event_sql
    list_requests set_status expire_rows call approval_ttl expiry text_eq is_stale Map.get insert
    find
last_approval-ends = (refl, refl)

run_server-leaves_none_example : IsAnswered 0 (run_server some_host last_approval (fresh pending))
unfolding run_server advance
run_server-leaves_none_example =
    run_server-leaves_none some_host pending last_approval 0 last_approval-ends.0
      (omega (arith, last_approval-ends.1))
