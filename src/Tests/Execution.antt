-- ===== src/Tests/Execution.antt =====
-- The theorems on single decisions and executions.
use sqlgate.Prelude.{◌≡◌, ◌≢◌, refl, true, some, [], ◌∷◌, ◌++◌, arith, ok}
use sqlgate.Text.{codes, text_eq}
use sqlgate.Text.Utf8.{utf8, utf8_char}
use sqlgate.Db.{pending_approval, approved, executed, World, find, set_db, call}
use sqlgate.Db.Requests.{set_status, insert_request, insert_request_sql}
use sqlgate.Db.Requests.Lookup.{submitted_row, find-insert_request}
use sqlgate.Db.Approvals.{is_stale, expire_stale_approvals}
use sqlgate.Db.Approvals.Expiry.{IsExpiry, expire_stale_approvals-IsExpiry}
use sqlgate.Execute.Hash.{verify_query_hash}
use sqlgate.Execute.Engine.{run_execute_pipeline}
use sqlgate.Server.Handlers.Decide.Once.{run_execute_pipeline-once}
use sqlgate.Execute.Engine.Ready.{IsReady}
use sqlgate.Execute.Engine.Outcomes.{
  IsOutcome, run_execute_pipeline-executes, run_execute_pipeline-leaves_approved,
}
use sqlgate.Host.{Host}
use sqlgate.Targets.{resolve_target_url}
use sqlgate.Templates.{submit_error}
use sqlgate.Server.Handlers.Submit.{Submission, persist_submission}
use sqlgate.Server.Handlers.Submit.Outcomes.{persist_submission-duplicate}
use sqlgate.Server.Handlers.Decide.{expire_and_execute}
use sqlgate.Server.Handlers.Decide.Outcomes.{sent-expire_and_execute}
use sqlgate.Server.Handlers.Decide.Approving.{
  IsApproval, approval_row, approve_request-IsApproval, approve_request-unrecorded,
}
use sqlgate.Tests.{host_with, some_host, lost, fails_at, request_in, some_approval, world_with}

abbrev ready : World
ready = world_with approved []

abbrev pending : World
pending = world_with pending_approval []

-- The first call of an execution, or of an approval, fails; or the third.
abbrev third_fails : Host
third_fails = host_with (fails_at 12)

abbrev first_fails : Host
first_fails = host_with (fails_at 10)

ready-IsReady : IsReady some_host 70 (request_in approved) (codes "writer") 3 ready
unfolding find verify_query_hash utf8 utf8_char text_eq resolve_target_url
ready-IsReady = record {
  reached = refl;
  found = refl;
  approval = refl;
  verified = refl;
  kind = refl;
  resolved = refl;
  accepts = record { connects = refl; begins = refl; runs = refl; commits = refl };
}

third_fails-IsReady : IsReady third_fails 70 (request_in approved) (codes "writer") 3 ready
unfolding find verify_query_hash utf8 utf8_char text_eq resolve_target_url
third_fails-IsReady = record {
  reached = refl;
  found = refl;
  approval = refl;
  verified = refl;
  kind = refl;
  resolved = refl;
  accepts = record { connects = refl; begins = refl; runs = refl; commits = refl };
}

run_execute_pipeline-executes_example :
    IsOutcome some_host 70
      (request_in approved)
      (codes "ada@example.org")
      (codes "writer")
      3
      ready
      (set_status executed 12 70 ready.db.requests)
run_execute_pipeline-executes_example =
    run_execute_pipeline-executes some_host 70 (request_in approved) (codes "ada@example.org")
      (codes "writer") 3 ready ready-IsReady refl

run_execute_pipeline-leaves_approved_example :
    IsOutcome third_fails 70
      (request_in approved)
      (codes "ada@example.org")
      (codes "writer")
      3
      ready
      ready.db.requests
run_execute_pipeline-leaves_approved_example =
    run_execute_pipeline-leaves_approved third_fails 70 (request_in approved)
      (codes "ada@example.org") (codes "writer") 3 ready lost third_fails-IsReady refl

abbrev stale : World
stale = world_with approved (some_approval ∷ [])

stale_at_ten : is_stale 10 stale.db.approvals 70 ≡ true
unfolding is_stale
stale_at_ten = refl

sent-expire_and_execute_example :
    (expire_and_execute some_host (codes "ada@example.org") 70 stale).1.sent ≡ []
sent-expire_and_execute_example =
    sent-expire_and_execute some_host (codes "ada@example.org") 70 stale refl stale_at_ten

stale_found : find 70 stale.db.requests ≡ some (request_in approved)
unfolding find
stale_found = refl

expire_stale_approvals-IsExpiry_example :
    IsExpiry 10 stale.db.approvals 70
      (request_in approved)
      (expire_stale_approvals some_host.server stale).1.db.requests
expire_stale_approvals-IsExpiry_example =
    expire_stale_approvals-IsExpiry some_host.server stale 70 (request_in approved) refl stale_found

pending_found : find 70 pending.db.requests ≡ some (request_in pending_approval)
unfolding find
pending_found = refl

other_person : (request_in pending_approval).requester_email ≢ codes "bob@example.org"
other_person same = ground arith

approve_request-IsApproval_example :
    IsApproval some_host
      (codes "bob@example.org")
      70
      pending
      (request_in pending_approval)
      (pending.db.approvals ++ approval_row some_host (codes "bob@example.org") 70 pending ∷ [])
approve_request-IsApproval_example =
    approve_request-IsApproval some_host (codes "bob@example.org") 70 pending
      (request_in pending_approval) pending_found other_person refl refl refl

approve_request-unrecorded_example :
    IsApproval first_fails
      (codes "bob@example.org")
      70
      pending
      (request_in pending_approval)
      pending.db.approvals
approve_request-unrecorded_example =
    approve_request-unrecorded first_fails (codes "bob@example.org") 70 pending
      (request_in pending_approval) lost other_person refl refl refl

abbrev same_query : Submission
same_query = record {
  query_text = codes "SELECT 1";
  target_kind = codes "postgres";
  target_db = codes "app";
  target_topology = codes "replica";
}

persist_submission-duplicate_example :
    persist_submission some_host same_query (codes "bob@example.org") ready
    ≡ (submit_error (codes "This exact query has already been submitted"), set_db ready ready.db)
unfolding utf8 utf8_char text_eq
persist_submission-duplicate_example =
    persist_submission-duplicate some_host same_query (codes "bob@example.org") ready refl refl refl
      refl

-- A new query is stored under the identifier that the database gives.
inserted :
    (insert_request some_host.server
      (codes "SELECT 2")
      (codes "h")
      (codes "mysql")
      (codes "app")
      (codes "primary")
      (codes "ada@example.org")
      ready).0
    ≡ ok 10
unfolding insert_request insert_request_sql call text_eq
inserted = refl

find-insert_request_example :
    find 10
      (insert_request some_host.server
        (codes "SELECT 2")
        (codes "h")
        (codes "mysql")
        (codes "app")
        (codes "primary")
        (codes "ada@example.org")
        ready).1.db.requests
    ≡ some (
        submitted_row
          (codes "SELECT 2")
          (codes "h")
          (codes "mysql")
          (codes "app")
          (codes "primary")
          (codes "ada@example.org")
          10
          10)
find-insert_request_example =
    find-insert_request some_host.server (codes "SELECT 2") (codes "h") (codes "mysql")
      (codes "app") (codes "primary") (codes "ada@example.org") ready 10 inserted

run_execute_pipeline-once_example :
    (run_execute_pipeline some_host 70
      (codes "bob@example.org")
      (run_execute_pipeline some_host 70 (codes "ada@example.org") ready).1).1.sent
    ≡ (run_execute_pipeline some_host 70 (codes "ada@example.org") ready).1.sent
run_execute_pipeline-once_example =
    run_execute_pipeline-once some_host 70 (request_in approved) (codes "ada@example.org")
      (codes "writer") 3 ready (codes "bob@example.org") ready-IsReady refl
