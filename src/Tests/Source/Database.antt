-- ===== src/Tests/Source/Database.antt =====
-- The tests of src/db, on a database that meets no fault. A row that a test inserts by a statement of
-- its own, and the deletion at its end, are those of the tables it begins with and ends with.
use sqlgate.Prelude.{
  ◌≡◌, refl, ℕ, Bool, true, false, ◌&&◌, Option, none, some, List, [], ◌∷◌, any, ◌==◌, ℤ, pos, ltb,
  ok,
}
use sqlgate.Text.{Text, codes, text_eq}
use sqlgate.Json.{number, object, end, field}
use sqlgate.Db.{
  Uuid, Status, submitted, previewed, pending_approval, approved, executed, expired, Decision,
  approve, Request, Approval, Execution, AuditEvent, World, status_text, DbResult, Server, Exec,
  pure, ◌>>=◌, ◌>>◌, call, find,
}
use sqlgate.Db.Requests.{
  insert_request, insert_request_sql, get_request, list_requests, update_status, set_status,
  select_requests,
}
use sqlgate.Db.Approvals.{
  insert_approval, insert_approval_sql, expire_stale_approvals, expire_rows, is_stale,
}
use sqlgate.Db.Executions.{insert_execution, insert_execution_sql}
use sqlgate.Db.Audit.{append_audit_event, append_audit_event_sql, list_audit_events, sort_earliest}
use sqlgate.Tests.{some_host}
use sqlgate.Tests.Source.{is_ok_with, is_some_with, is_text}

abbrev server : Server
server = some_host.server

-- Tables with no row.
abbrev empty : World
empty = record {
  db = record { requests = []; previews = []; approvals = []; executions = []; audit_log = [] };
  calls = 0;
  sent = [];
}

-- The row that a test inserts by a statement of its own, at a time of more than an hour.
abbrev tables_with : (text hash : Text) → Status → List Approval → World
tables_with text hash status approvals = record {
  db = record {
    requests =
        record {
          id = 70;
          query_text = text;
          query_hash = hash;
          target_kind = codes "postgres";
          target_db = codes "testdb";
          target_topology = codes "primary";
          requester_email = codes "a@b.com";
          status = status;
          created_at = 5000;
          updated_at = 5000;
        }
        ∷ [];
    previews = [];
    approvals = approvals;
    executions = [];
    audit_log = [];
  };
  calls = 5000;
  sent = [];
}

-- An approval that expired an hour ago.
abbrev old_approval : Approval
old_approval = record {
  id = 71;
  request_id = 70;
  approver_email = codes "a@b.com";
  decision = approve;
  expires_at = some 1400;
  created_at = 5000;
}

-- `unwrap` of an identifier: what follows runs on it.
abbrev with_id : DbResult Uuid → (Uuid → Exec Bool) → Exec Bool
with_id (ok i) k = k i
with_id _ k = pure false

abbrev has : Status → Option Request → Bool
has status o = is_some_with (λ r. text_eq (status_text r.status) (status_text status)) o

abbrev inserted : (text hash email : Text) → Exec (DbResult Uuid)
inserted text hash email =
    insert_request server text hash (codes "postgres") (codes "testdb") (codes "primary") email

-- src/db/requests.rs
abbrev insert_and_get : Uuid → Exec Bool
insert_and_get id = do
  got ← get_request server id
  pure (
      is_ok_with
        (λ o. is_some_with (λ r. text_eq r.query_text (codes "SELECT 1")) o && has submitted o) got)

abbrev test_insert_and_get_request : Bool
test_insert_and_get_request =
    ((do
      stored ← inserted (codes "SELECT 1") (codes "test-hash-0") (codes "test@e.com")
      with_id stored insert_and_get)
      empty).0

abbrev insert_and_list : Uuid → Exec Bool
insert_and_list id = do
  listed ← list_requests server none 10 0
  pure (is_ok_with (λ list. any (λ r. r.id == id) list) listed)

abbrev test_list_requests : Bool
test_list_requests =
    ((do
      stored ← inserted (codes "SELECT 2") (codes "test-list-0") (codes "a@b.com")
      with_id stored insert_and_list)
      empty).0

abbrev update_and_get : Uuid → Exec Bool
update_and_get id = do
  update_status server id previewed
  got ← get_request server id
  pure (is_ok_with (has previewed) got)

abbrev test_update_status : Bool
test_update_status =
    ((do
      stored ← inserted (codes "SELECT 3") (codes "test-status-0") (codes "a@b.com")
      with_id stored update_and_get)
      empty).0

table_tests :
    test_insert_and_get_request ∷ test_list_requests ∷ test_update_status ∷ []
    ≡ true ∷ true ∷ true ∷ []
unfolding insert_request insert_request_sql get_request list_requests update_status set_status call
    find text_eq status_text select_requests
table_tests = refl

-- src/db/approvals.rs
abbrev is_approve : Decision → Bool
is_approve approve = true
is_approve _ = false

abbrev test_insert_approval : Bool
test_insert_approval =
    let (stored, world) =
      insert_approval server 70 (codes "approver@e.com") approve (some 5900)
        (tables_with (codes "SELECT 1") (codes "test-approval-0") pending_approval []) in
    is_ok_with (λ id. any (λ a. a.id == id && is_approve a.decision) world.db.approvals) stored

abbrev test_expire_stale_approvals : Bool
test_expire_stale_approvals =
    let (count, world) =
      expire_stale_approvals server
        (tables_with (codes "SELECT 2") (codes "test-expire-0") approved (old_approval ∷ [])) in
    is_ok_with (λ n. ltb 0 n) count && has expired (find 70 world.db.requests)

approval_tests : test_insert_approval ∷ test_expire_stale_approvals ∷ [] ≡ true ∷ true ∷ []
unfolding insert_approval insert_approval_sql expire_stale_approvals expire_rows is_stale call find
    text_eq status_text
approval_tests = refl

-- src/db/executions.rs
abbrev is_stored : (Execution → Bool) → DbResult Uuid × World → Bool
is_stored p (stored, world) =
    is_ok_with (λ id. any (λ e. e.id == id && p e) world.db.executions) stored

abbrev is_rows : Option ℤ → ℕ → Bool
is_rows (some (pos n)) m = n == m
is_rows _ m = false

abbrev has_no_error : Option Text → Bool
has_no_error none = true
has_no_error (some _) = false

abbrev test_insert_execution_success : Bool
test_insert_execution_success =
    is_stored (λ e. is_rows e.rows_affected 42 && has_no_error e.error_message)
      (insert_execution server 70 (codes "test-exec-0") true (some (pos 42)) none
        (tables_with (codes "SELECT 1") (codes "test-exec-0") executed []))

abbrev test_insert_execution_failure : Bool
test_insert_execution_failure =
    is_stored (λ e. is_text e.error_message (codes "constraint violation"))
      (insert_execution server 70 (codes "test-exec-fail-0") true none
        (some (codes "constraint violation"))
        (tables_with (codes "SELECT 1") (codes "test-exec-fail-0") executed []))

execution_tests :
    test_insert_execution_success ∷ test_insert_execution_failure ∷ [] ≡ true ∷ true ∷ []
unfolding insert_execution insert_execution_sql call text_eq
execution_tests = refl

-- src/db/audit.rs
abbrev is_one_event : Uuid → List AuditEvent → Bool
is_one_event id (e ∷ []) = e.id == id && text_eq e.event_type (codes "previewed")
is_one_event id _ = false

abbrev append_and_list : Uuid → Exec Bool
append_and_list id = do
  events ← list_audit_events server 70
  pure (is_ok_with (is_one_event id) events)

abbrev test_append_and_list_audit_events : Bool
test_append_and_list_audit_events =
    ((do
      stored ← append_audit_event server (some 70) (codes "previewed") (codes "system") (
          some (
            object (
              field (codes "rows") (number (pos 5))
                (field (codes "duration_ms") (number (pos 42)) end))))
      with_id stored append_and_list)
      (tables_with (codes "SELECT 1") (codes "test-audit-0") submitted [])).0

audit_tests : test_append_and_list_audit_events ≡ true
unfolding append_audit_event append_audit_event_sql list_audit_events call text_eq sort_earliest
audit_tests = refl
