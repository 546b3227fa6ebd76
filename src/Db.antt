-- ===== src/Db.antt =====
-- The persistence layer (src/db/mod.rs, db/schema.sql): the tables, the errors of a call, and what
-- one call of the pool does to the tables. A statement runs alone in its own transaction.
pub mod Requests
pub mod Approvals
pub mod Audit
pub mod Executions
pub mod Previews
pub mod Calls
pub mod Frames
use sqlgate.Prelude.{
  ℕ, suc, Bool, true, false, Option, none, some, List, [], ◌∷◌, ◌++◌, ℤ, Result, ok, err, ◌==◌,
  if◌then◌else◌,
}
use sqlgate.Text.{Text, codes}
use sqlgate.Json.{Json}

abbrev pub Uuid : Type 0
Uuid = ℕ

-- An instant, in nanoseconds since 1970.
abbrev pub Time : Type 0
Time = ℕ

-- The values that the CHECK constraint of `requests.status` admits.
pub data Status : Type 0 where
  submitted previewed pending_approval approved rejected executed expired : Status

unfoldable pub status_text : Status → Text
status_text submitted = codes "submitted"
status_text previewed = codes "previewed"
status_text pending_approval = codes "pending_approval"
status_text approved = codes "approved"
status_text rejected = codes "rejected"
status_text executed = codes "executed"
status_text expired = codes "expired"

-- The values that the CHECK constraint of `approvals.decision` admits.
pub data Decision : Type 0 where
  approve reject : Decision

pub record Request : Type 0 where
  pub id : Uuid
  pub query_text : Text
  pub query_hash : Text
  pub target_kind : Text
  pub target_db : Text
  pub target_topology : Text
  pub requester_email : Text
  pub status : Status
  pub created_at : Time
  pub updated_at : Time

pub record Preview : Type 0 where
  pub id : Uuid
  pub request_id : Uuid
  pub preview_json : Json
  pub row_count : ℤ
  pub duration_ms : ℤ

pub record Approval : Type 0 where
  pub id : Uuid
  pub request_id : Uuid
  pub approver_email : Text
  pub decision : Decision
  pub expires_at : Option Time
  pub created_at : Time

pub record Execution : Type 0 where
  pub id : Uuid
  pub request_id : Uuid
  pub executed_query_hash : Text
  pub hash_matched : Bool
  pub rows_affected : Option ℤ
  pub error_message : Option Text
  pub created_at : Time

pub record AuditEvent : Type 0 where
  pub id : Uuid
  pub request_id : Option Uuid
  pub event_type : Text
  pub actor_email : Text
  pub details : Option Json
  pub created_at : Time

-- The five tables, each in the order of insertion.
pub record Db : Type 0 where
  pub requests : List Request
  pub previews : List Preview
  pub approvals : List Approval
  pub executions : List Execution
  pub audit_log : List AuditEvent

-- `r2d2::Error` by its text, `postgres::Error` by its SQLSTATE and its text.
pub data DbError : Type 0 where
  pool : Text → DbError
  query : Option Text → Text → DbError

abbrev pub DbResult : Type 0 → Type 0
DbResult A = Result A DbError

-- `Display`.
unfoldable pub show_error : DbError → Text
show_error (pool e) = codes "pool error: " ++ e
show_error (query _ e) = codes "query error: " ++ e

-- What may go wrong around a call: nothing; an error before the statement runs; an error after it
-- has run and committed, such as a lost reply.
pub data Fault : Type 0 where
  fine : Fault
  before : DbError → Fault
  after : DbError → Fault

-- A statement that a target database has carried out, with its URL.
pub record Sent : Type 0 where
  pub url : Text
  pub statement : Text

-- The state around a connection: the tables, the number of calls made so far, and the statements
-- that were sent to targets by the execution engine, the latest first.
pub record World : Type 0 where
  pub db : Db
  pub calls : ℕ
  pub sent : List Sent

-- The database server as it meets each call, by the call's number.
pub record Server : Type 0 where
  pub fault : ℕ → Fault
  pub new_id : ℕ → Uuid
  pub now : ℕ → Time
  pub message : Text → Text

abbrev pub Exec {ℓ} : Type ℓ → Type ℓ
Exec A = World → A × World

abbrev pub pure {ℓ} : {A : Type ℓ} → A → Exec A
pure a w = (a, w)

infixl 5 ◌>>=◌ ◌>>◌
abbrev pub ◌>>=◌ {ℓ κ} : {A : Type ℓ} {B : Type κ} → Exec A → (A → Exec B) → Exec B
◌>>=◌ m f w = f (m w).0 (m w).1

-- `let _ = m`: the result is dropped, an error too.
abbrev pub ◌>>◌ {ℓ κ} : {A : Type ℓ} {B : Type κ} → Exec A → Exec B → Exec B
◌>>◌ m k w = k (m w).1

abbrev pub set_db : World → Db → World
set_db w d = record w { db = d; calls = suc w.calls }

-- `client.query_one`, `client.execute` and the like: a statement as a function of the clock, of the
-- identifier that `gen_random_uuid()` gives, and of the tables.
unfoldable pub call :
    {A : Type 0} → Server → (Time → Uuid → Db → DbResult A × Db) → Exec (DbResult A)
call server statement w =
    let result = statement (server.now w.calls) (server.new_id w.calls) w.db in
    elim (server.fault w.calls) [
      | fine ↦ (result.0, set_db w result.1)
      | before e ↦ (err e, set_db w w.db)
      | after e ↦ (err e, set_db w result.1)
    ]

abbrev pub unique_violation : Text
unique_violation = codes "23505"

abbrev pub check_violation : Text
check_violation = codes "23514"

abbrev pub foreign_key_violation : Text
foreign_key_violation = codes "23503"

-- A statement that a constraint refuses changes nothing.
abbrev pub refuse : {A : Type 0} → Server → Text → Db → DbResult A × Db
refuse server code db = (err (query (some code) (server.message code)), db)

unfoldable pub find : Uuid → List Request → Option Request
find i [] = none
find i (r ∷ rs) = let rest = find i rs in if r.id == i then some r else rest
