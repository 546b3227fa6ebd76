-- ===== src/Db/Audit.antt =====
-- src/db/audit.rs
use sqlgate.Prelude.{
  Bool, true, false, Option, none, some, List, [], ◌∷◌, ◌++◌, ok, ltb, ◌==◌, if◌then◌else◌, retain,
}
use sqlgate.Text.{Text}
use sqlgate.Json.{Json}
use sqlgate.Db.{
  Uuid, Time, AuditEvent, Db, DbResult, Server, Exec, call, foreign_key_violation, refuse,
}
use sqlgate.Db.Approvals.{is_known}

-- INSERT INTO audit_log, under the foreign key on `requests`, which admits NULL.
abbrev pub refers : Option Uuid → Db → Bool
refers none db = true
refers (some i) db = is_known i db.requests

unfoldable pub append_audit_event_sql :
    Server
    → Option Uuid
    → (event email : Text) → Option Json
    → Time
    → Uuid
    → Db
    → DbResult Uuid × Db
append_audit_event_sql server request event email details now i db =
    if refers request db
    then (
      ok i,
      record db {
        audit_log =
            db.audit_log
            ++ record {
              id = i;
              request_id = request;
              event_type = event;
              actor_email = email;
              details = details;
              created_at = now;
            }
              ∷ [];
      },
    )
    else refuse server foreign_key_violation db

unfoldable pub append_audit_event :
    Server → Option Uuid → (event email : Text) → Option Json → Exec (DbResult Uuid)
append_audit_event server request event email details =
    call server (append_audit_event_sql server request event email details)

abbrev pub is_about : Uuid → AuditEvent → Bool
is_about i e = elim e.request_id [ none ↦ false | some j ↦ j == i ]

-- ORDER BY created_at ASC, events of one instant in table order.
insert_by_earliest : AuditEvent → List AuditEvent → List AuditEvent
insert_by_earliest e [] = e ∷ []
insert_by_earliest e (x ∷ xs) =
    let later = x ∷ insert_by_earliest e xs in
    if ltb x.created_at e.created_at then later else e ∷ x ∷ xs

unfoldable pub sort_earliest : List AuditEvent → List AuditEvent
unfolding insert_by_earliest
sort_earliest [] = []
sort_earliest (e ∷ es) = insert_by_earliest e (sort_earliest es)

abbrev pub list_audit_events_sql : Uuid → Time → Uuid → Db → DbResult (List AuditEvent) × Db
list_audit_events_sql i now _ db = (ok (sort_earliest (retain (is_about i) db.audit_log)), db)

unfoldable pub list_audit_events : Server → Uuid → Exec (DbResult (List AuditEvent))
list_audit_events server i = call server (list_audit_events_sql i)
