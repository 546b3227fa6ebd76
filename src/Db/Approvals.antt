-- ===== src/Db/Approvals.antt =====
-- src/db/approvals.rs
pub mod Expiry
use sqlgate.Prelude.{
  ℕ, Bool, true, false, ◌&&◌, Option, none, some, List, [], ◌∷◌, ◌++◌, ok, ltb, ◌==◌, if◌then◌else◌,
  any, retain, length,
}
use sqlgate.Text.{Text}
use sqlgate.Db.{
  Uuid, Time, Status, submitted, previewed, pending_approval, approved, rejected, executed, expired,
  Decision, approve, reject, Request, Approval, Db, DbResult, Server, Exec, call,
  foreign_key_violation, refuse, find,
}

abbrev pub is_known : Uuid → List Request → Bool
is_known i rows = any (λ r. r.id == i) rows

-- INSERT INTO approvals, under the foreign key on `requests`.
unfoldable pub insert_approval_sql :
    Server → Uuid → Text → Decision → Option Time → Time → Uuid → Db → DbResult Uuid × Db
insert_approval_sql server request email decision expires now i db =
    if is_known request db.requests
    then (
      ok i,
      record db {
        approvals =
            db.approvals
            ++ record {
              id = i;
              request_id = request;
              approver_email = email;
              decision = decision;
              expires_at = expires;
              created_at = now;
            }
              ∷ [];
      },
    )
    else refuse server foreign_key_violation db

unfoldable pub insert_approval :
    Server → Uuid → Text → Decision → Option Time → Exec (DbResult Uuid)
insert_approval server request email decision expires =
    call server (insert_approval_sql server request email decision expires)

abbrev pub is_approved : Status → Bool
is_approved approved = true
is_approved _ = false

abbrev pub is_approve : Decision → Bool
is_approve approve = true
is_approve reject = false

-- expires_at IS NOT NULL AND expires_at < now()
unfoldable pub is_past : Option Time → Time → Bool
is_past none now = false
is_past (some t) now = ltb t now

-- id IN (SELECT a.request_id FROM approvals a WHERE …)
unfoldable pub is_stale : Time → List Approval → Uuid → Bool
unfolding is_past
is_stale now approvals i =
    any (λ a. a.request_id == i && is_approve a.decision && is_past a.expires_at now) approvals

abbrev pub expires_now : Time → List Approval → Request → Bool
expires_now now approvals r = is_approved r.status && is_stale now approvals r.id

unfoldable pub expire_rows : Time → List Approval → List Request → List Request
expire_rows now approvals [] = []
expire_rows now approvals (r ∷ rs) =
    (if expires_now now approvals r then record r { status = expired; updated_at = now } else r)
    ∷ expire_rows now approvals rs

-- UPDATE requests SET status = 'expired' WHERE status = 'approved' AND …
abbrev pub expire_stale_approvals_sql : Time → Uuid → Db → DbResult ℕ × Db
expire_stale_approvals_sql now _ db = (
  ok (length (retain (expires_now now db.approvals) db.requests)),
  record db { requests = expire_rows now db.approvals db.requests },
)

unfoldable pub expire_stale_approvals : Server → Exec (DbResult ℕ)
expire_stale_approvals server = call server expire_stale_approvals_sql
