-- ===== src/Db/Frames.antt =====
-- What the calls that write to other tables leave alone: the requests.
use sqlgate.Prelude.{ℕ, ◌≡◌, Bool, Option, ℤ, arith}
use sqlgate.Text.{Text}
use sqlgate.Json.{Json}
use sqlgate.Db.{Uuid, Time, Decision, Server, World, call}
use sqlgate.Db.Approvals.{insert_approval, insert_approval_sql}
use sqlgate.Db.Executions.{insert_execution, insert_execution_sql}
use sqlgate.Db.Previews.{insert_preview, insert_preview_sql}
use sqlgate.Db.Audit.{append_audit_event, append_audit_event_sql}

module _ (server : Server) (w : World) where
  pub requests-append_audit_event :
      (i : Option Uuid) (event email : Text) (details : Option Json)
      → (append_audit_event server i event email details w).1.db.requests ≡ w.db.requests
  unfolding append_audit_event call append_audit_event_sql
  requests-append_audit_event i event email details = ground arith

  pub requests-insert_execution :
      (i : Uuid) (hash : Text) (matched : Bool) (rows : Option ℤ) (error : Option Text)
      → (insert_execution server i hash matched rows error w).1.db.requests ≡ w.db.requests
  unfolding insert_execution call insert_execution_sql
  requests-insert_execution i hash matched rows error = ground arith

  pub requests-insert_preview :
      (i : Uuid) (json : Json) (rows : ℕ) (duration : ℤ)
      → (insert_preview server i json rows duration w).1.db.requests ≡ w.db.requests
  unfolding insert_preview call insert_preview_sql
  requests-insert_preview i json rows duration = ground arith

  pub requests-insert_approval :
      (i : Uuid) (email : Text) (decision : Decision) (expires : Option Time)
      → (insert_approval server i email decision expires w).1.db.requests ≡ w.db.requests
  unfolding insert_approval call insert_approval_sql
  requests-insert_approval i email decision expires = ground arith
