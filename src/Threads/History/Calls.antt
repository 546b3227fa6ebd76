-- ===== src/Threads/History/Calls.antt =====
-- The calls whose conditions were read earlier.
use sqlgate.Prelude.{◌≡◌, ◌≢◌, inl, inr, Option, some, Bool-cases}
use sqlgate.Text.{Text}
use sqlgate.Db.{
  Uuid, Time, Status, Decision, pending_approval, Request, Db, DbResult, World, call, find,
}
use sqlgate.Db.Calls.{db-call, sent-call}
use sqlgate.Db.Requests.{update_status, update_status_sql}
use sqlgate.Db.Approvals.{is_known, insert_approval, insert_approval_sql}
use sqlgate.Host.{Host}
use sqlgate.Execute.Engine.{execute_postgres}
use sqlgate.Workflow.{Permitted}
use sqlgate.Workflow.Pipelines.{db-execute_postgres, sent-execute_postgres}
use sqlgate.Threads.History.{History, Ever, Holds, IsCleared, Event, stay, move, decide, send}

module _ (host : Host) (h : History) where
  call-Event :
      {A : Type 0} (statement : Time → Uuid → Db → DbResult A × Db)
      → ((v : World)
          → v.db
            ≡ (statement (host.server.now h.now.calls) (host.server.new_id h.now.calls) h.now.db).1
          → v.sent ≡ h.now.sent
          → Event host h v)
      → Event host h (call host.server statement h.now).1
  call-Event statement event = elim (db-call host.server statement h.now) [
    | inl e ↦ stay e (sent-call host.server statement h.now)
    | inr e ↦ event _ e (sent-call host.server statement h.now)
  ]

  pub update_status-Event :
      (i : Uuid) (s : Status) (by : Text)
      → Ever (Holds i (λ r. Permitted by r s)) h
      → Event host h (update_status host.server i s h.now).1
  unfolding update_status
  update_status-Event i s by ever =
      call-Event (update_status_sql i s) λ v e k. move i s (host.server.now h.now.calls) by ever e k

  pub insert_approval-Event :
      (i : Uuid) (r : Request) (email : Text) (decision : Decision) (expires : Option Time)
      → find i h.now.db.requests ≡ some r
      → email ≢ r.requester_email
      → Ever (Holds i (λ x. x.status ≡ pending_approval)) h
      → Event host h (insert_approval host.server i email decision expires h.now).1
  unfolding insert_approval insert_approval_sql
  insert_approval-Event i r email decision expires found other pending =
      call-Event (insert_approval_sql host.server i email decision expires) λ v e s.
        elim (Bool-cases (is_known i h.now.db.requests)) [
          | inl known ↦
              decide _ (record { request = r; found = found; other = other; pending = pending })
                (rw known at e) s
          | inr unknown ↦ stay (rw unknown at e) s
        ]

  pub execute_postgres-Event :
      (url statement : Text)
      → IsCleared host url statement h
      → Event host h (execute_postgres host url statement h.now).1
  execute_postgres-Event url statement cleared =
      elim (sent-execute_postgres host url statement h.now) [
        | inl unchanged ↦ stay (db-execute_postgres host url statement h.now) unchanged
        | inr more ↦ send url statement cleared (db-execute_postgres host url statement h.now) more
      ]
