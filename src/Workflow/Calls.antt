-- ===== src/Workflow/Calls.antt =====
-- Each call of the persistence layer is a change that the step relation admits.
use sqlgate.Prelude.{
  ℕ, ◌≡◌, ◌≢◌, inl, inr, Bool, true, ℤ, refl, any, ◌==◌, ◌||◌, Option, some, Bool-cases,
}
use sqlgate.Text.{Text, text_eq}
use sqlgate.Json.{Json}
use sqlgate.Db.{
  Uuid, Time, Status, Request, Decision, pending_approval, Db, DbResult, World, call, find,
}
use sqlgate.Db.Calls.{db-call, sent-call, db-get_request, sent-get_request}
use sqlgate.Db.Requests.{
  get_request, list_requests_sql, list_requests, update_status_sql, update_status,
  insert_request_sql, insert_request, is_kind, is_topology,
}
use sqlgate.Db.Approvals.{
  is_known, insert_approval_sql, insert_approval, expire_stale_approvals_sql,
  expire_stale_approvals,
}
use sqlgate.Db.Executions.{insert_execution_sql, insert_execution}
use sqlgate.Db.Previews.{insert_preview_sql, insert_preview}
use sqlgate.Db.Audit.{
  refers, append_audit_event_sql, append_audit_event, list_audit_events_sql, list_audit_events,
}
use sqlgate.Host.{Host}
use sqlgate.Execute.Hash.{query_hash}
use sqlgate.Workflow.{Permitted, Change, stay, submit, move, expire, decide, run, show, log}

module _ (host : Host) (w : World) where
  -- A call whose statement, had it run, would be a change is a change.
  call-Change :
      {A : Type 0} (statement : Time → Uuid → Db → DbResult A × Db)
      → ((v : World)
          → v.db ≡ (statement (host.server.now w.calls) (host.server.new_id w.calls) w.db).1
          → v.sent ≡ w.sent
          → Change host w v)
      → Change host w (call host.server statement w).1
  call-Change statement change = elim (db-call host.server statement w) [
    | inl e ↦ stay e (sent-call host.server statement w)
    | inr e ↦ change _ e (sent-call host.server statement w)
  ]

  pub get_request-Change : (i : Uuid) → Change host w (get_request host.server i w).1
  get_request-Change i = stay (db-get_request host.server i w) (sent-get_request host.server i w)

  pub list_requests-Change :
      (f : Option Text) (n m : ℕ) → Change host w (list_requests host.server f n m w).1
  unfolding list_requests
  list_requests-Change f n m = call-Change (list_requests_sql f n m) (λ v e s. stay e s)

  pub list_audit_events-Change : (i : Uuid) → Change host w (list_audit_events host.server i w).1
  unfolding list_audit_events
  list_audit_events-Change i = call-Change (list_audit_events_sql i) (λ v e s. stay e s)

  pub append_audit_event-Change :
      (i : Option Uuid) (event email : Text) (details : Option Json)
      → Change host w (append_audit_event host.server i event email details w).1
  unfolding append_audit_event append_audit_event_sql
  append_audit_event-Change i event email details =
      call-Change (append_audit_event_sql host.server i event email details) λ v e s.
        elim (Bool-cases (refers i w.db)) [
          | inl known ↦ log _ (rw known at e) s
          | inr unknown ↦ stay (rw unknown at e) s
        ]

  pub insert_execution-Change :
      (i : Uuid) (hash : Text) (matched : Bool) (rows : Option ℤ) (error : Option Text)
      → Change host w (insert_execution host.server i hash matched rows error w).1
  unfolding insert_execution insert_execution_sql
  insert_execution-Change i hash matched rows error =
      call-Change (insert_execution_sql host.server i hash matched rows error) λ v e s.
        elim (Bool-cases (is_known i w.db.requests)) [
          | inl known ↦ run _ (rw known at e) s
          | inr unknown ↦ stay (rw unknown at e) s
        ]

  pub insert_preview-Change :
      (i : Uuid) (json : Json) (rows : ℕ) (duration : ℤ)
      → Change host w (insert_preview host.server i json rows duration w).1
  unfolding insert_preview insert_preview_sql
  insert_preview-Change i json rows duration =
      call-Change (insert_preview_sql host.server i json rows duration) λ v e s.
        elim (Bool-cases (is_known i w.db.requests)) [
          | inl known ↦ show _ (rw known at e) s
          | inr unknown ↦ stay (rw unknown at e) s
        ]

  pub expire_stale_approvals-Change : Change host w (expire_stale_approvals host.server w).1
  unfolding expire_stale_approvals
  expire_stale_approvals-Change =
      call-Change expire_stale_approvals_sql (λ v e s. expire (host.server.now w.calls) e s)

  pub update_status-Change :
      (i : Uuid) (r : Request) (status : Status) (by : Text)
      → find i w.db.requests ≡ some r
      → Permitted by r status
      → Change host w (update_status host.server i status w).1
  unfolding update_status
  update_status-Change i r status by found permitted =
      call-Change (update_status_sql i status)
        λ v e s. move i r status (host.server.now w.calls) by found permitted e s

  pub insert_approval-Change :
      (i : Uuid) (r : Request) (email : Text) (decision : Decision) (expires : Option Time)
      → find i w.db.requests ≡ some r
      → r.status ≡ pending_approval
      → email ≢ r.requester_email
      → Change host w (insert_approval host.server i email decision expires w).1
  unfolding insert_approval insert_approval_sql
  insert_approval-Change i r email decision expires found pending other =
      call-Change (insert_approval_sql host.server i email decision expires) λ v e s.
        elim (Bool-cases (is_known i w.db.requests)) [
          | inl known ↦
              decide _ (record { request = r; found = found; pending = pending; other = other })
                (rw known at e) s
          | inr unknown ↦ stay (rw unknown at e) s
        ]

  pub insert_request-Change :
      (text kind database topology email : Text)
      → is_kind kind ≡ true
      → is_topology topology ≡ true
      → Change host w
          (insert_request host.server text (query_hash host text) kind database topology email w).1
  unfolding insert_request insert_request_sql
  insert_request-Change text kind database topology email k t =
      call-Change
        (insert_request_sql host.server text (query_hash host text) kind database topology email)
        λ v e s.
          elim (Bool-cases (
            any
              (λ r.
                r.id == host.server.new_id w.calls || text_eq r.query_hash (query_hash host text))
              w.db.requests)) [
                | inl taken ↦ stay (rw (k, t, taken) at e) s
                | inr free ↦
                    submit _
                      (record { fresh = free; status = refl; hash = refl; kind = k; topology = t })
                      (rw (k, t, free) at e) s
              ]
