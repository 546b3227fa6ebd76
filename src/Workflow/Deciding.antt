-- ===== src/Workflow/Deciding.antt =====
-- The handlers of src/main.rs that move requests, as sequences of admitted changes, whatever the
-- database answers.
use sqlgate.Prelude.{◌≡◌, ◌≢◌, sym, inl, inr, true, none, some, arith, Bool-cases}
use sqlgate.Text.{Text, codes}
use sqlgate.Text.Equality.{text_cases}
use sqlgate.Db
use sqlgate.Db.{
  Uuid, Time, Status, submitted, previewed, pending_approval, approved, rejected, approve, reject,
  DbError, DbResult, World, Exec, find, AuditEvent,
}
use sqlgate.Db.Frames.{requests-insert_approval}
use sqlgate.Host.{Host}
use sqlgate.Fetch.{with_request}
use sqlgate.Http.Request.{Request}
use sqlgate.Server.Handlers.Decide.{
  is_previewed, is_pending, request_approval, approval_ttl, expiry, store_approval, approve_request,
  store_rejection, reject_request, expire_and_approve, expire_and_execute, request_approval_handler,
  approve_handler, reject_handler, execute_handler,
}
use sqlgate.Workflow.{Steps, here, next, Steps-one, Steps-append}
use sqlgate.Workflow.Calls.{
  append_audit_event-Change, expire_stale_approvals-Change, update_status-Change,
  insert_approval-Change,
}
use sqlgate.Workflow.Reading.{for_request-Steps, reload-Steps}
use sqlgate.Workflow.Pipelines.{with_request-Steps, run_execute_pipeline-Steps}

module _ (host : Host) where
  pub previewed_of_test : (s : Status) → is_previewed s ≡ true → s ≡ previewed
  previewed_of_test s h = ground arith

  pub pending_of_test : (s : Status) → is_pending s ≡ true → s ≡ pending_approval
  pending_of_test s h = ground arith

  request_approval-Steps :
      (email : Text) (i : Uuid) (v : World) (r : Db.Request)
      → find i v.db.requests ≡ some r
      → Steps host v (request_approval host email i r v).1
  unfolding request_approval
  request_approval-Steps email i v r found = elim (Bool-cases (is_previewed r.status)) [
    | inl test ↦
        rw (test, request_approval)
          (next
            (Steps-one host (
              update_status-Change host v i r pending_approval email found
                (previewed_of_test r.status test)))
            (append_audit_event-Change host _ (some i) (codes "requested_approval") email none))
    | inr test ↦ rw (test, request_approval) here
  ]

  module _ (email : Text) (i : Uuid) (v : World) (r : Db.Request)
      (found : find i v.db.requests ≡ some r) (pending : r.status ≡ pending_approval)
      (other : email ≢ r.requester_email) where
    store_approval-Steps : (expires : Time) → Steps host v (store_approval host email i expires v).1
    unfolding store_approval
    store_approval-Steps expires =
        let stored =
          insert_approval-Change host v i r email approve (some expires) found pending other in
        let same = requests-insert_approval host.server v i email approve (some expires) in
        Steps-append host
          (next
            (next (Steps-one host stored)
              (update_status-Change host _ i r approved email (rw same found) (pending, other)))
            (append_audit_event-Change host _ (some i) (codes "approved") email _))
          (reload-Steps host _)

    store_rejection-Steps : Steps host v (store_rejection host email i v).1
    unfolding store_rejection
    store_rejection-Steps =
        let stored = insert_approval-Change host v i r email reject none found pending other in
        let same = requests-insert_approval host.server v i email reject none in
        Steps-append host
          (next
            (next (Steps-one host stored)
              (update_status-Change host _ i r rejected email (rw same found) (pending, other)))
            (append_audit_event-Change host _ (some i) (codes "rejected") email none))
          (reload-Steps host _)

  approve_request-Steps :
      (email : Text) (i : Uuid) (v : World) (r : Db.Request)
      → find i v.db.requests ≡ some r
      → Steps host v (approve_request host email i r v).1
  unfolding approve_request
  approve_request-Steps email i v r found = elim (text_cases r.requester_email email) [
    | inl (_, own) ↦ rw (own, approve_request) here
    | inr (other, test) ↦ elim (Bool-cases (is_pending r.status)) [
      | inl pending ↦
          rw (test, pending, approve_request)
            (store_approval-Steps email i v r found (pending_of_test r.status pending)
              (λ e. other (sym e)) (expiry (host.system_time v.calls) (approval_ttl host)))
      | inr wrong ↦ rw (test, wrong, approve_request) here
    ]
  ]

  reject_request-Steps :
      (email : Text) (i : Uuid) (v : World) (r : Db.Request)
      → find i v.db.requests ≡ some r
      → Steps host v (reject_request host email i r v).1
  unfolding reject_request
  reject_request-Steps email i v r found = elim (text_cases r.requester_email email) [
    | inl (_, own) ↦ rw (own, reject_request) here
    | inr (other, test) ↦ elim (Bool-cases (is_pending r.status)) [
      | inl pending ↦
          rw (test, pending, reject_request)
            (store_rejection-Steps email i v r found (pending_of_test r.status pending)
              (λ e. other (sym e)))
      | inr wrong ↦ rw (test, wrong, reject_request) here
    ]
  ]

  pub request_approval_handler-Steps :
      (req : Request) (w : World) → Steps host w (request_approval_handler host req w).1
  unfolding request_approval_handler
  request_approval_handler-Steps req =
      for_request-Steps host req
        (λ email i. with_request host i "Database error: " (request_approval host email i))
        λ email i v.
          with_request-Steps host i "Database error: " (request_approval host email i) v
            (request_approval-Steps email i)

  pub approve_handler-Steps :
      (req : Request) (w : World) → Steps host w (approve_handler host req w).1
  unfolding approve_handler
  approve_handler-Steps req = for_request-Steps host req (expire_and_approve host) λ email i v.
      Steps-append host (Steps-one host (expire_stale_approvals-Change host v)) (
        with_request-Steps host i "Database error: " (approve_request host email i) _
          (approve_request-Steps email i))

  pub reject_handler-Steps :
      (req : Request) (w : World) → Steps host w (reject_handler host req w).1
  unfolding reject_handler
  reject_handler-Steps req =
      for_request-Steps host req
        (λ email i. with_request host i "Database error: " (reject_request host email i))
        λ email i v.
          with_request-Steps host i "Database error: " (reject_request host email i) v
            (reject_request-Steps email i)

  pub execute_handler-Steps :
      (req : Request) (w : World) → Steps host w (execute_handler host req w).1
  unfolding execute_handler
  execute_handler-Steps req = for_request-Steps host req (expire_and_execute host) λ email i v.
      Steps-append host (Steps-one host (expire_stale_approvals-Change host v))
        (run_execute_pipeline-Steps host i email _)
