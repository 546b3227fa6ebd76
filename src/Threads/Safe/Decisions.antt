-- ===== src/Threads/Safe/Decisions.antt =====
-- The handlers that move a request are safe.
use sqlgate.Prelude.{◌≡◌, ◌≢◌, refl, sym, ◌∙◌, inl, inr, Option, none, some, Bool-cases}
use sqlgate.Text.{Text, codes}
use sqlgate.Text.Equality.{text_cases}
use sqlgate.Db
use sqlgate.Db.{
  Uuid, Time, Status, previewed, pending_approval, approved, rejected, Decision, approve, reject,
  World, find,
}
use sqlgate.Db.Approvals.{insert_approval}
use sqlgate.Host.{Host}
use sqlgate.Server.Handlers.Decide.{is_previewed, is_pending, approval_ttl, expiry, on_reload}
use sqlgate.Workflow.Calls.{
  list_requests-Change, append_audit_event-Change, expire_stale_approvals-Change,
}
use sqlgate.Workflow.Deciding.{previewed_of_test, pending_of_test}
use sqlgate.Threads.Handlers.{
  request_approval_task, reload_task, store_approval_task, approve_task, store_rejection_task,
  reject_task, ask_task, expire_and_approve_task, refuse_task, expire_and_execute_task,
}
use sqlgate.Threads.History.{
  History, here, before, Event, stay, Event-of_Change, Follows, grow, Ever-Follows,
}
use sqlgate.Threads.History.Kept.{Follows-Keeps}
use sqlgate.Threads.History.Calls.{update_status-Event, insert_approval-Event}
use sqlgate.Threads.Safe.{Safe, Safe-Follows}
use sqlgate.Threads.Safe.Handlers.{answer-Event, world-on_reload}
use sqlgate.Threads.Safe.Pipelines.{Safe-with_request}
use sqlgate.Threads.Safe.Execution.{Safe-run_execute}

module _ (host : Host) where
  Safe-reload : (h : History) → Safe host h (reload_task host)
  unfolding reload_task
  Safe-reload h = λ g f. (
    Event-of_Change host g _
        (list_requests-Change host g.now (some (codes "pending_approval")) 50 0),
    λ k f'. (answer-Event host k (on_reload host _) (world-on_reload host _), tt),
  )

  module _ (email : Text) (i : Uuid) where
    Safe-request_approval :
        (h : History) (r : Db.Request)
        → find i h.now.db.requests ≡ some r
        → Safe host h (request_approval_task host email i r)
    unfolding request_approval_task
    Safe-request_approval h r found = elim (Bool-cases (is_previewed r.status)) [
      | inl test ↦
          rw (test, request_approval_task)
            λ g f. (
              update_status-Event host g i pending_approval email
                  (Ever-Follows host _ f (here (r, found, previewed_of_test host r.status test))),
              λ k f'. (
                Event-of_Change host k _ (
                    append_audit_event-Change host k.now (some i) (codes "requested_approval") email
                      none),
                tt,
              ),
            )
      | inr test ↦ rw (test, request_approval_task) tt
    ]

    -- What a decision rests on: the request that was read, pending then, and of another person.
    module _ (h : History) (r : Db.Request) (found : find i h.now.db.requests ≡ some r)
        (pending : r.status ≡ pending_approval) (other : email ≢ r.requester_email) where
      insertion :
          (g : History) (decision : Decision) (expires : Option Time)
          → Follows host h g
          → Event host g (insert_approval host.server i email decision expires g.now).1
      insertion g decision expires f =
          let kept = Follows-Keeps host f i r found in
          insert_approval-Event host g i kept.row email decision expires kept.found
            (λ e. other (e ∙ sym kept.alike.requester_email))
            (Ever-Follows host _ f (here (r, found, pending)))

      Safe-store_approval :
          (expires : Time) → Safe host h (store_approval_task host email i expires)
      unfolding store_approval_task
      Safe-store_approval expires = λ g f. (
        insertion g approve (some expires) f,
        λ g' f'. (
          update_status-Event host g' i approved email (
              Ever-Follows host _ f'
                (before (Ever-Follows host _ f (here (r, found, (pending, other)))))),
          λ k f''. (
            Event-of_Change host k _
                (append_audit_event-Change host k.now (some i) (codes "approved") email _),
            Safe-reload _,
          ),
        ),
      )

      Safe-store_rejection : Safe host h (store_rejection_task host email i)
      unfolding store_rejection_task
      Safe-store_rejection = λ g f. (
        insertion g reject none f,
        λ g' f'. (
          update_status-Event host g' i rejected email (
              Ever-Follows host _ f'
                (before (Ever-Follows host _ f (here (r, found, (pending, other)))))),
          λ k f''. (
            Event-of_Change host k _
                (append_audit_event-Change host k.now (some i) (codes "rejected") email none),
            Safe-reload _,
          ),
        ),
      )

    Safe-approve :
        (h : History) (r : Db.Request)
        → find i h.now.db.requests ≡ some r
        → Safe host h (approve_task host email i r)
    unfolding approve_task
    Safe-approve h r found = elim (text_cases r.requester_email email) [
      | inl (_, own) ↦ rw (own, approve_task) tt
      | inr (other, test) ↦ elim (Bool-cases (is_pending r.status)) [
        | inl pending ↦
            rw (test, pending, approve_task)
              λ g f. (
                stay refl refl,
                Safe-Follows host
                    (store_approval_task host email i
                      (expiry (host.system_time g.now.calls) (approval_ttl host)))
                    h _ (grow f (stay refl refl))
                    (Safe-store_approval h r found (pending_of_test host r.status pending)
                      (λ e. other (sym e)) _),
              )
        | inr wrong ↦ rw (test, wrong, approve_task) tt
      ]
    ]

    Safe-reject :
        (h : History) (r : Db.Request)
        → find i h.now.db.requests ≡ some r
        → Safe host h (reject_task host email i r)
    unfolding reject_task
    Safe-reject h r found = elim (text_cases r.requester_email email) [
      | inl (_, own) ↦ rw (own, reject_task) tt
      | inr (other, test) ↦ elim (Bool-cases (is_pending r.status)) [
        | inl pending ↦
            rw (test, pending, reject_task)
              (Safe-store_rejection h r found (pending_of_test host r.status pending)
                (λ e. other (sym e)))
        | inr wrong ↦ rw (test, wrong, reject_task) tt
      ]
    ]

    pub Safe-ask : (h : History) → Safe host h (ask_task host email i)
    Safe-ask h =
        Safe-with_request host h i "Database error: " (request_approval_task host email i)
          (λ g r found. Safe-request_approval g r found)

    pub Safe-expire_and_approve : (h : History) → Safe host h (expire_and_approve_task host email i)
    Safe-expire_and_approve h = λ g f. (
      Event-of_Change host g _ (expire_stale_approvals-Change host g.now),
      Safe-with_request host _ i "Database error: " (approve_task host email i)
          (λ k r found. Safe-approve k r found),
    )

    pub Safe-refuse : (h : History) → Safe host h (refuse_task host email i)
    Safe-refuse h =
        Safe-with_request host h i "Database error: " (reject_task host email i)
          (λ g r found. Safe-reject g r found)

    pub Safe-expire_and_execute : (h : History) → Safe host h (expire_and_execute_task host email i)
    Safe-expire_and_execute h = λ g f. (
      Event-of_Change host g _ (expire_stale_approvals-Change host g.now),
      Safe-run_execute host _ i email,
    )
