-- ===== src/Threads/Safe/Handlers.antt =====
-- The handlers are safe.
use sqlgate.Prelude.{◌≡◌, refl, ap, Bool, true, false, Option, none, some, List, Result, ok, err}
use sqlgate.Text.{Text, codes}
use sqlgate.Db
use sqlgate.Db.{
  Uuid, Time, Status, submitted, previewed, pending_approval, approved, rejected, Decision, approve,
  reject, DbResult, find, AuditEvent,
}
use sqlgate.Db.Requests.Lookup.{find-insert_request}
use sqlgate.Host.{Host}
use sqlgate.Auth.{AuthenticatedUser}
use sqlgate.Execute.Hash.{query_hash}
use sqlgate.Http.Request.{Request}
use sqlgate.Http.Response.{Response}
use sqlgate.Server.Handlers.{form_value, on_approvals, on_history, on_events}
use sqlgate.Server.Handlers.Submit.{Submission, submission, check_submission}
use sqlgate.Server.Handlers.Decide.{on_reload}
use sqlgate.Workflow.Calls.{
  list_requests-Change, list_audit_events-Change, append_audit_event-Change, insert_request-Change,
  expire_stale_approvals-Change,
}
use sqlgate.Workflow.Submitting.{check_submission-ok}
use sqlgate.Threads.{Task}
use sqlgate.Threads.Handlers.{
  Answering, answer, on_pool_task, on_user_task, on_request_id_task, for_request_task,
  approvals_list_task, history_list_task, show_request_task, on_detail_id_task, on_inserted_task,
  submission_task, on_checked_task, submit_task,
}
use sqlgate.Threads.History.{
  History, here, before, Ever, Holds, Event, stay, Event-of_Change, Ever-Follows,
}
use sqlgate.Threads.Safe.{Safe, Safe-bind}
use sqlgate.Threads.Safe.Pipelines.{Safe-with_request, Safe-run_preview}

module _ (host : Host) where
  -- The tests in front of a handler.
  pub Safe-on_pool :
      (h : History) (b : Bool) (t : Task Response) → Safe host h t → Safe host h (on_pool_task b t)
  Safe-on_pool h true t s = Safe-bind host t answer h s (λ g a f. tt)
  Safe-on_pool h false t s = tt

  pub Safe-on_user :
      (h : History) (o : Option AuthenticatedUser) (k : AuthenticatedUser → Answering)
      → ((u : AuthenticatedUser) → Safe host h (k u))
      → Safe host h (on_user_task o k)
  Safe-on_user h none k s = tt
  Safe-on_user h (some u) k s = s u

  Safe-on_request_id :
      (h : History) (o : Option Uuid) (k : Uuid → Answering)
      → ((i : Uuid) → Safe host h (k i))
      → Safe host h (on_request_id_task o k)
  Safe-on_request_id h none k s = tt
  Safe-on_request_id h (some i) k s = s i

  pub Safe-for_request :
      (h : History) (req : Request) (k : Text → Uuid → Task Response)
      → ((email : Text) (i : Uuid) → Safe host h (k email i))
      → Safe host h (for_request_task host req k)
  Safe-for_request h req k s =
      Safe-on_user h req.authenticated_user
        (λ user.
          on_request_id_task (host.parse_uuid (form_value req "request_id" ""))
            λ i. on_pool_task host.has_pool (k user.email i))
        λ user.
          Safe-on_request_id h (host.parse_uuid (form_value req "request_id" ""))
            (λ i. on_pool_task host.has_pool (k user.email i))
            λ i. Safe-on_pool h host.has_pool (k user.email i) (s user.email i)

  -- The last act of a listing writes the answer.
  pub answer-Event :
      (h : History) (m : Db.Exec Response)
      → ((w : Db.World) → (m w).1 ≡ w)
      → Event host h (m h.now).1
  answer-Event h m same = stay (ap (λ w. w.db) (same h.now)) (ap (λ w. w.sent) (same h.now))

  world-on_approvals :
      (req : Request) (o : DbResult (List Db.Request)) (w : Db.World)
      → (on_approvals host req o w).1 ≡ w
  unfolding on_approvals
  world-on_approvals req (ok rows) w = refl
  world-on_approvals req (err e) w = refl

  world-on_history :
      (req : Request) (o : DbResult (List Db.Request)) (w : Db.World)
      → (on_history host req o w).1 ≡ w
  unfolding on_history
  world-on_history req (ok rows) w = refl
  world-on_history req (err e) w = refl

  world-on_events :
      (req : Request) (r : Db.Request) (o : DbResult (List AuditEvent)) (w : Db.World)
      → (on_events host req r o w).1 ≡ w
  unfolding on_events
  world-on_events req r (ok rows) w = refl
  world-on_events req r (err e) w = refl

  pub world-on_reload : (o : DbResult (List Db.Request)) (w : Db.World) → (on_reload host o w).1 ≡ w
  unfolding on_reload
  world-on_reload (ok rows) w = refl
  world-on_reload (err e) w = refl

  pub Safe-approvals_list :
      (h : History) (req : Request) → Safe host h (approvals_list_task host req)
  Safe-approvals_list h req = λ g f. (
    Event-of_Change host g _ (expire_stale_approvals-Change host g.now),
    λ g' f'. (
      Event-of_Change host g' _
          (list_requests-Change host g'.now (some (codes "pending_approval")) 50 0),
      λ k f''. (answer-Event k (on_approvals host req _) (world-on_approvals req _), tt),
    ),
  )

  pub Safe-history_list : (h : History) (req : Request) → Safe host h (history_list_task host req)
  Safe-history_list h req = λ g f. (
    Event-of_Change host g _ (list_requests-Change host g.now _ 100 0),
    λ k f''. (answer-Event k (on_history host req _) (world-on_history req _), tt),
  )

  Safe-show_request :
      (h : History) (req : Request) (i : Uuid) (r : Db.Request)
      → Safe host h (show_request_task host req i r)
  unfolding show_request_task
  Safe-show_request h req i r = λ g f. (
    Event-of_Change host g _ (list_audit_events-Change host g.now i),
    λ k f''. (answer-Event k (on_events host req r _) (world-on_events req r _), tt),
  )

  pub Safe-on_detail_id :
      (h : History) (req : Request) (o : Option Uuid) → Safe host h (on_detail_id_task host req o)
  Safe-on_detail_id h req none = tt
  Safe-on_detail_id h req (some i) =
      Safe-with_request host h i "DB error: " (show_request_task host req i)
        (λ g r found. Safe-show_request g req i r)

  -- A submission.
  Safe-on_inserted :
      (h : History) (s : Submission) (email : Text) (o : DbResult Uuid)
      → ((i : Uuid) → o ≡ ok i → Ever (Holds i (λ r. r.status ≡ submitted)) h)
      → Safe host h (on_inserted_task host s email o)
  unfolding on_inserted_task
  Safe-on_inserted h s email (err e) stored = tt
  Safe-on_inserted h s email (ok i) stored = λ g f. (
    Event-of_Change host g _
        (append_audit_event-Change host g.now (some i) (codes "submitted") email _),
    Safe-run_preview host _ i _ _ _ _ email (before (Ever-Follows host _ f (stored i refl))),
  )

  Safe-submission :
      (h : History) (s : Submission) (email : Text)
      → check_submission host s ≡ ok tt
      → Safe host h (submission_task host s email)
  unfolding submission_task
  Safe-submission h s email checked = λ g f.
      let (kind, topology) = check_submission-ok host s tt checked in
      (
        Event-of_Change host g _ (
            insert_request-Change host g.now s.query_text s.target_kind s.target_db
              s.target_topology email kind topology),
        Safe-on_inserted _ s email _ λ i answered. here (
          _,
          find-insert_request host.server s.query_text (query_hash host s.query_text) s.target_kind
              s.target_db s.target_topology email g.now i answered,
          refl,
        ),
      )

  Safe-on_checked :
      (h : History) (s : Submission) (email : Text) (o : Result (Unit {0}) Text)
      → check_submission host s ≡ o
      → Safe host h (on_checked_task host s email o)
  unfolding on_checked_task
  Safe-on_checked h s email (err message) checked = tt
  Safe-on_checked h s email (ok u) checked =
      Safe-on_pool h host.has_pool (submission_task host s email)
        (Safe-submission h s email checked)

  pub Safe-submit : (h : History) (req : Request) → Safe host h (submit_task host req)
  unfolding submit_task
  Safe-submit h req =
      Safe-on_user h req.authenticated_user
        (λ user.
          on_checked_task host (submission req) user.email (check_submission host (submission req)))
        λ user.
          Safe-on_checked h (submission req) user.email (check_submission host (submission req))
            refl
