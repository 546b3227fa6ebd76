-- ===== src/Threads/Handlers.antt =====
-- The handlers of src/main.rs as tasks.
use sqlgate.Prelude.{Bool, true, false, Option, none, some, if◌then◌else◌, Result, ok, err}
use sqlgate.Text.{Text, codes, text_eq}
use sqlgate.Map
use sqlgate.Map.{or_default}
use sqlgate.Db
use sqlgate.Db.{Uuid, Time, DbResult, pending_approval, approved, rejected, approve, reject}
use sqlgate.Db.Requests.{insert_request, list_requests, update_status}
use sqlgate.Db.Approvals.{insert_approval, expire_stale_approvals}
use sqlgate.Db.Audit.{append_audit_event, list_audit_events}
use sqlgate.Host.{Host}
use sqlgate.Auth.{AuthenticatedUser}
use sqlgate.Execute.Hash.{query_hash}
use sqlgate.Http.Request.{Request}
use sqlgate.Http.Response.{Response, bad_request}
use sqlgate.Templates.{submit_error, approval_requested}
use sqlgate.Server.Handlers.{on_approvals, on_history, on_events, form_value}
use sqlgate.Server.Handlers.Submit.{
  Submission, submission, check_submission, insert_failure, submit_details,
}
use sqlgate.Server.Handlers.Decide.{
  is_previewed, is_pending, wrong_status, on_reload, approval_ttl, expiry, approval_details,
}
use sqlgate.Threads.{Task, done, atom, ◌>>=◌, ◌>>◌}
use sqlgate.Threads.Pipelines.{with_request_task, run_preview_task, run_execute_task}

abbrev pub Answering : Type 0
Answering = Task (Option Response)

abbrev pub answer : Response → Answering
answer r = done (some r)

abbrev pub on_pool_task : Bool → Task Response → Answering
on_pool_task true t = do r ← t; answer r
on_pool_task false t = done none

abbrev pub on_user_task : Option AuthenticatedUser → (AuthenticatedUser → Answering) → Answering
on_user_task none k = answer (bad_request (codes "authentication required"))
on_user_task (some user) k = k user

abbrev pub on_request_id_task : Option Uuid → (Uuid → Answering) → Answering
on_request_id_task none k = answer (submit_error (codes "Invalid request ID"))
on_request_id_task (some i) k = k i

abbrev pub for_request_task : Host → Request → (Text → Uuid → Task Response) → Answering
for_request_task host req k = on_user_task req.authenticated_user λ user.
    on_request_id_task (host.parse_uuid (form_value req "request_id" ""))
      λ i. on_pool_task host.has_pool (k user.email i)

-- The handlers that only read.
abbrev pub approvals_list_task : Host → Request → Task Response
approvals_list_task host req = do
  atom (expire_stale_approvals host.server)
  listed ← atom (list_requests host.server (some (codes "pending_approval")) 50 0)
  atom (on_approvals host req listed)

abbrev pub history_list_task : Host → Request → Task Response
history_list_task host req = do
  listed ← atom (list_requests host.server (Map.get (codes "status") req.query) 100 0)
  atom (on_history host req listed)

unfoldable pub show_request_task : Host → Request → Uuid → Db.Request → Task Response
show_request_task host req i r = do
  listed ← atom (list_audit_events host.server i)
  atom (on_events host req r listed)

abbrev pub on_detail_id_task : Host → Request → Option Uuid → Task Response
on_detail_id_task host req none = done (submit_error (codes "Invalid request ID"))
on_detail_id_task host req (some i) =
    with_request_task host i "DB error: " (show_request_task host req i)

-- `submit_handler` behind its checks.
unfoldable pub on_inserted_task : Host → Submission → (email : Text) → DbResult Uuid → Task Response
on_inserted_task host s email (err e) = done (submit_error (insert_failure e))
on_inserted_task host s email (ok i) = do
  atom (
      append_audit_event host.server (some i) (codes "submitted") email
        (some (submit_details s (query_hash host s.query_text))))
  run_preview_task host i s.query_text s.target_kind s.target_db s.target_topology email

unfoldable pub submission_task : Host → Submission → (email : Text) → Task Response
submission_task host s email = do
  inserted ← atom (
      insert_request host.server s.query_text (query_hash host s.query_text) s.target_kind
        s.target_db s.target_topology email)
  on_inserted_task host s email inserted

unfoldable pub on_checked_task :
    Host → Submission → (email : Text) → Result (Unit {0}) Text → Answering
on_checked_task host s email (err message) = answer (submit_error message)
on_checked_task host s email (ok _) = on_pool_task host.has_pool (submission_task host s email)

unfoldable pub submit_task : Host → Request → Answering
submit_task host req = on_user_task req.authenticated_user λ user.
    on_checked_task host (submission req) user.email (check_submission host (submission req))

-- The handlers that move a request.
unfoldable pub request_approval_task : Host → (email : Text) → Uuid → Db.Request → Task Response
request_approval_task host email i r =
    if is_previewed r.status
    then (do
      atom (update_status host.server i pending_approval)
      atom (append_audit_event host.server (some i) (codes "requested_approval") email none)
      done (approval_requested (host.show_uuid i)))
    else done (wrong_status (codes "request approval for request") r.status)

unfoldable pub reload_task : Host → Task Response
reload_task host = do
  listed ← atom (list_requests host.server (some (codes "pending_approval")) 50 0)
  atom (on_reload host listed)

unfoldable pub store_approval_task : Host → (email : Text) → Uuid → Time → Task Response
store_approval_task host email i expires = do
  atom (insert_approval host.server i email approve (some expires))
  atom (update_status host.server i approved)
  atom (
      append_audit_event host.server (some i) (codes "approved") email
        (some (approval_details (approval_ttl host) expires)))
  reload_task host

-- The clock is read in an act of its own.
unfoldable pub approve_task : Host → (email : Text) → Uuid → Db.Request → Task Response
approve_task host email i r =
    if text_eq r.requester_email email
    then done (submit_error (codes "You cannot approve your own request"))
    else if is_pending r.status
    then (do
      now ← atom (λ w. (host.system_time w.calls, w))
      store_approval_task host email i (expiry now (approval_ttl host)))
    else done (wrong_status (codes "approve request") r.status)

unfoldable pub store_rejection_task : Host → (email : Text) → Uuid → Task Response
store_rejection_task host email i = do
  atom (insert_approval host.server i email reject none)
  atom (update_status host.server i rejected)
  atom (append_audit_event host.server (some i) (codes "rejected") email none)
  reload_task host

unfoldable pub reject_task : Host → (email : Text) → Uuid → Db.Request → Task Response
reject_task host email i r =
    if text_eq r.requester_email email
    then done (submit_error (codes "You cannot reject your own request"))
    else if is_pending r.status
    then store_rejection_task host email i
    else done (wrong_status (codes "reject request") r.status)

abbrev pub ask_task : Host → Text → Uuid → Task Response
ask_task host email i =
    with_request_task host i "Database error: " (request_approval_task host email i)

abbrev pub expire_and_approve_task : Host → Text → Uuid → Task Response
expire_and_approve_task host email i = do
  atom (expire_stale_approvals host.server)
  with_request_task host i "Database error: " (approve_task host email i)

abbrev pub refuse_task : Host → Text → Uuid → Task Response
refuse_task host email i = with_request_task host i "Database error: " (reject_task host email i)

abbrev pub expire_and_execute_task : Host → Text → Uuid → Task Response
expire_and_execute_task host email i = do
  atom (expire_stale_approvals host.server)
  run_execute_task host i email
