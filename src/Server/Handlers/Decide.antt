-- ===== src/Server/Handlers/Decide.antt =====
-- The handlers of src/main.rs that move a request through the approval workflow.
pub mod Outcomes
pub mod Once
pub mod Approving
use sqlgate.Prelude.{
  ℕ, ◌+◌, ◌*◌, ◌/◌, ◌^◌, Bool, true, false, Option, none, some, List, [], ◌∷◌, ◌++◌, ltb,
  if◌then◌else◌, pos, ok, err,
}
use sqlgate.Text.{Text, codes, text_eq}
use sqlgate.Text.Number.{parse_u64}
use sqlgate.Json.{Json, number, string, object, end, field}
use sqlgate.Db.{
  Uuid, Time, Status, submitted, previewed, pending_approval, approved, rejected, executed, expired,
  status_text, Decision, approve, reject, Request, DbResult, Exec, pure, ◌>>=◌, ◌>>◌,
}
use sqlgate.Db.Requests.{list_requests, update_status}
use sqlgate.Db.Approvals.{insert_approval, expire_stale_approvals}
use sqlgate.Db.Audit.{append_audit_event}
use sqlgate.Host.{Host}
use sqlgate.Fetch.{failure, with_request}
use sqlgate.Http.Response.{Response}
use sqlgate.Http.Request
use sqlgate.Templates.{debug_time, submit_error, approvals_list, approval_requested}
use sqlgate.Execute.Engine.{run_execute_pipeline}
use sqlgate.Server.Handlers.{Handled, for_request}

abbrev pub is_previewed : Status → Bool
is_previewed previewed = true
is_previewed _ = false

abbrev pub is_pending : Status → Bool
is_pending pending_approval = true
is_pending _ = false

abbrev pub wrong_status : Text → Status → Response
wrong_status what status =
    submit_error
      (codes "Cannot " ++ (what ++ (codes " in status '" ++ (status_text status ++ codes "'"))))

-- The updated list that ends an approval or a rejection.
unfoldable pub on_reload : Host → DbResult (List Request) → Exec Response
on_reload host (ok rows) = pure (approvals_list host rows)
on_reload host (err e) = pure (failure "Failed to reload: " e)

unfoldable pub reload : Host → Exec Response
reload host = do
  listed ← list_requests host.server (some (codes "pending_approval")) 50 0
  on_reload host listed

unfoldable pub request_approval : Host → (email : Text) → Uuid → Request → Exec Response
request_approval host email i r =
    if is_previewed r.status
    then (do
      update_status host.server i pending_approval
      append_audit_event host.server (some i) (codes "requested_approval") email none
      pure (approval_requested (host.show_uuid i)))
    else pure (wrong_status (codes "request approval for request") r.status)

-- The time to live in seconds, 900 where the variable is not set or is no number.
unfoldable pub approval_ttl : Host → ℕ
approval_ttl host = elim (host.var (codes "APPROVAL_TTL_SECONDS")) [
  | none ↦ 900
  | some s ↦ elim (parse_u64 s) [ none ↦ 900 | some n ↦ n ]
]

-- `checked_add` on a `SystemTime` of signed 64-bit seconds, or the epoch.
unfoldable pub expiry : Time → (ttl : ℕ) → Time
expiry now ttl = let t = now + ttl * 10 ^ 9 in if ltb (t / 10 ^ 9) (2 ^ 63) then t else 0

abbrev pub approval_details : ℕ → Time → Json
approval_details ttl expires = object (
    field (codes "ttl_seconds") (number (pos ttl))
      (field (codes "expires_at") (string (debug_time expires)) end))

-- Behind the checks of an approval.
unfoldable pub store_approval : Host → (email : Text) → Uuid → Time → Exec Response
store_approval host email i expires = do
  insert_approval host.server i email approve (some expires)
  update_status host.server i approved
  append_audit_event host.server (some i) (codes "approved") email
      (some (approval_details (approval_ttl host) expires))
  reload host

unfoldable pub approve_request : Host → (email : Text) → Uuid → Request → Exec Response
approve_request host email i r w =
    if text_eq r.requester_email email
    then (submit_error (codes "You cannot approve your own request"), w)
    else if is_pending r.status
    then store_approval host email i (expiry (host.system_time w.calls) (approval_ttl host)) w
    else (wrong_status (codes "approve request") r.status, w)

-- Behind the checks of a rejection.
unfoldable pub store_rejection : Host → (email : Text) → Uuid → Exec Response
store_rejection host email i = do
  insert_approval host.server i email reject none
  update_status host.server i rejected
  append_audit_event host.server (some i) (codes "rejected") email none
  reload host

unfoldable pub reject_request : Host → (email : Text) → Uuid → Request → Exec Response
reject_request host email i r =
    if text_eq r.requester_email email
    then pure (submit_error (codes "You cannot reject your own request"))
    else if is_pending r.status
    then store_rejection host email i
    else pure (wrong_status (codes "reject request") r.status)

unfoldable pub request_approval_handler : Host → Request.Request → Handled
request_approval_handler host req =
    for_request host req
      λ email i. with_request host i "Database error: " (request_approval host email i)

abbrev pub expire_and_approve : Host → Text → Uuid → Exec Response
expire_and_approve host email i = do
  expire_stale_approvals host.server
  with_request host i "Database error: " (approve_request host email i)

unfoldable pub approve_handler : Host → Request.Request → Handled
approve_handler host req = for_request host req (expire_and_approve host)

unfoldable pub reject_handler : Host → Request.Request → Handled
reject_handler host req =
    for_request host req
      λ email i. with_request host i "Database error: " (reject_request host email i)

abbrev pub expire_and_execute : Host → Text → Uuid → Exec Response
expire_and_execute host email i = do
  expire_stale_approvals host.server
  run_execute_pipeline host i email

unfoldable pub execute_handler : Host → Request.Request → Handled
execute_handler host req = for_request host req (expire_and_execute host)
