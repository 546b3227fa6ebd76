-- ===== src/Workflow/Reading.antt =====
-- The handlers of src/main.rs that only read the requests, as sequences of admitted changes, and the
-- tests that stand in front of every handler.
use sqlgate.Prelude.{Bool, true, false, Option, none, some, List, ok, err}
use sqlgate.Text.{Text, codes}
use sqlgate.Db
use sqlgate.Db.{
  Uuid, Time, Status, submitted, previewed, pending_approval, approved, rejected, approve, reject,
  DbError, DbResult, World, Exec, find, AuditEvent,
}
use sqlgate.Host.{Host}
use sqlgate.Auth.{AuthenticatedUser}
use sqlgate.Http.Response.{Response}
use sqlgate.Http.Request.{Request}
use sqlgate.Server.Handlers.{
  Handled, with_pool, with_request_id, form_value, for_request, on_pool, on_user, on_request_id,
  on_detail_id, on_events, show_request, on_approvals, on_history, approvals_list_handler,
  history_list_handler, request_detail_handler,
}
use sqlgate.Server.Handlers.Decide.{on_reload, reload}
use sqlgate.Workflow.{Steps, here, next, Steps-one, Steps-append}
use sqlgate.Workflow.Calls.{
  list_requests-Change, list_audit_events-Change, expire_stale_approvals-Change,
}
use sqlgate.Workflow.Pipelines.{with_request-Steps}

module _ (host : Host) where
  -- The tests in front of a handler add no change.
  pub on_pool-Steps :
      (b : Bool) (m : Exec Response) (w : World)
      → Steps host w (m w).1
      → Steps host w (on_pool b m w).1
  on_pool-Steps true m w h = h
  on_pool-Steps false m w h = here

  pub on_user-Steps :
      (o : Option AuthenticatedUser) (k : AuthenticatedUser → Handled) (w : World)
      → ((u : AuthenticatedUser) → Steps host w (k u w).1)
      → Steps host w (on_user o k w).1
  on_user-Steps none k w h = here
  on_user-Steps (some u) k w h = h u

  on_request_id-Steps :
      (o : Option Uuid) (k : Uuid → Handled) (w : World)
      → ((i : Uuid) → Steps host w (k i w).1)
      → Steps host w (on_request_id o k w).1
  on_request_id-Steps none k w h = here
  on_request_id-Steps (some i) k w h = h i

  pub for_request-Steps :
      (req : Request) (k : Text → Uuid → Exec Response)
      → ((email : Text) (i : Uuid) (v : World) → Steps host v (k email i v).1)
      → (w : World) → Steps host w (for_request host req k w).1
  for_request-Steps req k h w =
      on_user-Steps req.authenticated_user
        (λ user. with_request_id host req λ i. with_pool host (k user.email i)) w
        λ user.
          on_request_id-Steps (host.parse_uuid (form_value req "request_id" ""))
            (λ i. with_pool host (k user.email i)) w
            λ i. on_pool-Steps host.has_pool (k user.email i) w (h user.email i w)

  -- The handlers that only read.
  on_approvals-Steps :
      (req : Request) (o : DbResult (List Db.Request)) (w : World)
      → Steps host w (on_approvals host req o w).1
  unfolding on_approvals
  on_approvals-Steps req (ok rows) w = here
  on_approvals-Steps req (err e) w = here

  on_history-Steps :
      (req : Request) (o : DbResult (List Db.Request)) (w : World)
      → Steps host w (on_history host req o w).1
  unfolding on_history
  on_history-Steps req (ok rows) w = here
  on_history-Steps req (err e) w = here

  on_events-Steps :
      (req : Request) (r : Db.Request) (o : DbResult (List AuditEvent)) (w : World)
      → Steps host w (on_events host req r o w).1
  unfolding on_events
  on_events-Steps req r (ok rows) w = here
  on_events-Steps req r (err e) w = here

  on_reload-Steps :
      (o : DbResult (List Db.Request)) (w : World) → Steps host w (on_reload host o w).1
  unfolding on_reload
  on_reload-Steps (ok rows) w = here
  on_reload-Steps (err e) w = here

  pub reload-Steps : (w : World) → Steps host w (reload host w).1
  unfolding reload
  reload-Steps w =
      Steps-append host
        (Steps-one host (list_requests-Change host w (some (codes "pending_approval")) 50 0))
        (on_reload-Steps _ _)

  pub approvals_list_handler-Steps :
      (req : Request) (w : World) → Steps host w (approvals_list_handler host req w).1
  unfolding approvals_list_handler
  approvals_list_handler-Steps req w = on_pool-Steps host.has_pool _ w (
      Steps-append host
        (next (Steps-one host (expire_stale_approvals-Change host w))
          (list_requests-Change host _ (some (codes "pending_approval")) 50 0))
        (on_approvals-Steps req _ _))

  pub history_list_handler-Steps :
      (req : Request) (w : World) → Steps host w (history_list_handler host req w).1
  unfolding history_list_handler
  history_list_handler-Steps req w = on_pool-Steps host.has_pool _ w (
      Steps-append host (Steps-one host (list_requests-Change host w _ 100 0))
        (on_history-Steps req _ _))

  show_request-Steps :
      (req : Request) (i : Uuid) (r : Db.Request) (w : World)
      → Steps host w (show_request host req i r w).1
  unfolding show_request
  show_request-Steps req i r w =
      Steps-append host (Steps-one host (list_audit_events-Change host w i))
        (on_events-Steps req r _ _)

  on_detail_id-Steps :
      (req : Request) (o : Option Uuid) (w : World) → Steps host w (on_detail_id host req o w).1
  on_detail_id-Steps req none w = here
  on_detail_id-Steps req (some i) w =
      with_request-Steps host i "DB error: " (show_request host req i) w
        λ v r found. show_request-Steps req i r v

  pub request_detail_handler-Steps :
      (req : Request) (w : World) → Steps host w (request_detail_handler host req w).1
  unfolding request_detail_handler
  request_detail_handler-Steps req w = on_pool-Steps host.has_pool _ w (on_detail_id-Steps req _ w)
