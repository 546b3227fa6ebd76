-- ===== src/Threads/Alone.antt =====
-- A thread that nobody interrupts does what the model of Server/Connection says.
pub mod Bind
pub mod Pipelines
pub mod Handlers
use sqlgate.Prelude.{
  ◌≡◌, refl, ◌∙◌, Bool, true, false, Option, none, some, [], Bool-cases, inl, inr, Result, ok, err,
}
use sqlgate.Text.{Text, Bytes, codes, strip_prefix}
use sqlgate.Map
use sqlgate.Map.{Map, or_default}
use sqlgate.Db.{World}
use sqlgate.Host.{Host}
use sqlgate.Auth.{AuthenticatedUser, is_public_path}
use sqlgate.Http.Request.{Request, ParseError, Stream, parse}
use sqlgate.Http.Response.{Response}
use sqlgate.Http.Router.{route}
use sqlgate.Server.Handlers.{approvals_list_handler, history_list_handler, request_detail_handler}
use sqlgate.Server.Handlers.Decide.{
  request_approval_handler, approve_handler, reject_handler, execute_handler, expire_and_approve,
  expire_and_execute,
}
use sqlgate.Server.Connection.{
  Handler, root, health, submit_form, approvals, history, detail, submit, request_approval, approve,
  reject, execute, run_handler, routes, call_handler, on_route, on_static, dispatch, identity,
  on_identity, answer_request, on_parsed, handle_connection,
}
use sqlgate.Threads.{alone}
use sqlgate.Threads.Alone.Bind.{alone-bind}
use sqlgate.Threads.Alone.Pipelines.{alone-with_request}
use sqlgate.Threads.Alone.Handlers.{
  alone-on_pool, alone-for_request, alone-on_detail_id, alone-submit, alone-request_approval,
  alone-reject, alone-expire_and_approve, alone-expire_and_execute,
}
use sqlgate.Threads.Connections.{
  handler_task, on_route_task, on_static_task, dispatch_task, on_identity_task, answer_task,
  on_parsed_task, connection_task,
}

module _ (host : Host) where
  alone-handler :
      (h : Handler) (req : Request) (w : World)
      → alone (handler_task host h req) w ≡ run_handler host h req w
  unfolding handler_task run_handler approvals_list_handler history_list_handler
      request_detail_handler request_approval_handler approve_handler reject_handler execute_handler
  alone-handler root req w = refl
  alone-handler health req w = refl
  alone-handler submit_form req w = refl
  alone-handler approvals req w = alone-on_pool host host.has_pool _ _ w refl
  alone-handler history req w = alone-on_pool host host.has_pool _ _ w refl
  alone-handler detail req w = alone-on_pool host host.has_pool _ _ w (
      alone-on_detail_id host req
        (host.parse_uuid (or_default [] (Map.get (codes "id") req.params))) w)
  alone-handler submit req w = alone-submit host req w
  alone-handler request_approval req w = alone-for_request host req _ _ w λ email i.
      alone-with_request host i "Database error: " _ _ w (alone-request_approval host email i)
  alone-handler approve req w =
      alone-for_request host req _ _ w λ email i. alone-expire_and_approve host email i w
  alone-handler reject req w =
      alone-for_request host req _ _ w
        λ email i. alone-with_request host i "Database error: " _ _ w (alone-reject host email i)
  alone-handler execute req w =
      alone-for_request host req _ _ w λ email i. alone-expire_and_execute host email i w

  alone-on_route :
      (req : Request) (o : Option (Handler × Map)) (w : World)
      → alone (on_route_task host req o) w ≡ on_route host req o w
  alone-on_route req none w = refl
  alone-on_route req (some (h, params)) w = alone-handler h (record req { params = params }) w

  alone-on_static :
      (req : Request) (o : Option Text) (w : World)
      → alone (on_static_task host req o) w ≡ on_static host req o w
  unfolding call_handler
  alone-on_static req none w =
      alone-on_route req (route host.tables (routes host.has_pool) req.method req.path) w
  alone-on_static req (some file) w = refl

  alone-dispatch :
      (req : Request) (w : World) → alone (dispatch_task host req) w ≡ dispatch host req w
  unfolding dispatch_task dispatch
  alone-dispatch req w = alone-on_static req (strip_prefix req.path (codes "/static/")) w

  alone-on_identity :
      (req : Request) (o : Result AuthenticatedUser Response) (w : World)
      → alone (on_identity_task host req o) w ≡ on_identity host req o w
  alone-on_identity req (err response) w = refl
  alone-on_identity req (ok user) w =
      alone-dispatch (record req { authenticated_user = some user }) w

  alone-answer :
      (req : Request) (w : World) → alone (answer_task host req) w ≡ answer_request host req w
  unfolding answer_task answer_request
  alone-answer req w = elim (Bool-cases (is_public_path req.path)) [
    | inl public ↦ rw (answer_task, answer_request, public) (alone-dispatch req w)
    | inr private ↦
        rw (answer_task, answer_request, private) (alone-on_identity req (identity host req) w)
  ]

  alone-on_parsed :
      (o : Result Request ParseError) (w : World)
      → alone (on_parsed_task host o) w ≡ on_parsed host o w
  alone-on_parsed (err e) w = refl
  alone-on_parsed (ok req) w = alone-bind (answer_task host req) _ w ∙ rw (alone-answer req w) refl

  -- A thread that no other one interrupts does to the world what `handle_connection` does, and its
  -- answer is the same.
  alone-connection :
      (can_time : Bool) (s : Stream) (w : World)
      → alone (connection_task host can_time s) w ≡ handle_connection host can_time s w
  unfolding connection_task handle_connection
  alone-connection can_time s w = alone-on_parsed (parse host.tables can_time s) w
