-- ===== src/Workflow/Connections.antt =====
-- A connection, and a sequence of connections that are served one after another, as sequences of
-- admitted changes.
use sqlgate.Prelude.{
  inl, inr, Bool, true, Option, none, some, List, [], ◌∷◌, Bool-cases, Result, ok, err,
}
use sqlgate.Text.{Text, codes, strip_prefix}
use sqlgate.Map.{Map}
use sqlgate.Db.{World}
use sqlgate.Host.{Host}
use sqlgate.Auth.{AuthenticatedUser, is_public_path}
use sqlgate.Http.Request.{Request, ParseError, Stream, parse}
use sqlgate.Http.Response.{Response}
use sqlgate.Http.Router.{route}
use sqlgate.Server.Connection.{
  Handler, root, health, submit_form, approvals, history, detail, submit, request_approval, approve,
  reject, execute, run_handler, routes, on_route, call_handler, on_static, dispatch, on_identity,
  identity, answer_request, on_parsed, handle_connection,
}
use sqlgate.Server.Handlers.{root_handler, health_handler, submit_form_handler}
use sqlgate.Workflow.{Steps, here, Steps-append}
use sqlgate.Workflow.Reading.{
  approvals_list_handler-Steps, history_list_handler-Steps, request_detail_handler-Steps,
}
use sqlgate.Workflow.Submitting.{submit_handler-Steps}
use sqlgate.Workflow.Deciding.{
  request_approval_handler-Steps, approve_handler-Steps, reject_handler-Steps,
  execute_handler-Steps,
}

-- Connections served one after another, each as the bytes that it delivers.
unfoldable pub serve_all : Host → World → List Stream → World
serve_all host w [] = w
serve_all host w (s ∷ ss) = serve_all host (handle_connection host true s w).1 ss

module _ (host : Host) where
  pub run_handler-Steps :
      (h : Handler) (req : Request) (w : World) → Steps host w (run_handler host h req w).1
  unfolding run_handler root_handler health_handler submit_form_handler
  run_handler-Steps root req w = here
  run_handler-Steps health req w = here
  run_handler-Steps submit_form req w = here
  run_handler-Steps approvals req w = approvals_list_handler-Steps host req w
  run_handler-Steps history req w = history_list_handler-Steps host req w
  run_handler-Steps detail req w = request_detail_handler-Steps host req w
  run_handler-Steps submit req w = submit_handler-Steps host req w
  run_handler-Steps request_approval req w = request_approval_handler-Steps host req w
  run_handler-Steps approve req w = approve_handler-Steps host req w
  run_handler-Steps reject req w = reject_handler-Steps host req w
  run_handler-Steps execute req w = execute_handler-Steps host req w

  on_route-Steps :
      (req : Request) (o : Option (Handler × Map)) (w : World)
      → Steps host w (on_route host req o w).1
  on_route-Steps req none w = here
  on_route-Steps req (some (h, params)) w = run_handler-Steps h (record req { params = params }) w

  on_static-Steps :
      (req : Request) (o : Option Text) (w : World) → Steps host w (on_static host req o w).1
  unfolding call_handler
  on_static-Steps req none w =
      on_route-Steps req (route host.tables (routes host.has_pool) req.method req.path) w
  on_static-Steps req (some file) w = here

  dispatch-Steps : (req : Request) (w : World) → Steps host w (dispatch host req w).1
  unfolding dispatch
  dispatch-Steps req w = on_static-Steps req (strip_prefix req.path (codes "/static/")) w

  on_identity-Steps :
      (req : Request) (o : Result AuthenticatedUser Response) (w : World)
      → Steps host w (on_identity host req o w).1
  on_identity-Steps req (err response) w = here
  on_identity-Steps req (ok user) w =
      dispatch-Steps (record req { authenticated_user = some user }) w

  answer_request-Steps : (req : Request) (w : World) → Steps host w (answer_request host req w).1
  unfolding answer_request
  answer_request-Steps req w = elim (Bool-cases (is_public_path req.path)) [
    | inl public ↦ rw (public, answer_request) (dispatch-Steps req w)
    | inr private ↦ rw (private, answer_request) (on_identity-Steps req (identity host req) w)
  ]

  on_parsed-Steps :
      (o : Result Request ParseError) (w : World) → Steps host w (on_parsed host o w).1
  on_parsed-Steps (err e) w = here
  on_parsed-Steps (ok req) w = answer_request-Steps req w

  -- Whatever bytes a connection delivers, and whatever the database and the targets answer, serving
  -- it is a sequence of changes that the step relation admits.
  pub handle_connection-Steps :
      (can_time : Bool) (s : Stream) (w : World)
      → Steps host w (handle_connection host can_time s w).1
  unfolding handle_connection
  handle_connection-Steps can_time s w = on_parsed-Steps (parse host.tables can_time s) w

  -- So is serving connections one after another.
  pub serve_all-Steps : (w : World) (ss : List Stream) → Steps host w (serve_all host w ss)
  unfolding serve_all
  serve_all-Steps w [] = here
  serve_all-Steps w (s ∷ ss) =
      Steps-append host (handle_connection-Steps true s w)
        (serve_all-Steps (handle_connection host true s w).1 ss)
