-- ===== src/Threads/Safe/Connections.antt =====
-- The thread of a connection is safe, whatever the connection delivers.
use sqlgate.Prelude.{[], refl, inl, inr, Bool, Option, none, some, Bool-cases, Result, ok, err}
use sqlgate.Text.{Text, codes, strip_prefix}
use sqlgate.Map
use sqlgate.Map.{Map, or_default}
use sqlgate.Host.{Host}
use sqlgate.Auth.{AuthenticatedUser, is_public_path}
use sqlgate.Http.Request.{Request, ParseError, Stream, parse}
use sqlgate.Http.Response.{Response, write}
use sqlgate.Http.Router.{route}
use sqlgate.Server.Handlers.{root_handler, health_handler, submit_form_handler}
use sqlgate.Server.Connection.{
  Handler, root, health, submit_form, approvals, history, detail, submit, request_approval, approve,
  reject, execute, routes, identity, or_500,
}
use sqlgate.Threads.{done}
use sqlgate.Threads.Handlers.{
  approvals_list_task, history_list_task, on_detail_id_task, ask_task, expire_and_approve_task,
  refuse_task, expire_and_execute_task,
}
use sqlgate.Threads.Connections.{
  handler_task, on_route_task, on_static_task, dispatch_task, on_identity_task, answer_task,
  on_parsed_task, connection_task,
}
use sqlgate.Threads.History.{History, stay}
use sqlgate.Threads.Safe.{Safe, Safe-bind}
use sqlgate.Threads.Safe.Handlers.{
  Safe-on_pool, Safe-for_request, Safe-approvals_list, Safe-history_list, Safe-on_detail_id,
  Safe-submit,
}
use sqlgate.Threads.Safe.Decisions.{
  Safe-ask, Safe-expire_and_approve, Safe-refuse, Safe-expire_and_execute,
}

module _ (host : Host) where
  Safe-handler : (h : History) (k : Handler) (req : Request) → Safe host h (handler_task host k req)
  unfolding handler_task root_handler health_handler submit_form_handler
  Safe-handler h root req = λ g f. (stay refl refl, tt)
  Safe-handler h health req = λ g f. (stay refl refl, tt)
  Safe-handler h submit_form req = λ g f. (stay refl refl, tt)
  Safe-handler h approvals req =
      Safe-on_pool host h host.has_pool (approvals_list_task host req)
        (Safe-approvals_list host h req)
  Safe-handler h history req =
      Safe-on_pool host h host.has_pool (history_list_task host req) (Safe-history_list host h req)
  Safe-handler h detail req =
      let o = host.parse_uuid (or_default [] (Map.get (codes "id") req.params)) in
      Safe-on_pool host h host.has_pool (on_detail_id_task host req o)
        (Safe-on_detail_id host h req o)
  Safe-handler h submit req = Safe-submit host h req
  Safe-handler h request_approval req =
      Safe-for_request host h req (ask_task host) (λ email i. Safe-ask host email i h)
  Safe-handler h approve req =
      Safe-for_request host h req (expire_and_approve_task host)
        (λ email i. Safe-expire_and_approve host email i h)
  Safe-handler h reject req =
      Safe-for_request host h req (refuse_task host) (λ email i. Safe-refuse host email i h)
  Safe-handler h execute req =
      Safe-for_request host h req (expire_and_execute_task host)
        (λ email i. Safe-expire_and_execute host email i h)

  Safe-on_route :
      (h : History) (req : Request) (o : Option (Handler × Map))
      → Safe host h (on_route_task host req o)
  Safe-on_route h req none = tt
  Safe-on_route h req (some (k, params)) = Safe-handler h k (record req { params = params })

  Safe-on_static :
      (h : History) (req : Request) (o : Option Text) → Safe host h (on_static_task host req o)
  Safe-on_static h req none =
      Safe-on_route h req (route host.tables (routes host.has_pool) req.method req.path)
  Safe-on_static h req (some file) = tt

  Safe-dispatch : (h : History) (req : Request) → Safe host h (dispatch_task host req)
  unfolding dispatch_task
  Safe-dispatch h req = Safe-on_static h req (strip_prefix req.path (codes "/static/"))

  Safe-on_identity :
      (h : History) (req : Request) (o : Result AuthenticatedUser Response)
      → Safe host h (on_identity_task host req o)
  Safe-on_identity h req (err response) = tt
  Safe-on_identity h req (ok user) = Safe-dispatch h (record req { authenticated_user = some user })

  Safe-answer : (h : History) (req : Request) → Safe host h (answer_task host req)
  unfolding answer_task
  Safe-answer h req = elim (Bool-cases (is_public_path req.path)) [
    | inl public ↦ rw (public, answer_task) (Safe-dispatch h req)
    | inr private ↦ rw (private, answer_task) (Safe-on_identity h req (identity host req))
  ]

  Safe-on_parsed :
      (h : History) (o : Result Request ParseError) → Safe host h (on_parsed_task host o)
  Safe-on_parsed h (err e) = tt
  Safe-on_parsed h (ok req) =
      Safe-bind host (answer_task host req) (λ r. done (write (or_500 r))) h (Safe-answer h req)
        (λ g a f. tt)

  pub Safe-connection :
      (h : History) (can_time : Bool) (s : Stream) → Safe host h (connection_task host can_time s)
  unfolding connection_task
  Safe-connection h can_time s = Safe-on_parsed h (parse host.tables can_time s)
