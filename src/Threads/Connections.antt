-- ===== src/Threads/Connections.antt =====
-- `handle_connection` of src/main.rs as a task.
use sqlgate.Prelude.{Bool, Option, none, some, [], if◌then◌else◌, Result, ok, err}
use sqlgate.Text.{Text, Bytes, codes, strip_prefix}
use sqlgate.Map
use sqlgate.Map.{Map, or_default}
use sqlgate.Host.{Host}
use sqlgate.Auth.{AuthenticatedUser, is_public_path}
use sqlgate.Http.Request.{Request, ParseError, Stream, parse}
use sqlgate.Http.Response.{Response, not_found, write}
use sqlgate.Http.Router.{route}
use sqlgate.Server.Handlers.{submit_form_handler, health_handler, root_handler}
use sqlgate.Server.Connection.{
  Handler, root, health, submit_form, approvals, history, detail, submit, request_approval, approve,
  reject, execute, routes, static_response, identity, parse_failure, or_500,
}
use sqlgate.Threads.{Task, done, atom, ◌>>=◌}
use sqlgate.Threads.Handlers.{
  Answering, answer, on_pool_task, for_request_task, approvals_list_task, history_list_task,
  on_detail_id_task, submit_task, ask_task, expire_and_approve_task, refuse_task,
  expire_and_execute_task,
}

unfoldable pub handler_task : Host → Handler → Request → Answering
handler_task host root req = atom (root_handler req)
handler_task host health req = atom (health_handler req)
handler_task host submit_form req = atom (submit_form_handler req)
handler_task host approvals req = on_pool_task host.has_pool (approvals_list_task host req)
handler_task host history req = on_pool_task host.has_pool (history_list_task host req)
handler_task host detail req =
    on_pool_task host.has_pool (
      on_detail_id_task host req
        (host.parse_uuid (or_default [] (Map.get (codes "id") req.params))))
handler_task host submit req = submit_task host req
handler_task host request_approval req = for_request_task host req (ask_task host)
handler_task host approve req = for_request_task host req (expire_and_approve_task host)
handler_task host reject req = for_request_task host req (refuse_task host)
handler_task host execute req = for_request_task host req (expire_and_execute_task host)

abbrev pub on_route_task : Host → Request → Option (Handler × Map) → Answering
on_route_task host req none = answer not_found
on_route_task host req (some (h, params)) = handler_task host h (record req { params = params })

abbrev pub on_static_task : Host → Request → Option Text → Answering
on_static_task host req none =
    on_route_task host req (route host.tables (routes host.has_pool) req.method req.path)
on_static_task host req (some file) = answer (static_response host req.method file)

unfoldable pub dispatch_task : Host → Request → Answering
dispatch_task host req = on_static_task host req (strip_prefix req.path (codes "/static/"))

abbrev pub on_identity_task : Host → Request → Result AuthenticatedUser Response → Answering
on_identity_task host req (err response) = answer response
on_identity_task host req (ok user) =
    dispatch_task host (record req { authenticated_user = some user })

unfoldable pub answer_task : Host → Request → Answering
answer_task host req =
    if is_public_path req.path
    then dispatch_task host req
    else on_identity_task host req (identity host req)

abbrev pub on_parsed_task : Host → Result Request ParseError → Task Bytes
on_parsed_task host (err e) = done (write (parse_failure e))
on_parsed_task host (ok req) = do response ← answer_task host req; done (write (or_500 response))

-- The thread of a connection.
unfoldable pub connection_task : Host → (can_time : Bool) → Stream → Task Bytes
connection_task host can_time stream = on_parsed_task host (parse host.tables can_time stream)
