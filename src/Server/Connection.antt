-- ===== src/Server/Connection.antt =====
-- `main` and `handle_connection` of src/main.rs: the routes, authentication, and the one response
-- that a connection is given.
pub mod Guarded
use Prim.Native.String.{String}
use sqlgate.Prelude.{
  Bool, true, false, ◌||◌, Option, none, some, [], ◌∷◌, if◌then◌else◌, Result, ok, err,
}
use sqlgate.Text.{Text, Bytes, codes, text_eq, strip_prefix}
use sqlgate.Map.{Map, or_default}
use sqlgate.Db.{World, Exec}
use sqlgate.Host.{Host}
use sqlgate.Auth.{AuthenticatedUser, authenticate, is_public_path}
use sqlgate.Http.Response.{Response, internal_error, bad_request, not_implemented, not_found, write}
use sqlgate.Http.Request.{
  Request, ParseError, read_timeout, malformed_request_line, unsupported_version,
  chunked_not_supported, content_length_mismatch, too_large, Stream, parse,
}
use sqlgate.Http.Router.{Method, get, post, Route, Router, route}
use sqlgate.StaticFiles.{serve}
use sqlgate.Server.Handlers.{
  Handled, reply, submit_form_handler, health_handler, root_handler, approvals_list_handler,
  history_list_handler, request_detail_handler,
}
use sqlgate.Server.Handlers.Submit.{submit_handler}
use sqlgate.Server.Handlers.Decide.{
  request_approval_handler, approve_handler, reject_handler, execute_handler,
}

-- The handlers by name: a handler is a function pointer in the source.
pub data Handler : Type 0 where
  root health submit_form approvals history detail : Handler
  submit request_approval approve reject execute : Handler

unfoldable pub run_handler : Host → Handler → Request → Handled
run_handler host root = root_handler
run_handler host health = health_handler
run_handler host submit_form = submit_form_handler
run_handler host approvals = approvals_list_handler host
run_handler host history = history_list_handler host
run_handler host detail = request_detail_handler host
run_handler host submit = submit_handler host
run_handler host request_approval = request_approval_handler host
run_handler host approve = approve_handler host
run_handler host reject = reject_handler host
run_handler host execute = execute_handler host

abbrev pub entry : Method → String → Handler → Route Handler
entry m pattern h = record { method = m; pattern = codes pattern; handler = h }

-- The routes in the order in which `main` adds them; those that change state need a database.
abbrev pub state_routes : Router Handler
state_routes =
    entry post "/submit" submit
    ∷ entry post "/request-approval" request_approval
    ∷ entry post "/approve" approve
    ∷ entry post "/reject" reject
    ∷ entry post "/execute" execute
    ∷ []

unfoldable pub routes : (has_db : Bool) → Router Handler
routes has_db =
    entry get "/" root
    ∷ entry get "/health" health
    ∷ entry get "/submit" submit_form
    ∷ entry get "/approvals" approvals
    ∷ entry get "/history" history
    ∷ entry get "/requests/:id" detail
    ∷ (if has_db then state_routes else [])

-- The handler that a request is routed to, with the parameters put into the request.
abbrev pub on_route : Host → Request → Option (Handler × Map) → Handled
on_route host req none = reply not_found
on_route host req (some (h, params)) = run_handler host h (record req { params = params })

unfoldable pub call_handler : Host → Request → Handled
call_handler host req =
    on_route host req (route host.tables (routes host.has_pool) req.method req.path)

unfoldable pub static_response : Host → (method file : Text) → Response
static_response host method file =
    if text_eq method (codes "GET") || text_eq method (codes "HEAD")
    then serve host file
    else bad_request (codes "method not allowed on static files")

abbrev pub on_static : Host → Request → Option Text → Handled
on_static host req none = call_handler host req
on_static host req (some file) = reply (static_response host req.method file)

-- `/static/` is served before the router is asked.
unfoldable pub dispatch : Host → Request → Handled
dispatch host req = on_static host req (strip_prefix req.path (codes "/static/"))

abbrev pub secret_header : Host → Text
secret_header host =
    or_default (codes "X-CF-Tunnel-Secret") (host.var (codes "CF_TUNNEL_SECRET_HEADER"))

abbrev pub secret_value : Host → Text
secret_value host = or_default [] (host.var (codes "CF_TUNNEL_SECRET_VALUE"))

abbrev pub on_identity : Host → Request → Result AuthenticatedUser Response → Handled
on_identity host req (err response) = reply response
on_identity host req (ok user) = dispatch host (record req { authenticated_user = some user })

abbrev pub identity : Host → Request → Result AuthenticatedUser Response
identity host req = authenticate host.tables req.headers (secret_header host) (secret_value host)

-- The check of identity, which public paths pass without one.
unfoldable pub answer_request : Host → Request → Handled
answer_request host req =
    if is_public_path req.path then dispatch host req else on_identity host req (identity host req)

unfoldable pub parse_failure : ParseError → Response
parse_failure read_timeout = bad_request (codes "request read timeout")
parse_failure chunked_not_supported =
    not_implemented (codes "chunked transfer-encoding not supported")
parse_failure (unsupported_version _) = bad_request (codes "unsupported HTTP version")
parse_failure (content_length_mismatch _ _) = bad_request (codes "Content-Length mismatch")
parse_failure too_large = bad_request (codes "request too large")
parse_failure (malformed_request_line _) = bad_request (codes "malformed request")

-- What `catch_unwind` makes of a panic.
abbrev pub or_500 : Option Response → Response
or_500 none = internal_error (codes "internal server error")
or_500 (some r) = r

abbrev pub on_parsed : Host → Result Request ParseError → Exec Bytes
on_parsed host (err e) w = (write (parse_failure e), w)
on_parsed host (ok req) w =
    let (response, w') = answer_request host req w in (write (or_500 response), w')

unfoldable pub handle_connection : Host → (can_time : Bool) → Stream → Exec Bytes
handle_connection host can_time stream = on_parsed host (parse host.tables can_time stream)
