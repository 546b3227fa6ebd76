-- ===== src/Server/Handlers.antt =====
-- The handlers of src/main.rs that only read, and what all handlers share.
pub mod Submit
pub mod Decide
pub mod Bodies
use Prim.Native.String.{String}
use sqlgate.Prelude.{
  Bool, true, false, Option, none, some, List, [], ◌∷◌, ◌++◌, if◌then◌else◌, ok, err,
}
use sqlgate.Text.{Text, codes}
use sqlgate.Text.Utf8.{from_utf8_lossy}
use sqlgate.Map
use sqlgate.Map.{or_default}
use sqlgate.Db
use sqlgate.Db.{Uuid, AuditEvent, DbResult, Exec, pure, ◌>>=◌, ◌>>◌}
use sqlgate.Db.Requests.{list_requests}
use sqlgate.Db.Audit.{list_audit_events}
use sqlgate.Db.Approvals.{expire_stale_approvals}
use sqlgate.Host.{Host}
use sqlgate.Auth.{AuthenticatedUser}
use sqlgate.Fetch.{failure, with_request}
use sqlgate.Http.Response.{Response, ok_text, bad_request}
use sqlgate.Http.Request.{Request, parse_form}
use sqlgate.Templates.{
  markup, render_page, submit_form, submit_error, approvals_list, history_list, request_detail,
}

-- A handler's result; `none` is a panic.
abbrev pub Handled : Type 0
Handled = Exec (Option Response)

abbrev pub reply : Response → Handled
reply r = pure (some r)

-- `DB_POOL.get()…expect(…)`: without a pool the handler panics.
abbrev pub on_pool : Bool → Exec Response → Handled
on_pool true m = do r ← m; reply r
on_pool false m = pure none

abbrev pub with_pool : Host → Exec Response → Handled
with_pool host m = on_pool host.has_pool m

abbrev pub on_user : Option AuthenticatedUser → (AuthenticatedUser → Handled) → Handled
on_user none k = reply (bad_request (codes "authentication required"))
on_user (some user) k = k user

abbrev pub with_user : Request → (AuthenticatedUser → Handled) → Handled
with_user req k = on_user req.authenticated_user k

-- A value of the form, or a default.
abbrev pub form_value : Request → String → String → Text
form_value req key default = or_default (codes default) (Map.get (codes key) (parse_form req))

abbrev pub on_request_id : Option Uuid → (Uuid → Handled) → Handled
on_request_id none k = reply (submit_error (codes "Invalid request ID"))
on_request_id (some i) k = k i

-- The form's `request_id`, as the handlers that change a request read it.
abbrev pub with_request_id : Host → Request → (Uuid → Handled) → Handled
with_request_id host req k = on_request_id (host.parse_uuid (form_value req "request_id" "")) k

-- How the four decision handlers begin: a user, an identifier in the form, the pool.
abbrev pub for_request : Host → Request → (Text → Uuid → Exec Response) → Handled
for_request host req k =
    with_user req λ user. with_request_id host req λ i. with_pool host (k user.email i)

abbrev hx_request : Request → Option Text
hx_request req = Map.get (codes "hx-request") req.headers

unfoldable pub extract_body : Response → Text
extract_body r = from_utf8_lossy r.body

abbrev page : Request → Response → String → Response
page req fragment title = render_page (hx_request req) (extract_body fragment) (codes title)

unfoldable pub submit_form_handler : Request → Handled
submit_form_handler req = reply (page req submit_form "Submit Query")

unfoldable pub health_handler : Request → Handled
health_handler req = reply (ok_text (codes "ok\n"))

abbrev root_content : Text
root_content = markup (
    "<div class=\"max-w-2xl mx-auto text-center mt-20\">\n"
    ∷ "    <h1 class=\"text-3xl font-bold text-rust mb-4\">sqlgate</h1>\n"
    ∷ "    <p class=\"text-ink-muted mb-8\">SQL query preview &amp; approval gateway</p>\n"
    ∷ "    <div class=\"flex gap-4 justify-center\">\n"
    ∷ "        <a href=\"/submit\" class=\"bg-rust text-parchment px-6 py-2 rounded font-medium hover:bg-rust-dark no-underline\">Submit Query</a>\n"
    ∷ "        <a href=\"/approvals\" class=\"border border-rust text-rust px-6 py-2 rounded font-medium hover:bg-rust hover:text-parchment no-underline\">Approve</a>\n"
    ∷ "    </div>\n" ∷ "</div>" ∷ [])

unfoldable pub root_handler : Request → Handled
root_handler req = reply (render_page (hx_request req) root_content (codes "sqlgate"))

unfoldable pub on_approvals : Host → Request → DbResult (List Db.Request) → Exec Response
on_approvals host req (ok rows) = pure (page req (approvals_list host rows) "Pending Approvals")
on_approvals host req (err e) = pure (failure "Failed to load approvals: " e)

unfoldable pub approvals_list_handler : Host → Request → Handled
approvals_list_handler host req = with_pool host do
  expire_stale_approvals host.server
  listed ← list_requests host.server (some (codes "pending_approval")) 50 0
  on_approvals host req listed

unfoldable pub on_history : Host → Request → DbResult (List Db.Request) → Exec Response
on_history host req (ok rows) = pure (page req (history_list host rows) "Query History")
on_history host req (err e) = pure (failure "Failed: " e)

unfoldable pub history_list_handler : Host → Request → Handled
history_list_handler host req = with_pool host do
  listed ← list_requests host.server (Map.get (codes "status") req.query) 100 0
  on_history host req listed

unfoldable pub on_events : Host → Request → Db.Request → DbResult (List AuditEvent) → Exec Response
on_events host req r (err e) = pure (failure "DB error: " e)
on_events host req r (ok events) = pure (page req (request_detail host r events) "Request Detail")

unfoldable pub show_request : Host → Request → Uuid → Db.Request → Exec Response
show_request host req i r = do listed ← list_audit_events host.server i; on_events host req r listed

abbrev pub on_detail_id : Host → Request → Option Uuid → Exec Response
on_detail_id host req none = pure (submit_error (codes "Invalid request ID"))
on_detail_id host req (some i) = with_request host i "DB error: " (show_request host req i)

unfoldable pub request_detail_handler : Host → Request → Handled
request_detail_handler host req =
    with_pool host
      (on_detail_id host req (host.parse_uuid (or_default [] (Map.get (codes "id") req.params))))
