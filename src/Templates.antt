-- ===== src/Templates.antt =====
-- src/templates.rs: the functions that build pages and fragments. Their markup stands in the
-- private children, between the places where values are put in.
mod Markup
mod Layout
mod Form
mod Messages
mod Approvals
mod History
mod Detail
mod Table
pub mod Replace
pub mod Escaping
unfoldable pub use Markup.{concat, markup}
use Layout.{layout}
use Form.{form_top, form_bottom}
use Messages.{
  success_before, success_after, error_before, error_after, requested_before, requested_after,
  swap_before, swap_between, swap_after,
}
use Approvals.{
  approvals_empty, approvals_open, card_requester, card_target, card_topology, card_time,
  card_query, card_approve, card_reject, card_end, approvals_close,
}
use History.{
  history_empty, history_open, row_link, row_id, row_requester, row_target, row_topology,
  row_status, row_end, history_close,
}
use Detail.{
  detail_id, detail_status, detail_requester, detail_target, detail_topology, detail_query,
  detail_timeline, event_time, event_type, event_actor, event_end, detail_close,
}
use Table.{
  preview_open, preview_rows, preview_topology, preview_head, column_open, column_close,
  preview_body, row_open, null_cell, cell_open, cell_close, row_close, preview_button,
  preview_close,
}
use sqlgate.Prelude.{
  ℕ, ◌/◌, ◌%◌, ◌^◌, Bool, true, false, Option, none, some, List, [], ◌∷◌, ◌++◌, ℤ, pos, negsuc, suc,
  ◌==◌, if◌then◌else◌, map, take,
}
use sqlgate.Text.{Text, codes, text_eq}
use sqlgate.Text.Number.{decimal}
use sqlgate.Json.{Json, null, bool, number, float, string, array, object}
use sqlgate.Db.{
  Uuid, Time, Status, submitted, previewed, pending_approval, approved, rejected, executed, expired,
  status_text, Request, AuditEvent,
}
use sqlgate.Host.{Host}
use sqlgate.Http.Response.{Response, ok_html}
use sqlgate.Templates.Replace.{replace}

-- Whether a request asks for a fragment: its header `hx-request`.
abbrev pub is_htmx : Option Text → Bool
is_htmx none = false
is_htmx (some v) = text_eq v (codes "true")

unfoldable pub fill_layout : (content title : Text) → Text
unfolding replace layout
fill_layout content title =
    replace (codes "{{content}}") content (replace (codes "{{title}}") title layout)

-- The request enters by its header `hx-request`, all that the function reads of it.
unfoldable pub render_page : Option Text → (content title : Text) → Response
unfolding fill_layout ok_html
render_page hx_request content title =
    if is_htmx hx_request then ok_html content else ok_html (fill_layout content title)

unfoldable pub oob_swap : (id inner : Text) → Text
unfolding swap_before swap_between swap_after
oob_swap id inner = concat (swap_before ∷ id ∷ swap_between ∷ inner ∷ swap_after ∷ [])

unfoldable pub status_badge_class : Status → Text
status_badge_class submitted =
    codes "bg-amber/20 text-amber px-2 py-0.5 rounded text-xs font-medium"
status_badge_class previewed =
    codes "bg-blue-100 text-blue-800 px-2 py-0.5 rounded text-xs font-medium"
status_badge_class pending_approval =
    codes "bg-amber/20 text-amber px-2 py-0.5 rounded text-xs font-medium"
status_badge_class approved =
    codes "bg-emerald-100 text-emerald-800 px-2 py-0.5 rounded text-xs font-medium"
status_badge_class rejected =
    codes "bg-red-100 text-red-800 px-2 py-0.5 rounded text-xs font-medium"
status_badge_class executed =
    codes "bg-purple-100 text-purple-800 px-2 py-0.5 rounded text-xs font-medium"
status_badge_class expired =
    codes "bg-gray-200 text-gray-600 px-2 py-0.5 rounded text-xs font-medium"

abbrev badge_label : Status → Text
badge_label pending_approval = codes "pending"
badge_label other = status_text other

unfoldable pub status_badge : Status → Text
unfolding status_badge_class status_text
status_badge status = concat (
    codes "<span class=\""
    ∷ status_badge_class status
    ∷ codes "\">"
    ∷ badge_label status
    ∷ codes "</span>"
    ∷ [])

unfoldable pub submit_form : Response
unfolding form_top form_bottom ok_html
submit_form = ok_html (form_top ++ form_bottom)

unfoldable pub submit_success : Text → Response
unfolding success_before success_after ok_html
submit_success request_id = ok_html (success_before ++ (request_id ++ success_after))

unfoldable pub submit_error : Text → Response
unfolding error_before error_after ok_html
submit_error message = ok_html (error_before ++ (message ++ error_after))

unfoldable pub approval_requested : Text → Response
unfolding requested_before requested_after ok_html
approval_requested request_id = ok_html (requested_before ++ (request_id ++ requested_after))

unfoldable pub html_escape : Text → Text
unfolding replace
html_escape s = replace (codes "\"") (codes "&quot;") (
    replace (codes ">") (codes "&gt;")
      (replace (codes "<") (codes "&lt;") (replace (codes "&") (codes "&amp;") s)))

-- `to_string` of an integer.
abbrev show_int : ℤ → Text
show_int (pos n) = decimal n
show_int (negsuc n) = b'-' ∷ decimal (suc n)

unfoldable pub cell_html : Host → Json → Text
unfolding html_escape decimal
cell_html host null = null_cell
cell_html host (string s) = html_escape s
cell_html host (number n) = show_int n
cell_html host (float f) = f
cell_html host (bool true) = codes "true"
cell_html host (bool false) = codes "false"
cell_html host (array xs) = host.show_json (array xs)
cell_html host (object fs) = host.show_json (object fs)

unfoldable pub row_html : Host → List Json → Text
unfolding cell_html
row_html host row =
    row_open ++ (concat (map (λ c. cell_open ++ (cell_html host c ++ cell_close)) row) ++ row_close)

-- The preview's JSON enters by its columns and rows.
unfoldable pub preview_result :
    Host → Text → List Text → List (List Json) → (row_count duration_ms : ℕ) → Text → Response
unfolding row_html decimal ok_html
preview_result host request_id columns rows row_count duration_ms topology = ok_html (
    concat (
      preview_open
      ∷ decimal duration_ms
      ∷ codes "ms"
      ∷ preview_rows
      ∷ decimal row_count
      ∷ codes " row"
      ∷ (if row_count == 1 then [] else codes "s")
      ∷ preview_topology
      ∷ topology
      ∷ preview_head
      ∷ concat (map (λ c. column_open ++ (c ++ column_close)) columns)
      ∷ preview_body
      ∷ concat (map (row_html host) rows)
      ∷ preview_button
      ∷ request_id
      ∷ preview_close
      ∷ []))

unfoldable pub approval_card : Host → Request → Text
approval_card host r = concat (
    card_requester
    ∷ r.requester_email
    ∷ card_target
    ∷ r.target_db
    ∷ card_topology
    ∷ r.target_topology
    ∷ card_time
    ∷ host.show_uuid r.id
    ∷ card_query
    ∷ r.query_text
    ∷ card_approve
    ∷ host.show_uuid r.id
    ∷ card_reject
    ∷ host.show_uuid r.id
    ∷ card_end
    ∷ [])

unfoldable pub approvals_list : Host → List Request → Response
unfolding approval_card ok_html
approvals_list host [] = ok_html approvals_empty
approvals_list host (r ∷ rs) =
    ok_html (approvals_open ++ (concat (map (approval_card host) (r ∷ rs)) ++ approvals_close))

unfoldable pub history_row : Host → Request → Text
unfolding status_badge
history_row host r = concat (
    row_link
    ∷ host.show_uuid r.id
    ∷ row_id
    ∷ take 8 (host.show_uuid r.id)
    ∷ row_requester
    ∷ r.requester_email
    ∷ row_target
    ∷ r.target_db
    ∷ row_topology
    ∷ r.target_topology
    ∷ row_status
    ∷ status_badge r.status
    ∷ row_end
    ∷ [])

unfoldable pub history_list : Host → List Request → Response
unfolding history_row ok_html
history_list host [] = ok_html history_empty
history_list host (r ∷ rs) =
    ok_html (history_open ++ (concat (map (history_row host) (r ∷ rs)) ++ history_close))

-- `format!("{:?}", …)` of a `SystemTime` after 1970 on Unix, cut to 19 bytes.
unfoldable pub debug_time : Time → Text
unfolding decimal
debug_time t =
    codes "SystemTime { tv_sec: "
    ++ (decimal (t / 10 ^ 9) ++ (codes ", tv_nsec: " ++ (decimal (t % 10 ^ 9) ++ codes " }")))

unfoldable pub event_html : AuditEvent → Text
unfolding debug_time
event_html e = concat (
    event_time
    ∷ take 19 (debug_time e.created_at)
    ∷ event_type
    ∷ e.event_type
    ∷ event_actor
    ∷ e.actor_email
    ∷ event_end
    ∷ [])

unfoldable pub request_detail : Host → Request → List AuditEvent → Response
unfolding status_badge event_html ok_html
request_detail host r events = ok_html (
    concat (
      detail_id
      ∷ host.show_uuid r.id
      ∷ detail_status
      ∷ status_badge r.status
      ∷ detail_requester
      ∷ r.requester_email
      ∷ detail_target
      ∷ r.target_db
      ∷ detail_topology
      ∷ r.target_topology
      ∷ detail_query
      ∷ r.query_text
      ∷ detail_timeline
      ∷ concat (map event_html events)
      ∷ detail_close
      ∷ []))
