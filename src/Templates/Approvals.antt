-- ===== src/Templates/Approvals.antt =====
-- The markup of the approvals list of src/templates.rs.
use sqlgate.Prelude.{[], ◌∷◌}
use sqlgate.Text.{Text}
use sqlgate.Templates.Markup.{markup}

unfoldable pub approvals_empty : Text
approvals_empty = markup (
    "<div class=\"max-w-4xl mx-auto mt-20 text-center\">\n"
    ∷ "    <p class=\"text-ink-muted\">No pending approvals.</p>\n"
    ∷ "    <a href=\"/submit\" class=\"inline-block mt-4 text-rust hover:underline text-sm\"\n"
    ∷ "       hx-get=\"/submit\" hx-target=\"#content\" hx-swap=\"innerHTML\">\n"
    ∷ "        Submit a query\n" ∷ "    </a>\n" ∷ "</div>" ∷ [])

unfoldable pub approvals_open : Text
approvals_open = markup (
    "<div class=\"max-w-4xl mx-auto\">\n"
    ∷ "    <h2 class=\"text-xl font-bold text-rust mb-4\">Pending Approvals</h2>\n"
    ∷ "    <div class=\"space-y-4\">\n" ∷ [])

unfoldable pub card_requester : Text
card_requester = markup (
    "        <div class=\"border border-parchment-darker rounded p-4 bg-parchment\">\n"
    ∷ "            <div class=\"flex items-start justify-between mb-2\">\n"
    ∷ "                <div>\n"
    ∷ "                    <span class=\"text-xs text-ink-muted\">Requester:</span>\n"
    ∷ "                    <span class=\"text-sm text-ink font-medium ml-1\">" ∷ [])

unfoldable pub card_target : Text
card_target = markup (
    "</span>\n" ∷ "                    <span class=\"text-xs text-ink-muted ml-4\">Target:</span>\n"
    ∷ "                    <span class=\"text-sm text-ink ml-1\">" ∷ [])

unfoldable pub card_topology : Text
card_topology = markup (" (" ∷ [])

unfoldable pub card_time : Text
card_time = markup (
    ")</span>\n" ∷ "                </div>\n"
    ∷ "                <span class=\"text-xs text-ink-muted\">" ∷ [])

unfoldable pub card_query : Text
card_query = markup (
    "</span>\n" ∷ "            </div>\n"
    ∷ "            <pre class=\"bg-parchment-darker rounded p-2 text-xs font-mono text-ink mb-3 overflow-x-auto\">"
    ∷ [])

unfoldable pub card_approve : Text
card_approve = markup (
    "</pre>\n" ∷ "            <div class=\"flex gap-2\">\n"
    ∷ "                <button class=\"bg-emerald-700 text-parchment px-3 py-1 rounded text-xs font-medium hover:bg-emerald-800\"\n"
    ∷ "                        hx-post=\"/approve\" hx-vals='{\"request_id\": \"" ∷ [])

unfoldable pub card_reject : Text
card_reject = markup (
    "\"}' hx-target=\"#content\">\n" ∷ "                    Approve\n"
    ∷ "                </button>\n"
    ∷ "                <button class=\"border border-rust text-rust px-3 py-1 rounded text-xs font-medium hover:bg-rust hover:text-parchment\"\n"
    ∷ "                        hx-post=\"/reject\" hx-vals='{\"request_id\": \"" ∷ [])

unfoldable pub card_end : Text
card_end = markup (
    "\"}' hx-target=\"#content\">\n" ∷ "                    Reject\n"
    ∷ "                </button>\n" ∷ "            </div>\n" ∷ "        </div>\n" ∷ [])

unfoldable pub approvals_close : Text
approvals_close = markup ("    </div>\n" ∷ "</div>" ∷ [])
