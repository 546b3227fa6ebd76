-- ===== src/Templates/Detail.antt =====
-- The markup of the request detail of src/templates.rs.
use sqlgate.Prelude.{[], ◌∷◌}
use sqlgate.Text.{Text}
use sqlgate.Templates.Markup.{markup}

unfoldable pub detail_id : Text
detail_id = markup (
    "<div class=\"max-w-4xl mx-auto\" id=\"request-detail\">\n"
    ∷ "    <div class=\"flex items-center justify-between mb-4\">\n"
    ∷ "        <h2 class=\"text-xl font-bold text-rust\">Request Detail</h2>\n"
    ∷ "        <a href=\"/history\" class=\"text-ink-muted hover:text-rust text-sm\"\n"
    ∷ "           hx-get=\"/history\" hx-target=\"#content\" hx-swap=\"innerHTML\">Back to History</a>\n"
    ∷ "    </div>\n" ∷ "\n"
    ∷ "    <div class=\"border border-parchment-darker rounded p-4 mb-4 bg-parchment\">\n"
    ∷ "        <div class=\"grid grid-cols-2 gap-2 text-sm\">\n"
    ∷ "            <div><span class=\"text-ink-muted\">ID:</span> <code class=\"font-mono text-xs\">"
    ∷ [])

unfoldable pub detail_status : Text
detail_status =
    markup
      ("</code></div>\n" ∷ "            <div><span class=\"text-ink-muted\">Status:</span> " ∷ [])

unfoldable pub detail_requester : Text
detail_requester =
    markup ("</div>\n" ∷ "            <div><span class=\"text-ink-muted\">Requester:</span> " ∷ [])

unfoldable pub detail_target : Text
detail_target =
    markup ("</div>\n" ∷ "            <div><span class=\"text-ink-muted\">Target:</span> " ∷ [])

unfoldable pub detail_topology : Text
detail_topology = markup (" (" ∷ [])

unfoldable pub detail_query : Text
detail_query = markup (
    ")</div>\n" ∷ "        </div>\n"
    ∷ "        <div class=\"flex items-start justify-between mt-3\">\n"
    ∷ "            <pre class=\"bg-parchment-darker rounded p-2 text-xs font-mono text-ink overflow-x-auto flex-1\">"
    ∷ [])

unfoldable pub detail_timeline : Text
detail_timeline = markup (
    "</pre>\n"
    ∷ "            <button class=\"ml-2 px-2 py-1 text-xs border border-parchment-darker rounded text-ink-muted hover:text-rust hover:border-rust shrink-0\"\n"
    ∷ "                    x-data @click=\"navigator.clipboard.writeText($el.previousElementSibling.textContent); $el.textContent='Copied!'; setTimeout(()=>$el.textContent='Copy',1500)\">\n"
    ∷ "                Copy\n" ∷ "            </button>\n" ∷ "        </div>\n" ∷ "    </div>\n"
    ∷ "\n" ∷ "    <h3 class=\"text-lg font-bold text-ink mb-2\">Audit Timeline</h3>\n"
    ∷ "    <div class=\"space-y-2\">\n" ∷ [])

unfoldable pub event_time : Text
event_time = markup (
    "<div class=\"flex items-start gap-3 border-l-2 border-rust pl-3 py-1\">\n"
    ∷ "            <span class=\"text-xs text-ink-muted font-mono w-32 shrink-0\">" ∷ [])

unfoldable pub event_type : Text
event_type =
    markup (
      "</span>\n" ∷ "            <span class=\"text-xs font-medium text-rust w-28 shrink-0\">" ∷ [])

unfoldable pub event_actor : Text
event_actor = markup ("</span>\n" ∷ "            <span class=\"text-xs text-ink\">" ∷ [])

unfoldable pub event_end : Text
event_end = markup ("</span>\n" ∷ "        </div>\n" ∷ [])

unfoldable pub detail_close : Text
detail_close = markup ("    </div>\n" ∷ "</div>" ∷ [])
