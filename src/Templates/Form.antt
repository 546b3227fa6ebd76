-- ===== src/Templates/Form.antt =====
-- The submission form of src/templates.rs, in two parts.
use sqlgate.Prelude.{[], ◌∷◌}
use sqlgate.Text.{Text}
use sqlgate.Templates.Markup.{markup}

unfoldable pub form_top : Text
form_top = markup (
    "<div class=\"max-w-2xl mx-auto\">\n"
    ∷ "    <h2 class=\"text-xl font-bold text-rust mb-4\">Submit Query for Preview</h2>\n"
    ∷ "    <form id=\"submit-form\" hx-post=\"/submit\" hx-target=\"#content\" hx-swap=\"innerHTML\"\n"
    ∷ "          class=\"space-y-4\">\n" ∷ "        <div>\n"
    ∷ "            <label for=\"query\" class=\"block text-sm font-medium text-ink-muted mb-1\">\n"
    ∷ "                SQL Query\n" ∷ "            </label>\n"
    ∷ "            <textarea id=\"query\" name=\"query\" rows=\"8\" required\n"
    ∷ "                placeholder=\"SELECT * FROM ...\"\n"
    ∷ "                class=\"w-full border border-parchment-darker rounded px-3 py-2 bg-parchment font-mono text-sm\n"
    ∷ "                       focus:outline-none focus:border-rust focus:ring-1 focus:ring-rust\"\n"
    ∷ "                x-data\n"
    ∷ "                x-init=\"$el.style.height = 'auto'; $el.style.height = $el.scrollHeight + 'px'\"\n"
    ∷ "                @input=\"$el.style.height = 'auto'; $el.style.height = $el.scrollHeight + 'px'\"></textarea>\n"
    ∷ "            <p class=\"text-xs text-ink-muted mt-1\">\n"
    ∷ "                Only <code class=\"bg-parchment-darker px-1 rounded\">SELECT</code> queries (or\n"
    ∷ "                <code class=\"bg-parchment-darker px-1 rounded\">WITH</code> CTEs) are allowed.\n"
    ∷ "                Stacked queries (<code class=\"bg-parchment-darker px-1 rounded\">;</code>) are rejected.\n"
    ∷ "            </p>\n" ∷ "        </div>\n" ∷ "        <div class=\"grid grid-cols-3 gap-4\">\n"
    ∷ "            <div>\n"
    ∷ "                <label for=\"target_kind\" class=\"block text-sm font-medium text-ink-muted mb-1\">\n"
    ∷ "                    Target\n" ∷ "                </label>\n"
    ∷ "                <select id=\"target_kind\" name=\"target_kind\" required\n"
    ∷ "                    class=\"w-full border border-parchment-darker rounded px-3 py-2 bg-parchment text-sm\n"
    ∷ "                           focus:outline-none focus:border-rust focus:ring-1 focus:ring-rust\">\n"
    ∷ "                    <option value=\"postgres\">PostgreSQL</option>\n"
    ∷ "                    <option value=\"mysql\">MySQL</option>\n" ∷ "                </select>\n"
    ∷ "            </div>\n" ∷ "            <div>\n"
    ∷ "                <label for=\"target_db\" class=\"block text-sm font-medium text-ink-muted mb-1\">\n"
    ∷ [])

unfoldable pub form_bottom : Text
form_bottom = markup (
    "                    Database\n" ∷ "                </label>\n"
    ∷ "                <input type=\"text\" id=\"target_db\" name=\"target_db\" required\n"
    ∷ "                    placeholder=\"mydb\"\n"
    ∷ "                    class=\"w-full border border-parchment-darker rounded px-3 py-2 bg-parchment text-sm\n"
    ∷ "                           focus:outline-none focus:border-rust focus:ring-1 focus:ring-rust\">\n"
    ∷ "            </div>\n" ∷ "            <div>\n"
    ∷ "                <label class=\"block text-sm font-medium text-ink-muted mb-1\">\n"
    ∷ "                    Topology\n" ∷ "                </label>\n"
    ∷ "                <div class=\"flex items-center gap-3 pt-2\">\n"
    ∷ "                    <label class=\"inline-flex items-center gap-1 cursor-pointer\">\n"
    ∷ "                        <input type=\"radio\" name=\"target_topology\" value=\"primary\" checked\n"
    ∷ "                            class=\"accent-rust\">\n"
    ∷ "                        <span class=\"text-sm text-ink\">Primary</span>\n"
    ∷ "                    </label>\n"
    ∷ "                    <label class=\"inline-flex items-center gap-1 cursor-pointer\">\n"
    ∷ "                        <input type=\"radio\" name=\"target_topology\" value=\"replica\"\n"
    ∷ "                            class=\"accent-rust\">\n"
    ∷ "                        <span class=\"text-sm text-ink\">Replica</span>\n"
    ∷ "                    </label>\n" ∷ "                </div>\n" ∷ "            </div>\n"
    ∷ "        </div>\n" ∷ "        <div>\n" ∷ "            <button type=\"submit\"\n"
    ∷ "                class=\"bg-rust text-parchment font-medium px-6 py-2 rounded\n"
    ∷ "                       hover:bg-rust/90 active:bg-rust/80 transition-colors\">\n"
    ∷ "                Submit for Preview\n" ∷ "            </button>\n"
    ∷ "            <span id=\"submit-spinner\" class=\"htmx-indicator ml-3 text-ink-muted text-sm\">\n"
    ∷ "                Running preview…\n" ∷ "            </span>\n" ∷ "        </div>\n" ∷ "</div>"
    ∷ [])
