-- ===== src/Templates/Table.antt =====
-- The markup of the preview table of src/templates.rs.
use sqlgate.Prelude.{[], ◌∷◌}
use sqlgate.Text.{Text}
use sqlgate.Templates.Markup.{markup}

unfoldable pub preview_open : Text
preview_open = markup (
    "<div class=\"max-w-4xl mx-auto\" id=\"preview-results\">\n"
    ∷ "    <div class=\"flex items-center justify-between mb-4\">\n"
    ∷ "        <h2 class=\"text-xl font-bold text-rust\">Query Preview</h2>\n"
    ∷ "        <div class=\"flex gap-2 text-xs\">\n"
    ∷ "            <span class=\"bg-parchment-darker px-2 py-1 rounded text-ink-muted\">" ∷ [])

unfoldable pub preview_rows : Text
preview_rows = markup (
    "</span>\n"
    ∷ "            <span class=\"bg-parchment-darker px-2 py-1 rounded text-ink-muted\">" ∷ [])

unfoldable pub preview_topology : Text
preview_topology = markup (
    "</span>\n"
    ∷ "            <span class=\"bg-parchment-darker px-2 py-1 rounded text-ink-muted\">" ∷ [])

unfoldable pub preview_head : Text
preview_head = markup (
    "</span>\n" ∷ "        </div>\n" ∷ "    </div>\n"
    ∷ "    <div class=\"overflow-x-auto border border-parchment-darker rounded\">\n"
    ∷ "        <table class=\"w-full text-sm\">\n" ∷ "            <thead>\n"
    ∷ "                <tr class=\"bg-parchment-dark\">" ∷ [])

unfoldable pub column_open : Text
column_open = markup (
    "<th class=\"px-3 py-2 text-left font-medium text-ink-muted border-b border-parchment-darker\">"
    ∷ [])

unfoldable pub column_close : Text
column_close = markup ("</th>" ∷ [])

unfoldable pub preview_body : Text
preview_body = markup ("</tr>\n" ∷ "            </thead>\n" ∷ "            <tbody>" ∷ [])

unfoldable pub row_open : Text
row_open =
    markup ("<tr class=\"border-b border-parchment-darker hover:bg-parchment-dark/50\">" ∷ [])

unfoldable pub null_cell : Text
null_cell = markup ("<span class=\"text-ink-muted italic\">NULL</span>" ∷ [])

unfoldable pub cell_open : Text
cell_open = markup ("<td class=\"px-3 py-1.5 text-ink font-mono text-xs\">" ∷ [])

unfoldable pub cell_close : Text
cell_close = markup ("</td>" ∷ [])

unfoldable pub row_close : Text
row_close = markup ("</tr>" ∷ [])

unfoldable pub preview_button : Text
preview_button = markup (
    "</tbody>\n" ∷ "        </table>\n" ∷ "    </div>\n" ∷ "    <div class=\"mt-4 flex gap-3\">\n"
    ∷ "        <button class=\"bg-emerald-700 text-parchment px-4 py-2 rounded text-sm font-medium hover:bg-emerald-800\"\n"
    ∷ "                hx-post=\"/request-approval\" hx-vals='{\"request_id\": \"" ∷ [])

unfoldable pub preview_close : Text
preview_close = markup (
    "\"}' hx-target=\"#content\">\n" ∷ "            Request Approval\n" ∷ "        </button>\n"
    ∷ "        <a href=\"/submit\" class=\"inline-block text-ink-muted hover:text-ink text-sm py-2\"\n"
    ∷ "           hx-get=\"/submit\" hx-target=\"#content\" hx-swap=\"innerHTML\">\n"
    ∷ "            Submit another query\n" ∷ "        </a>\n" ∷ "    </div>\n" ∷ "</div>" ∷ [])
