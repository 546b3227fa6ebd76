-- ===== src/Templates/History.antt =====
-- The markup of the history list of src/templates.rs.
use sqlgate.Prelude.{[], ◌∷◌}
use sqlgate.Text.{Text}
use sqlgate.Templates.Markup.{markup}

unfoldable pub history_empty : Text
history_empty = markup (
    "<div class=\"max-w-4xl mx-auto mt-20 text-center\">\n"
    ∷ "    <p class=\"text-ink-muted\">No requests found.</p>\n" ∷ "</div>" ∷ [])

unfoldable pub history_open : Text
history_open = markup (
    "<div class=\"max-w-4xl mx-auto\">\n"
    ∷ "    <h2 class=\"text-xl font-bold text-rust mb-4\">Query History</h2>\n"
    ∷ "    <div class=\"overflow-x-auto border border-parchment-darker rounded\">\n"
    ∷ "        <table class=\"w-full text-sm\">\n" ∷ "            <thead>\n"
    ∷ "                <tr class=\"bg-parchment-dark\">\n"
    ∷ "                    <th class=\"px-3 py-2 text-left font-medium text-ink-muted border-b border-parchment-darker\">ID</th>\n"
    ∷ "                    <th class=\"px-3 py-2 text-left font-medium text-ink-muted border-b border-parchment-darker\">Requester</th>\n"
    ∷ "                    <th class=\"px-3 py-2 text-left font-medium text-ink-muted border-b border-parchment-darker\">Target</th>\n"
    ∷ "                    <th class=\"px-3 py-2 text-left font-medium text-ink-muted border-b border-parchment-darker\">Status</th>\n"
    ∷ "                </tr>\n" ∷ "            </thead>\n" ∷ "            <tbody>\n" ∷ [])

unfoldable pub row_link : Text
row_link = markup (
    "<tr class=\"border-b border-parchment-darker hover:bg-parchment-dark/50 cursor-pointer\"\n"
    ∷ "                    hx-get=\"/requests/" ∷ [])

unfoldable pub row_id : Text
row_id = markup (
    "\" hx-target=\"#content\" hx-swap=\"innerHTML\">\n"
    ∷ "                    <td class=\"px-3 py-2 text-ink font-mono text-xs\">" ∷ [])

unfoldable pub row_requester : Text
row_requester = markup ("</td>\n" ∷ "                    <td class=\"px-3 py-2 text-ink\">" ∷ [])

unfoldable pub row_target : Text
row_target = markup ("</td>\n" ∷ "                    <td class=\"px-3 py-2 text-ink\">" ∷ [])

unfoldable pub row_topology : Text
row_topology = markup (" (" ∷ [])

unfoldable pub row_status : Text
row_status = markup (")</td>\n" ∷ "                    <td class=\"px-3 py-2\">" ∷ [])

unfoldable pub row_end : Text
row_end = markup ("</td>\n" ∷ "                </tr>\n" ∷ [])

unfoldable pub history_close : Text
history_close =
    markup ("            </tbody>\n" ∷ "        </table>\n" ∷ "    </div>\n" ∷ "</div>" ∷ [])
