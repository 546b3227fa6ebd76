-- ===== src/Templates/Messages.antt =====
-- The markup of the short fragments of src/templates.rs, between their placeholders.
use sqlgate.Prelude.{[], ◌∷◌}
use sqlgate.Text.{Text}
use sqlgate.Templates.Markup.{markup}

unfoldable pub success_before : Text
success_before = markup (
    "<div class=\"max-w-2xl mx-auto text-center mt-20\">\n"
    ∷ "    <div class=\"text-5xl mb-4 text-emerald-600\">&#10003;</div>\n"
    ∷ "    <h2 class=\"text-xl font-bold text-ink mb-2\">Query Submitted</h2>\n"
    ∷ "    <p class=\"text-ink-muted mb-4\">\n"
    ∷ "        Your query has been submitted for preview. Request ID:\n"
    ∷ "        <code class=\"bg-parchment-darker px-2 py-0.5 rounded text-sm font-mono\">" ∷ [])

unfoldable pub success_after : Text
success_after = markup (
    "</code>\n" ∷ "    </p>\n" ∷ "    <p class=\"text-ink-muted text-sm\">\n"
    ∷ "        The preview engine will run it against a read-only role and return results shortly.\n"
    ∷ "    </p>\n"
    ∷ "    <a href=\"/submit\" class=\"inline-block mt-6 text-rust hover:underline text-sm\"\n"
    ∷ "       hx-get=\"/submit\" hx-target=\"#content\" hx-swap=\"innerHTML\">\n"
    ∷ "        Submit another query\n" ∷ "    </a>\n" ∷ "</div>" ∷ [])

unfoldable pub error_before : Text
error_before = markup (
    "<div id=\"submit-error\" class=\"mt-4 p-3 bg-red-100 border border-red-300 text-red-800 rounded text-sm\" hx-swap-oob=\"true\">\n"
    ∷ "    <p>" ∷ [])

unfoldable pub error_after : Text
error_after = markup ("</p>\n" ∷ "</div>" ∷ [])

unfoldable pub requested_before : Text
requested_before = markup (
    "<div class=\"max-w-2xl mx-auto text-center mt-20\">\n"
    ∷ "    <div class=\"text-5xl mb-4 text-emerald-600\">&#10003;</div>\n"
    ∷ "    <h2 class=\"text-xl font-bold text-ink mb-2\">Approval Requested</h2>\n"
    ∷ "    <p class=\"text-ink-muted mb-4\">\n"
    ∷ "        Request <code class=\"bg-parchment-darker px-2 py-0.5 rounded text-sm font-mono\">"
    ∷ [])

unfoldable pub requested_after : Text
requested_after = markup (
    "</code>\n" ∷ "        is now pending approval.\n" ∷ "    </p>\n"
    ∷ "    <a href=\"/approvals\" class=\"inline-block mt-4 text-rust hover:underline text-sm\"\n"
    ∷ "       hx-get=\"/approvals\" hx-target=\"#content\" hx-swap=\"innerHTML\">\n"
    ∷ "        View pending approvals\n" ∷ "    </a>\n" ∷ "</div>" ∷ [])

unfoldable pub swap_before : Text
swap_before = markup ("<div id=\"" ∷ [])

unfoldable pub swap_between : Text
swap_between = markup ("\" hx-swap-oob=\"true\">" ∷ [])

unfoldable pub swap_after : Text
swap_after = markup ("</div>" ∷ [])
