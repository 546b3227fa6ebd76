-- ===== src/Templates/Layout.antt =====
-- The layout of src/templates.rs, with its two placeholders.
use sqlgate.Prelude.{[], ◌∷◌}
use sqlgate.Text.{Text}
use sqlgate.Templates.Markup.{markup}

unfoldable pub layout : Text
layout = markup (
    "<!DOCTYPE html>\n" ∷ "<html lang=\"en\" class=\"bg-parchment text-ink\">\n" ∷ "<head>\n"
    ∷ "    <meta charset=\"utf-8\">\n"
    ∷ "    <meta name=\"viewport\" content=\"width=device-width, initial-scale=1\">\n"
    ∷ "    <title>{{title}} — sqlgate</title>\n"
    ∷ "    <link rel=\"stylesheet\" href=\"/static/tailwind.css\">\n"
    ∷ "    <script src=\"/static/htmx.min.js\"></script>\n"
    ∷ "    <script defer src=\"/static/alpine.min.js\"></script>\n" ∷ "</head>\n"
    ∷ "<body hx-boost=\"true\" class=\"min-h-screen flex flex-col bg-parchment\">\n"
    ∷ "    <nav class=\"bg-parchment-dark border-b border-parchment-darker px-6 py-3 flex items-center gap-6\">\n"
    ∷ "        <a href=\"/\" class=\"text-rust font-bold text-lg no-underline\">sqlgate</a>\n"
    ∷ "        <div class=\"flex gap-4 text-sm\">\n"
    ∷ "            <a href=\"/submit\" class=\"text-ink-muted hover:text-rust no-underline\">Submit</a>\n"
    ∷ "            <a href=\"/approvals\" class=\"text-ink-muted hover:text-rust no-underline\">\n"
    ∷ "                Approvals\n"
    ∷ "                <span id=\"approval-count\" class=\"hidden ml-1 bg-rust text-parchment text-xs rounded-full px-1.5 py-0.5\"></span>\n"
    ∷ "            </a>\n"
    ∷ "            <a href=\"/history\" class=\"text-ink-muted hover:text-rust no-underline\">History</a>\n"
    ∷ "        </div>\n"
    ∷ "        <div class=\"ml-auto text-xs text-ink-muted\" id=\"status-badge\"></div>\n"
    ∷ "    </nav>\n" ∷ "    <main id=\"content\" class=\"flex-1 p-6\">\n" ∷ "{{content}}\n"
    ∷ "    </main>\n" ∷ "    <div id=\"flash-message\" class=\"fixed top-4 right-4 z-50\"></div>\n"
    ∷ "</body>\n" ∷ "</html>" ∷ [])
