-- ===== src/Tests/Source/Pages.antt =====
-- The tests of src/templates.rs. The status of no known name, which the tables do not admit, is left
-- out.
use sqlgate.Prelude.{◌≡◌, refl, Bool, true, not, ◌&&◌, none, some, [], ◌∷◌, all}
use sqlgate.Text.{codes, text_eq, contains, is_empty}
use sqlgate.Text.Utf8.{utf8, utf8_char}
use sqlgate.Db.{submitted, previewed, pending_approval, approved, rejected, executed, expired}
use sqlgate.Templates.{markup, concat, render_page, oob_swap, status_badge}

abbrev test_full_page_when_no_hx_request : Bool
test_full_page_when_no_hx_request =
    let body = (render_page none (codes "<p>hello</p>") (codes "Test")).body in
    contains body (codes "<!DOCTYPE html>")
    && (contains body (codes "<p>hello</p>")
        && contains body (utf8 (codes "<title>Test — sqlgate</title>")))

abbrev test_fragment_when_hx_request : Bool
test_fragment_when_hx_request =
    let body = (render_page (some (codes "true")) (codes "<p>fragment</p>") (codes "Test")).body in
    not (contains body (codes "<!DOCTYPE html>")) && text_eq body (codes "<p>fragment</p>")

abbrev test_oob_swap_format : Bool
test_oob_swap_format =
    let html = oob_swap (codes "status-badge") (codes "<span>ok</span>") in
    contains html (codes "id=\"status-badge\"")
    && (contains html (codes "hx-swap-oob=\"true\"") && contains html (codes "<span>ok</span>"))

abbrev test_status_badge_all_variants : Bool
test_status_badge_all_variants =
    all
      (λ status.
        not (is_empty (status_badge status)) && contains (status_badge status) (codes "class="))
      (submitted ∷ previewed ∷ pending_approval ∷ approved ∷ rejected ∷ executed ∷ expired ∷ [])

template_tests :
    test_full_page_when_no_hx_request ∷ test_fragment_when_hx_request ∷ test_oob_swap_format
      ∷ test_status_badge_all_variants ∷ []
    ≡ true ∷ true ∷ true ∷ true ∷ []
unfolding render_page oob_swap status_badge contains text_eq utf8 utf8_char markup concat
template_tests = refl
