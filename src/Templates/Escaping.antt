-- ===== src/Templates/Escaping.antt =====
-- The escaping of text for HTML, against one pass over the characters.
use sqlgate.Prelude.{
  ℕ, ◌≡◌, ◌≢◌, refl, ◌∙◌, ap, [], ◌∷◌, ◌++◌, arith, All, All-append, ◌==◌, if◌then◌else◌,
}
use sqlgate.Text.{Text, codes}
use sqlgate.Templates.{html_escape}
use sqlgate.Templates.Replace.{replace_from, replace}

-- What one character becomes.
unfoldable pub escape_char : ℕ → Text
escape_char c =
    if c == b'&'
    then codes "&amp;"
    else if c == b'<'
    then codes "&lt;"
    else if c == b'>'
    then codes "&gt;"
    else if c == b'"'
    then codes "&quot;"
    else c ∷ []

unfoldable pub escape_all : Text → Text
unfolding escape_char
escape_all [] = []
escape_all (c ∷ s) = escape_char c ++ escape_all s

-- The replacement of one character by a text.
substitute : ℕ → Text → Text → Text
substitute p t [] = []
substitute p t (c ∷ s) = let rest = substitute p t s in if c == p then t ++ rest else c ∷ rest

replace_one : (p : ℕ) (t s : Text) → replace (p ∷ []) t s ≡ substitute p t s
unfolding replace replace_from substitute
replace_one p t [] = refl
replace_one p t (c ∷ s) = ground (arith, replace_one p t s)

one_pass :
    (s : Text)
    → substitute b'"' (codes "&quot;") (
        substitute b'>'
          (codes "&gt;")
          (substitute b'<' (codes "&lt;") (substitute b'&' (codes "&amp;") s)))
      ≡ escape_all s
unfolding substitute escape_all
one_pass [] = refl
one_pass (c ∷ s) = ground (arith, one_pass s)

-- Escaping is one pass over the text: the four replacements do not disturb each other.
pub html_escape-escape_all : (s : Text) → html_escape s ≡ escape_all s
unfolding html_escape escape_all
html_escape-escape_all s =
    replace_one b'"' (codes "&quot;") _
    ∙ (ap (substitute b'"' (codes "&quot;")) (
          replace_one b'>' (codes "&gt;") _
          ∙ ap (substitute b'>' (codes "&gt;")) (
              replace_one b'<' (codes "&lt;") _
              ∙ ap (substitute b'<' (codes "&lt;")) (replace_one b'&' (codes "&amp;") s)))
        ∙ one_pass s)

-- A character that cannot open or close a tag or an attribute's value.
abbrev pub IsInert : ℕ → Type 0
IsInert c = (c ≢ b'<') × (c ≢ b'>') × (c ≢ b'"')

escape_char-IsInert : (c : ℕ) → All IsInert (escape_char c)
unfolding escape_char
escape_char-IsInert c = ground arith

escape_all-IsInert : (s : Text) → All IsInert (escape_all s)
unfolding escape_all
escape_all-IsInert [] = tt
escape_all-IsInert (c ∷ s) =
    All-append IsInert (escape_char c) (escape_all s) (escape_char-IsInert c) (escape_all-IsInert s)

-- Whatever a text holds, once escaped it has no angle bracket and no double quote.
pub html_escape-IsInert : (s : Text) → All IsInert (html_escape s)
html_escape-IsInert s = rw (html_escape-escape_all s) (escape_all-IsInert s)
