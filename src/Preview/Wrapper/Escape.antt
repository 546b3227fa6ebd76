-- ===== src/Preview/Wrapper/Escape.antt =====
-- A query that closes the parenthesis that it is wrapped in.
use sqlgate.Prelude.{
  ℕ, ◌≡◌, refl, ◌∙◌, ap, Bool, true, not, ◌&&◌, [], ◌∷◌, ◌++◌, all, ltb, length, arith, ◌==◌,
}
use mathlib.Core.List.{append_assoc}
use sqlgate.Text.{Text, codes}
use sqlgate.Text.Number.{decimal}
use sqlgate.Http.Request.Lines.{utf8-ascii}
use sqlgate.Preview.Validator.{strip_from, strip_comments}
use sqlgate.Preview.Wrapper.{clean, wrap_query}

-- A character of ASCII that opens no comment.
abbrev pub is_bare : ℕ → Bool
is_bare c = ltb c 128 && (not (c == b'-') && not (c == b'/'))

abbrev strip : Text → Text
strip s = strip_from (length s) s

strip-append : (s rest : Text) → all is_bare s ≡ true → strip (s ++ rest) ≡ s ++ strip rest
unfolding strip_from
strip-append [] rest h = refl
strip-append (c ∷ []) [] h = ground arith
strip-append (c ∷ []) (d ∷ rest) h = ground arith
strip-append (c ∷ d ∷ s) rest h = ground (arith, strip-append (d ∷ s) rest)

ascii-append :
    (s t : Text)
    → all is_bare s ≡ true
    → all (λ c. ltb c 128) t ≡ true
    → all (λ c. ltb c 128) (s ++ t) ≡ true
ascii-append [] t h k = k
ascii-append (c ∷ s) t h k = ground (arith, ascii-append s t)

abbrev behind_escape : Text
behind_escape = codes ") sub --) sub LIMIT 5"

-- If a query, when it is trimmed, is a text of ASCII without dashes and slashes followed by `) sub --`,
-- then in the wrapped query the LIMIT is a comment: without comments, it ends at `) sub`.
pub strip_comments-wrap_query :
    (query s : Text)
    → clean query ≡ s ++ codes ") sub --"
    → all is_bare s ≡ true
    → strip_comments (wrap_query query) ≡ codes "SELECT * FROM (" ++ (s ++ codes ") sub  ")
unfolding wrap_query strip_comments decimal strip_from
strip_comments-wrap_query query s ends bare =
    let wrapped : wrap_query query ≡ codes "SELECT * FROM (" ++ (s ++ behind_escape) =
      rw (wrap_query, ends)
        (ap (λ t. codes "SELECT * FROM (" ++ t)
          (append_assoc s (codes ") sub --") (codes ") sub LIMIT 5"))) in
    let low : all (λ c. ltb c 128) (codes "SELECT * FROM (" ++ (s ++ behind_escape)) ≡ true =
      ascii-append (codes "SELECT * FROM (") (s ++ behind_escape) refl
        (ascii-append s behind_escape bare refl) in
    ap strip_comments wrapped
    ∙ (ap strip (utf8-ascii (codes "SELECT * FROM (" ++ (s ++ behind_escape)) low)
        ∙ (strip-append (codes "SELECT * FROM (") (s ++ behind_escape) refl
            ∙ ap (λ t. codes "SELECT * FROM (" ++ t) (strip-append s behind_escape bare)))
