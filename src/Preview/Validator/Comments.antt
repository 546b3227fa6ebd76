-- ===== src/Preview/Validator/Comments.antt =====
-- The removal of comments, and what an accepted query is.
use sqlgate.Prelude.{
  ℕ, zero, suc, ◌≤◌, ◌≡◌, ◌↔◌, ◌⊎◌, refl, Bool, true, false, not, ◌&&◌, [], ◌∷◌, arith, length, ltb,
  if◌then◌else◌, ok, err,
}
use sqlgate.Text.{Text, Bytes, CaseTables, codes, is_empty, starts_with, to_uppercase}
use sqlgate.Text.Utf8.{utf8}
use sqlgate.Preview.Validator.{
  skip_block, skip_line, behind, strip_from, strip_comments, significant, statements,
  validate_query,
}

pub skip_block_le : (s : Bytes) → length (skip_block s) ≤ length s
unfolding skip_block
skip_block_le [] = omega arith
skip_block_le (b ∷ []) = omega arith
skip_block_le (a ∷ b ∷ s) = ground (arith, skip_block_le (b ∷ s))

pub skip_line_le : (s : Bytes) → length (skip_line s) ≤ length s
unfolding skip_line
skip_line_le [] = omega arith
skip_line_le (b ∷ s) = ground (arith, skip_line_le s)

behind_le : (s : Bytes) → length (behind s) ≤ length s
behind_le [] = omega arith
behind_le (b ∷ s) = omega arith

-- With any fuel that is at least the number of bytes, the loop has the same result: it ends by
-- itself, and the fuel that it is given is enough.
pub strip_from-fuel :
    (fuel more : ℕ) (s : Bytes)
    → length s ≤ fuel
    → length s ≤ more
    → strip_from fuel s ≡ strip_from more s
unfolding strip_from
strip_from-fuel zero zero s p q = refl
strip_from-fuel zero (suc more) [] p q = refl
strip_from-fuel (suc fuel) zero [] p q = refl
strip_from-fuel (suc fuel) (suc more) [] p q = refl
strip_from-fuel zero (suc more) (a ∷ s) p q = absurd (omega arith)
strip_from-fuel (suc fuel) zero (a ∷ s) p q = absurd (omega arith)
strip_from-fuel (suc fuel) (suc more) (a ∷ s) p q =
    let short = behind_le s in
    let block = skip_block_le (behind s) in
    let line = skip_line_le (behind s) in
    let b = strip_from-fuel fuel more (skip_block (behind s)) (omega arith) (omega arith) in
    let l = strip_from-fuel fuel more (skip_line (behind s)) (omega arith) (omega arith) in
    let c = strip_from-fuel fuel more s (omega arith) (omega arith) in rw (strip_from, b, l, c) refl

strip_from_le : (fuel : ℕ) (s : Bytes) → length (strip_from fuel s) ≤ length s
unfolding strip_from
strip_from_le zero s = omega arith
strip_from_le (suc fuel) [] = omega arith
strip_from_le (suc fuel) (a ∷ []) = ground (arith, strip_from_le fuel [])
strip_from_le (suc fuel) (a ∷ b ∷ s) = ground (
  arith,
  skip_block_le s,
  skip_line_le s,
  strip_from_le fuel (skip_block s),
  strip_from_le fuel (skip_line s),
  strip_from_le fuel (b ∷ s),
)

-- Without its comments a query has no more characters than it had bytes.
pub strip_comments-le : (sql : Text) → length (strip_comments sql) ≤ length (utf8 sql)
unfolding strip_comments
strip_comments-le sql = strip_from_le (length (utf8 sql)) (utf8 sql)

-- A query that is accepted.
pub record IsAccepted (tables : CaseTables) (query : Text) (max_len : ℕ) : Type 0 where
  pub nonempty : is_empty (significant query) ≡ false
  pub short : length (utf8 query) ≤ max_len
  pub single : length (statements query) ≤ 1
  pub reading :
      (starts_with (to_uppercase tables (significant query)) (codes "SELECT") ≡ true)
      ⊎ (starts_with (to_uppercase tables (significant query)) (codes "WITH") ≡ true)

validate_parts :
    (empty select with_ : Bool) (len max n : ℕ) (a b c d : Text)
    → ((if empty
          then err a
          else if ltb max len
          then err b
          else if ltb 1 n
          then err c
          else if not select && not with_
          then err d
          else ok tt)
        ≡ ok (tt {0}))
      ↔ ((empty ≡ false) × (len ≤ max) × (n ≤ 1) × ((select ≡ true) ⊎ (with_ ≡ true)))
validate_parts empty select with_ len max n a b c d = ground arith

-- A query is accepted exactly when something is left of it without comments, it is not longer than
-- the limit, it has at most one statement that is not blank, and what is left begins with SELECT or
-- WITH in any case.
pub validate_query_iff :
    (tables : CaseTables) (query : Text) (max_len : ℕ)
    → (validate_query tables query max_len ≡ ok tt) ↔ IsAccepted tables query max_len
unfolding validate_query
validate_query_iff tables query max_len =
    let upper = to_uppercase tables (significant query) in
    let parts =
      validate_parts (is_empty (significant query)) (starts_with upper (codes "SELECT"))
        (starts_with upper (codes "WITH")) (length (utf8 query)) max_len (length (statements query))
        _ _ _ _ in
    (
      λ h.
          (let p = parts.0 h in
            record { nonempty = p.0; short = p.1; single = p.2; reading = p.3 }),
      λ i. parts.1 (i.nonempty, i.short, i.single, i.reading),
    )
