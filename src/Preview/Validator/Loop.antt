-- ===== src/Preview/Validator/Loop.antt =====
-- The loop that removes comments, and the description of it.
use sqlgate.Prelude.{
  ℕ, zero, suc, ◌≤◌, ◌≡◌, refl, ap, ◌&&◌, [], ◌∷◌, arith, ◌==◌, Bool-cases, inl, inr, length,
}
use sqlgate.Text.{Text, Bytes, starts_with}
use sqlgate.Text.Utf8.{utf8}
use sqlgate.Preview.Validator.{skip_block, skip_line, strip_from, strip_comments}
use sqlgate.Preview.Validator.Comments.{skip_block_le, skip_line_le}
use sqlgate.Preview.Validator.Stripping.{
  Stripped, over, plain, block, cut, cut_empty, line, last_line, block_end, closed, unclosed, empty,
  line_end, ended, unended,
}

pub strip_from-nil : (fuel : ℕ) → strip_from fuel [] ≡ []
unfolding strip_from
strip_from-nil zero = refl
strip_from-nil (suc fuel) = refl

pub strip_from-one : (fuel b : ℕ) → 1 ≤ fuel → strip_from fuel (b ∷ []) ≡ b ∷ []
unfolding strip_from
strip_from-one zero b h = absurd (omega (arith, h))
strip_from-one (suc fuel) b h = ap (λ l. b ∷ l) (strip_from-nil fuel)

module _ (fuel : ℕ) (strips : (s : Bytes) → length s ≤ fuel → Stripped s (strip_from fuel s)) where
  strip_block :
      (s : Bytes)
      → length s ≤ fuel
      → Stripped (b'/' ∷ b'*' ∷ s) (b' ' ∷ strip_from fuel (skip_block s))
  strip_block s short = elim (block_end s) [
    | closed inner rest e h skip ↦
        (let left : length rest ≤ fuel = omega (arith, ap length skip, skip_block_le s, short) in
          rw (skip, e) (block inner rest (strip_from fuel rest) h (strips rest left)))
    | unclosed inner b e h skip ↦
        (let some_left : 1 ≤ fuel = omega (arith, ap length skip, skip_block_le s, short) in
          rw (skip, strip_from-one fuel b some_left, e) (cut inner b (rw e at h)))
    | empty e skip ↦ rw (skip, strip_from-nil fuel, e) cut_empty
  ]

  strip_line :
      (s : Bytes)
      → length s ≤ fuel
      → Stripped (b'-' ∷ b'-' ∷ s) (b' ' ∷ strip_from fuel (skip_line s))
  strip_line s short = elim (line_end s) [
    | ended inner rest e h skip ↦
        (let left : length (b'\n' ∷ rest) ≤ fuel =
            omega (arith, ap length skip, skip_line_le s, short) in
          rw (skip, e)
            (line inner rest (strip_from fuel (b'\n' ∷ rest)) h (strips (b'\n' ∷ rest) left)))
    | unended h skip ↦ rw (skip, strip_from-nil fuel) (last_line s h)
  ]

strip_from-Stripped : (fuel : ℕ) (s : Bytes) → length s ≤ fuel → Stripped s (strip_from fuel s)
unfolding strip_from starts_with
strip_from-Stripped zero [] h = over
strip_from-Stripped (suc fuel) [] h = over
strip_from-Stripped zero (a ∷ s) h = absurd (omega (arith, h))
strip_from-Stripped (suc fuel) (a ∷ []) h =
    plain a [] (strip_from fuel []) (ground arith) (ground arith)
      (strip_from-Stripped fuel [] (omega arith))
strip_from-Stripped (suc fuel) (a ∷ b ∷ s) h = elim (Bool-cases (a == b'/' && b == b'*')) [
  | inl hit ↦
      (let slash : a ≡ b'/' = ground (arith, hit) in
        let star : b ≡ b'*' = ground (arith, hit) in
        rw (slash, star) (strip_block fuel (strip_from-Stripped fuel) s (omega (arith, h))))
  | inr no_block ↦ elim (Bool-cases (a == b'-' && b == b'-')) [
    | inl hit ↦
        (let first : a ≡ b'-' = ground (arith, hit) in
          let second : b ≡ b'-' = ground (arith, hit) in
          rw (first, second) (strip_line fuel (strip_from-Stripped fuel) s (omega (arith, h))))
    | inr no_line ↦
        rw (no_block, no_line)
          (plain a (b ∷ s) (strip_from fuel (b ∷ s)) (ground (arith, no_block))
            (ground (arith, no_line)) (strip_from-Stripped fuel (b ∷ s) (omega (arith, h))))
  ]
]

pub strip_comments-Stripped : (sql : Text) → Stripped (utf8 sql) (strip_comments sql)
unfolding strip_comments
strip_comments-Stripped sql = strip_from-Stripped (length (utf8 sql)) (utf8 sql) (omega arith)
