-- ===== src/Preview/Validator/Unique.antt =====
-- What the description of the removal of comments allows is what the loop computes.
use sqlgate.Prelude.{
  ℕ, zero, suc, ◌≤◌, ◌≡◌, refl, ap, ◌∙◌, false, [], ◌∷◌, ◌++◌, arith, length, length-append, All,
  ◌≢◌,
}
use sqlgate.Text.{Text, Bytes, starts_with, contains}
use sqlgate.Text.Utf8.{utf8}
use sqlgate.Preview.Validator.{skip_block, skip_line, strip_from, strip_comments}
use sqlgate.Preview.Validator.Stripping.{
  Stripped, over, plain, block, cut, cut_empty, line, last_line, opening, dashes, closing,
}
use sqlgate.Preview.Validator.Loop.{strip_from-nil, strip_from-one}

skip_block-closed :
    (inner s : Bytes) → contains inner closing ≡ false → skip_block (inner ++ b'*' ∷ b'/' ∷ s) ≡ s
unfolding skip_block contains starts_with
skip_block-closed [] s h = refl
skip_block-closed (a ∷ []) s h = ground arith
skip_block-closed (a ∷ b ∷ inner) s h = ground (arith, skip_block-closed (b ∷ inner) s, h)

skip_block-unclosed :
    (inner : Bytes) (b : ℕ)
    → contains (inner ++ b ∷ []) closing ≡ false
    → skip_block (inner ++ b ∷ []) ≡ b ∷ []
unfolding skip_block contains starts_with
skip_block-unclosed [] b h = refl
skip_block-unclosed (a ∷ []) b h = ground (arith, h)
skip_block-unclosed (a ∷ x ∷ inner) b h = ground (arith, skip_block-unclosed (x ∷ inner) b, h)

skip_line-ended :
    (inner s : Bytes) → All (λ b. b ≢ b'\n') inner → skip_line (inner ++ b'\n' ∷ s) ≡ b'\n' ∷ s
unfolding skip_line
skip_line-ended [] s h = refl
skip_line-ended (b ∷ inner) s (other, h) = ground (arith, skip_line-ended inner s h, other)

skip_line-unended : (s : Bytes) → All (λ b. b ≢ b'\n') s → skip_line s ≡ []
unfolding skip_line
skip_line-unended [] h = refl
skip_line-unended (b ∷ s) (other, h) = ground (arith, skip_line-unended s h, other)

strip_from-plain :
    (fuel a : ℕ) (s : Bytes)
    → starts_with (a ∷ s) opening ≡ false
    → starts_with (a ∷ s) dashes ≡ false
    → strip_from (suc fuel) (a ∷ s) ≡ a ∷ strip_from fuel s
unfolding strip_from starts_with
strip_from-plain fuel a [] no_block no_line = refl
strip_from-plain fuel a (b ∷ s) no_block no_line = ground (arith, no_block, no_line)

strip_from-block :
    (fuel : ℕ) (s : Bytes)
    → strip_from (suc fuel) (b'/' ∷ b'*' ∷ s) ≡ b' ' ∷ strip_from fuel (skip_block s)
unfolding strip_from
strip_from-block fuel s = refl

strip_from-line :
    (fuel : ℕ) (s : Bytes)
    → strip_from (suc fuel) (b'-' ∷ b'-' ∷ s) ≡ b' ' ∷ strip_from fuel (skip_line s)
unfolding strip_from
strip_from-line fuel s = refl

strip_from-of_Stripped :
    (fuel : ℕ) (s : Bytes) (t : Text) → Stripped s t → length s ≤ fuel → strip_from fuel s ≡ t
unfolding skip_block
strip_from-of_Stripped fuel _ _ over h = strip_from-nil fuel
strip_from-of_Stripped zero _ _ (plain a s t no_block no_line d) h = absurd (omega (arith, h))
strip_from-of_Stripped (suc fuel) _ _ (plain a s t no_block no_line d) h =
    strip_from-plain fuel a s no_block no_line
    ∙ ap (λ l. a ∷ l) (strip_from-of_Stripped fuel s t d (omega (arith, h)))
strip_from-of_Stripped zero _ _ (block inner s t none_inside d) h = absurd (omega (arith, h))
strip_from-of_Stripped (suc fuel) _ _ (block inner s t none_inside d) h =
    let bound : length s ≤ fuel = omega (arith, h, length-append inner (b'*' ∷ b'/' ∷ s)) in
    strip_from-block fuel (inner ++ b'*' ∷ b'/' ∷ s)
    ∙ rw (skip_block-closed inner s none_inside)
        (ap (λ l. b' ' ∷ l) (strip_from-of_Stripped fuel s t d bound))
strip_from-of_Stripped zero _ _ (cut inner b none_inside) h = absurd (omega (arith, h))
strip_from-of_Stripped (suc fuel) _ _ (cut inner b none_inside) h =
    let bound : 1 ≤ fuel = omega (arith, h, length-append inner (b ∷ [])) in
    strip_from-block fuel (inner ++ b ∷ [])
    ∙ rw (skip_block-unclosed inner b none_inside)
        (ap (λ l. b' ' ∷ l) (strip_from-one fuel b bound))
strip_from-of_Stripped zero _ _ cut_empty h = absurd (omega (arith, h))
strip_from-of_Stripped (suc fuel) _ _ cut_empty h =
    strip_from-block fuel [] ∙ ap (λ l. b' ' ∷ l) (strip_from-nil fuel)
strip_from-of_Stripped zero _ _ (line inner s t others d) h = absurd (omega (arith, h))
strip_from-of_Stripped (suc fuel) _ _ (line inner s t others d) h =
    let bound : length (b'\n' ∷ s) ≤ fuel = omega (arith, h, length-append inner (b'\n' ∷ s)) in
    strip_from-line fuel (inner ++ b'\n' ∷ s)
    ∙ rw (skip_line-ended inner s others)
        (ap (λ l. b' ' ∷ l) (strip_from-of_Stripped fuel (b'\n' ∷ s) t d bound))
strip_from-of_Stripped zero _ _ (last_line inner others) h = absurd (omega (arith, h))
strip_from-of_Stripped (suc fuel) _ _ (last_line inner others) h =
    strip_from-line fuel inner
    ∙ rw (skip_line-unended inner others) (ap (λ l. b' ' ∷ l) (strip_from-nil fuel))

pub strip_comments-of_Stripped : (sql t : Text) → Stripped (utf8 sql) t → strip_comments sql ≡ t
unfolding strip_comments
strip_comments-of_Stripped sql t d =
    strip_from-of_Stripped (length (utf8 sql)) (utf8 sql) t d (omega arith)
