-- ===== src/Http/Request/Lines.antt =====
-- Lines as a client prints them, and what the reader makes of them.
use sqlgate.Prelude.{
  ℕ, ◌+◌, ◌<◌, ◌≡◌, refl, sym, ◌∙◌, ap, inl, Bool, true, not, ◌&&◌, some, [], ◌∷◌, ◌++◌, all, ltb,
  All, arith, length, ◌==◌,
}
use sqlgate.Text.{Text, Bytes, split_once, splitn, trim_end_matches}
use sqlgate.Text.Utf8.{utf8, utf8_char, from_utf8}
use sqlgate.Text.Utf8.Roundtrip.{IsScalar, from_utf8-utf8}
use sqlgate.Http.Request.{take_line, read_line, is_line_end}

-- A character that a line may have: of ASCII, and no line end.
abbrev pub is_plain : ℕ → Bool
is_plain c = ltb c 128 && not (is_line_end c)

abbrev pub ended : Bytes → Bytes → Bytes
ended s rest = s ++ b'\r' ∷ b'\n' ∷ rest

take_line-ended :
    (s rest : Bytes) → all is_plain s ≡ true → take_line (ended s rest) ≡ (ended s [], rest, true)
unfolding take_line
take_line-ended [] rest h = refl
take_line-ended (c ∷ s) rest h = ground (arith, take_line-ended s rest)

is_ascii : ℕ → Bool
is_ascii c = ltb c 128

pub utf8-ascii : (s : Text) → all (λ c. ltb c 128) s ≡ true → utf8 s ≡ s
unfolding utf8 utf8_char
utf8-ascii [] h = refl
utf8-ascii (c ∷ s) h = ground (arith, utf8-ascii s)

IsScalar-ascii : (s : Text) → all (λ c. ltb c 128) s ≡ true → All IsScalar s
IsScalar-ascii [] h = tt
IsScalar-ascii (c ∷ s) h =
    let low : c < 0xd800 = ground (arith, h) in
    let more : all (λ c. ltb c 128) s ≡ true = ground (arith, h) in (inl low, IsScalar-ascii s more)

ascii-ended : (s : Text) → all is_plain s ≡ true → all (λ c. ltb c 128) (ended s []) ≡ true
ascii-ended [] h = refl
ascii-ended (c ∷ s) h = ground (arith, ascii-ended s)

from_utf8-ended : (s : Text) → all is_plain s ≡ true → from_utf8 (ended s []) ≡ some (ended s [])
from_utf8-ended s h =
    let low = ascii-ended s h in
    ap from_utf8 (sym (utf8-ascii (ended s []) low))
    ∙ from_utf8-utf8 (ended s []) (IsScalar-ascii (ended s []) low)

-- A line that was printed is read, and the stream goes on behind it.
pub read_line-ended :
    (s rest : Bytes) (closed : Bool)
    → all is_plain s ≡ true
    → read_line (record { bytes = ended s rest; closed = closed })
      ≡ some (ended s [], length (ended s []), record { bytes = rest; closed = closed })
unfolding read_line
read_line-ended s rest closed h =
    rw (read_line, take_line-ended s rest h, from_utf8-ended s h, take_line-ended s rest h) refl

pub trim-ended : (s : Text) → all is_plain s ≡ true → trim_end_matches is_line_end (ended s []) ≡ s
unfolding trim_end_matches
trim-ended [] h = refl
trim-ended (c ∷ s) h = ground (arith, trim-ended s)

pub length-ended : (s : Text) → length (ended s []) ≡ length s + 2
length-ended [] = refl
length-ended (c ∷ s) = omega (arith, length-ended s)

-- The first occurrence of a character is behind a text that has none.
pub split_once-first :
    (sep : ℕ) (s rest : Text)
    → all (λ c. not (c == sep)) s ≡ true
    → split_once sep (s ++ sep ∷ rest) ≡ some (s, rest)
unfolding split_once
split_once-first sep [] rest h = ground arith
split_once-first sep (c ∷ s) rest h = ground (arith, split_once-first sep s rest)

pub splitn-three :
    (sep : ℕ) (a b c : Text)
    → all (λ x. not (x == sep)) a ≡ true
    → all (λ x. not (x == sep)) b ≡ true
    → splitn 3 sep (a ++ (sep ∷ (b ++ (sep ∷ c)))) ≡ a ∷ b ∷ c ∷ []
unfolding splitn
splitn-three sep a b c h k =
    rw (splitn, split_once-first sep a (b ++ (sep ∷ c)) h, split_once-first sep b c k) refl
