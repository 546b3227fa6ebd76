-- ===== src/Text/Utf8.antt =====
-- UTF-8: `as_bytes`, `String::from_utf8` as `read_line` applies it, and `from_utf8_lossy`.
pub mod Roundtrip
use sqlgate.Prelude.{
  ℕ, zero, suc, ◌+◌, ◌-◌, ◌*◌, ◌/◌, ◌%◌, Option, none, some, [], ◌∷◌, ◌++◌, ltb, leb, ◌==◌, ◌&&◌,
  if◌then◌else◌,
}
use sqlgate.Text.{Text, Bytes}

unfoldable pub utf8_char : ℕ → Bytes
utf8_char c =
    if ltb c 0x80
    then c ∷ []
    else if ltb c 0x800
    then (0xc0 + c / 64) ∷ (0x80 + c % 64) ∷ []
    else if ltb c 0x10000
    then (0xe0 + c / 4096) ∷ (0x80 + c / 64 % 64) ∷ (0x80 + c % 64) ∷ []
    else (0xf0 + c / 262144) ∷ (0x80 + c / 4096 % 64) ∷ (0x80 + c / 64 % 64) ∷ (0x80 + c % 64) ∷ []

-- `as_bytes`, `into_bytes`.
unfoldable pub utf8 : Text → Bytes
unfolding utf8_char
utf8 [] = []
utf8 (c ∷ s) = utf8_char c ++ utf8 s

-- Between two bytes a decoder is at a boundary, or it wants `more + 1` further bytes, the next of
-- them between `low` and `high`, with the bits read so far.
pub data Decoder : Type 0 where
  boundary : Decoder
  wants : (more low high bits : ℕ) → Decoder

-- What one byte leads to at a boundary: a character, a longer sequence, or an error.
pub data Step : Type 0 where
  emit : ℕ → Step
  wait : Decoder → Step
  bad : Step

unfoldable pub first_byte : ℕ → Step
first_byte b =
    if ltb b 0x80
    then emit b
    else if leb 0xc2 b && leb b 0xdf
    then wait (wants 0 0x80 0xbf (b - 0xc0))
    else if b == 0xe0
    then wait (wants 1 0xa0 0xbf 0)
    else if b == 0xed
    then wait (wants 1 0x80 0x9f 13)
    else if leb 0xe1 b && leb b 0xef
    then wait (wants 1 0x80 0xbf (b - 0xe0))
    else if b == 0xf0
    then wait (wants 2 0x90 0xbf 0)
    else if leb 0xf1 b && leb b 0xf3
    then wait (wants 2 0x80 0xbf (b - 0xf0))
    else if b == 0xf4
    then wait (wants 2 0x80 0x8f 4)
    else bad

-- A further byte that is in range.
abbrev continue : ℕ → ℕ → Step
continue zero bits = emit bits
continue (suc more) bits = wait (wants more 0x80 0xbf bits)

unfoldable pub next_byte : Decoder → ℕ → Step
unfolding first_byte
next_byte boundary b = first_byte b
next_byte (wants more low high bits) b =
    if leb low b && leb b high then continue more (bits * 64 + (b - 0x80)) else bad

push : ℕ → Option Text → Option Text
push c none = none
push c (some s) = some (c ∷ s)

-- `String::from_utf8`: `none` is an error.
unfoldable pub decode : Decoder → Bytes → Option Text
unfolding push next_byte
decode boundary [] = some []
decode (wants _ _ _ _) [] = none
decode d (b ∷ bs) = elim (next_byte d b) [
  | emit c ↦ push c (decode boundary bs)
  | wait d' ↦ decode d' bs
  | bad ↦ none
]

unfoldable pub from_utf8 : Bytes → Option Text
unfolding decode
from_utf8 bs = decode boundary bs

-- U+FFFD stands for each maximal part of a sequence that cannot be completed. A byte that breaks a
-- sequence off is read again, at a boundary.
abbrev replacement : ℕ
replacement = 0xfffd

abbrev is_boundary : Decoder → Text
is_boundary boundary = []
is_boundary (wants _ _ _ _) = replacement ∷ []

restart : ℕ → Text × Decoder
restart b = elim (first_byte b) [
  | emit c ↦ (c ∷ [], boundary)
  | wait d ↦ ([], d)
  | bad ↦ (replacement ∷ [], boundary)
]

unfoldable pub decode_lossy : Decoder → Bytes → Text
unfolding restart next_byte
decode_lossy d [] = is_boundary d
decode_lossy d (b ∷ bs) = elim (next_byte d b) [
  | emit c ↦ c ∷ decode_lossy boundary bs
  | wait d' ↦ decode_lossy d' bs
  | bad ↦ is_boundary d ++ (restart b).0 ++ decode_lossy (restart b).1 bs
]

unfoldable pub from_utf8_lossy : Bytes → Text
unfolding decode_lossy
from_utf8_lossy bs = decode_lossy boundary bs
