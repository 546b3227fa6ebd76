-- ===== src/Text/Utf8/Roundtrip.antt =====
-- Decoding what was encoded.
use sqlgate.Prelude.{ℕ, ◌≤◌, ◌<◌, ◌⊎◌, ◌≡◌, refl, some, [], ◌∷◌, ◌++◌, arith, All, ap, ◌∙◌}
use sqlgate.Text.{Text, Bytes}
use sqlgate.Text.Utf8.{
  boundary, utf8_char, utf8, push, decode, from_utf8, decode_lossy, from_utf8_lossy,
}

-- The code points of a `char`: no surrogates.
abbrev pub IsScalar : ℕ → Type 0
IsScalar c = (c < 0xd800) ⊎ ((0xe000 ≤ c) × (c < 0x110000))

decode-utf8_char :
    (c : ℕ) (bs : Bytes)
    → IsScalar c
    → decode boundary (utf8_char c ++ bs) ≡ push c (decode boundary bs)
unfolding utf8_char decode
decode-utf8_char c bs h = ground arith

-- Decoding the bytes of a text gives the text.
pub from_utf8-utf8 : (s : Text) → All IsScalar s → from_utf8 (utf8 s) ≡ some s
unfolding from_utf8 utf8 decode push
from_utf8-utf8 [] h = refl
from_utf8-utf8 (c ∷ s) (p, h) = decode-utf8_char c (utf8 s) p ∙ ap (push c) (from_utf8-utf8 s h)

decode_lossy-utf8_char :
    (c : ℕ) (bs : Bytes)
    → IsScalar c
    → decode_lossy boundary (utf8_char c ++ bs) ≡ c ∷ decode_lossy boundary bs
unfolding utf8_char decode_lossy
decode_lossy-utf8_char c bs h = ground arith

-- So does the decoding that puts U+FFFD where the bytes are no UTF-8.
pub from_utf8_lossy-utf8 : (s : Text) → All IsScalar s → from_utf8_lossy (utf8 s) ≡ s
unfolding from_utf8_lossy utf8
from_utf8_lossy-utf8 [] h = refl
from_utf8_lossy-utf8 (c ∷ s) (p, h) =
    decode_lossy-utf8_char c (utf8 s) p ∙ ap (λ t. c ∷ t) (from_utf8_lossy-utf8 s h)
