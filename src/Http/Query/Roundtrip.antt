-- ===== src/Http/Query/Roundtrip.antt =====
-- Decoding what a browser encodes.
use sqlgate.Prelude.{
  ℕ, ◌+◌, ◌-◌, ◌/◌, ◌%◌, ◌<◌, ◌≡◌, refl, some, [], ◌∷◌, arith, All, ltb, if◌then◌else◌,
}
use sqlgate.Text.{Text, Bytes}
use sqlgate.Text.Utf8.{utf8, utf8_char}
use sqlgate.Http.Query.{hex_val, decode_pair, decode_bytes, percent_decode}

-- A hexadecimal digit, in upper case.
unfoldable pub hex_digit : ℕ → ℕ
hex_digit n = if ltb n 10 then b'0' + n else b'A' + (n - 10)

-- Each byte as `%` and two digits.
unfoldable pub percent_encode : Bytes → Text
unfolding hex_digit
percent_encode [] = []
percent_encode (b ∷ bs) = b'%' ∷ hex_digit (b / 16) ∷ hex_digit (b % 16) ∷ percent_encode bs

hex_val-hex_digit : (n : ℕ) → n < 16 → hex_val (hex_digit n) ≡ some n
unfolding hex_val hex_digit
hex_val-hex_digit n h = ground arith

decode_bytes-percent_encode :
    (bs : Bytes) → All (λ b. b < 256) bs → decode_bytes (percent_encode bs) ≡ bs
unfolding decode_bytes percent_encode decode_pair
decode_bytes-percent_encode [] h = refl
decode_bytes-percent_encode (b ∷ bs) (small, h) = ground (
  arith,
  hex_val-hex_digit (b / 16) (omega arith),
  hex_val-hex_digit (b % 16) (omega arith),
  decode_bytes-percent_encode bs h,
)

utf8-percent_encode :
    (bs : Bytes) → All (λ b. b < 256) bs → utf8 (percent_encode bs) ≡ percent_encode bs
unfolding utf8 utf8_char percent_encode
utf8-percent_encode [] h = refl
utf8-percent_encode (b ∷ bs) (small, h) = ground (arith, utf8-percent_encode bs h)

-- Bytes that are percent-encoded are decoded to the characters of their numbers, one for each byte.
pub percent_decode-percent_encode :
    (bs : Bytes) → All (λ b. b < 256) bs → percent_decode (percent_encode bs) ≡ bs
unfolding percent_decode
percent_decode-percent_encode bs h =
    rw (utf8-percent_encode bs h) (decode_bytes-percent_encode bs h)
