-- ===== src/Text/Number.antt =====
-- Decimal numbers: `to_string` of an unsigned integer, and `str::parse` into one of `w` bits.
use sqlgate.Prelude.{
  ℕ, zero, suc, ◌+◌, ◌-◌, ◌*◌, ◌/◌, ◌%◌, ◌^◌, Bool, ◌&&◌, Option, none, some, [], ◌∷◌, ltb, leb,
  ◌==◌, if◌then◌else◌,
}
use sqlgate.Text.{Text}

-- Digits are put in front of `rest`, the lowest first; fuel above the number is enough.
unfoldable pub decimal_onto : ℕ → ℕ → Text → Text
decimal_onto zero n rest = rest
decimal_onto (suc fuel) n rest =
    let longer = decimal_onto fuel (n / 10) ((b'0' + n % 10) ∷ rest) in
    if ltb n 10 then (b'0' + n) ∷ rest else longer

unfoldable pub decimal : ℕ → Text
unfolding decimal_onto
decimal n = decimal_onto (suc n) n []

abbrev pub is_digit : ℕ → Bool
is_digit c = leb b'0' c && leb c b'9'

-- The digits of a number below `limit`, read from the left; `none` on another character, and as
-- soon as the number read reaches the limit.
unfoldable pub digits_below : ℕ → ℕ → Text → Option ℕ
digits_below limit acc [] = some acc
digits_below limit acc (c ∷ s) =
    let acc' = acc * 10 + (c - b'0') in
    let rest = digits_below limit acc' s in if is_digit c && ltb acc' limit then rest else none

unsigned : ℕ → Text → Option ℕ
unsigned limit [] = none
unsigned limit (c ∷ s) = digits_below limit 0 (c ∷ s)

-- `s.parse::<usize>()` and `s.parse::<u64>()` on a 64-bit machine: one `+` may stand in front.
unfoldable pub parse_u64 : Text → Option ℕ
unfolding unsigned digits_below
parse_u64 [] = none
parse_u64 (c ∷ s) = if c == b'+' then unsigned (2 ^ 64) s else unsigned (2 ^ 64) (c ∷ s)
