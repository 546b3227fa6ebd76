-- ===== src/Http/Query.antt =====
-- Query strings and form bodies: the lower half of src/http/request.rs.
pub mod Roundtrip
use sqlgate.Prelude.{
  ℕ, ◌+◌, ◌-◌, ◌*◌, Bool, ◌&&◌, Option, none, some, List, [], ◌∷◌, leb, ◌==◌, if◌then◌else◌,
}
use sqlgate.Text.{Text, Bytes, is_empty, split, split_once}
use sqlgate.Text.Utf8.{utf8}
use sqlgate.Map.{Map, insert}

unfoldable pub hex_val : ℕ → Option ℕ
hex_val b =
    if leb b'0' b && leb b b'9'
    then some (b - b'0')
    else if leb b'a' b && leb b b'f'
    then some (b - b'a' + 10)
    else if leb b'A' b && leb b b'F'
    then some (b - b'A' + 10)
    else none

-- `%` and two bytes behind it. `h << 4 | l` is `h * 16 + l`, since `l` is below 16.
unfoldable pub decode_pair : ℕ → ℕ → Text → Text
unfolding hex_val
decode_pair hi lo rest = elim (hex_val hi) [
  | none ↦ b'%' ∷ hi ∷ lo ∷ rest
  | some h ↦ elim (hex_val lo) [ none ↦ b'%' ∷ hi ∷ lo ∷ rest | some l ↦ (h * 16 + l) ∷ rest ]
]

-- The loop over the bytes; a byte is pushed as the character of its number.
unfoldable pub decode_bytes : Bytes → Text
unfolding decode_pair
decode_bytes [] = []
decode_bytes (b ∷ []) = if b == b'+' then b' ' ∷ [] else b ∷ []
decode_bytes (b ∷ hi ∷ []) =
    let rest = decode_bytes (hi ∷ []) in
    if b == b'%' then b'%' ∷ hi ∷ [] else if b == b'+' then b' ' ∷ rest else b ∷ rest
decode_bytes (b ∷ hi ∷ lo ∷ s) =
    let pair = decode_pair hi lo (decode_bytes s) in
    let rest = decode_bytes (hi ∷ lo ∷ s) in
    if b == b'%' then pair else if b == b'+' then b' ' ∷ rest else b ∷ rest

unfoldable pub percent_decode : Text → Text
unfolding decode_bytes utf8
percent_decode s = decode_bytes (utf8 s)

abbrev pub key_value : Text → Text × Text
key_value pair = elim (split_once b'=' pair) [ none ↦ (pair, []) | some kv ↦ kv ]

-- The body of the loop over the pairs; an empty one is passed over.
unfoldable pub add_pair : Map → Text → Map
unfolding percent_decode split_once insert
add_pair map pair =
    if is_empty pair
    then map
    else insert (percent_decode (key_value pair).0) (percent_decode (key_value pair).1) map

unfoldable pub add_pairs : Map → List Text → Map
unfolding add_pair
add_pairs map [] = map
add_pairs map (pair ∷ pairs) = add_pairs (add_pair map pair) pairs

unfoldable pub parse_query_string : Text → Map
unfolding add_pairs split
parse_query_string raw = if is_empty raw then [] else add_pairs [] (split b'&' raw)

unfoldable pub split_query : Text → Text × Map
unfolding parse_query_string split_once
split_query s = elim (split_once b'?' s) [
  | none ↦ (s, [])
  | some (path, query) ↦ (path, parse_query_string query)
]
