-- ===== src/Text.antt =====
-- Texts as the source's `String` and `&str`, and the operations of Rust's `str` that the source
-- calls. A text is the list of its code points, a byte string the list of its bytes.
pub mod Utf8
pub mod Number
pub mod Equality
pub mod Blank
use Prim.Native.Char.{code}
use Prim.Native.String.{String}
use sqlgate.Prelude.{
  ℕ, zero, suc, ◌+◌, ◌-◌, Bool, true, false, not, ◌&&◌, ◌||◌, Option, none, some, List, [], ◌∷◌,
  ◌++◌, ltb, leb, ◌==◌, if◌then◌else◌, all,
}

abbrev pub Text : Type 0
Text = List ℕ

abbrev pub Bytes : Type 0
Bytes = List ℕ

-- The text of a literal.
abbrev pub codes : String → Text
codes String.[] = []
codes (String.◌∷◌ c s) = code c ∷ codes s

unfoldable pub text_eq : Text → Text → Bool
text_eq [] [] = true
text_eq [] (_ ∷ _) = false
text_eq (_ ∷ _) [] = false
text_eq (a ∷ s) (b ∷ t) = a == b && text_eq s t

abbrev pub is_empty : Text → Bool
is_empty [] = true
is_empty (_ ∷ _) = false

-- `char::is_whitespace`: the code points with the property White_Space.
unfoldable pub is_whitespace : ℕ → Bool
is_whitespace c =
    (leb 9 c && leb c 13)
    || c == 32
    || c == 0x85
    || c == 0xa0
    || c == 0x1680
    || (leb 0x2000 c && leb c 0x200a)
    || c == 0x2028
    || c == 0x2029
    || c == 0x202f
    || c == 0x205f
    || c == 0x3000

-- `trim_start_matches` and `trim_end_matches` by a test on a character.
unfoldable pub trim_start_matches : (ℕ → Bool) → Text → Text
trim_start_matches p [] = []
trim_start_matches p (c ∷ s) = let rest = trim_start_matches p s in if p c then rest else c ∷ s

keep_unless : Bool → ℕ → Text → Text
keep_unless drop c [] = if drop then [] else c ∷ []
keep_unless drop c (d ∷ s) = c ∷ d ∷ s

unfoldable pub trim_end_matches : (ℕ → Bool) → Text → Text
unfolding keep_unless
trim_end_matches p [] = []
trim_end_matches p (c ∷ s) = keep_unless (p c) c (trim_end_matches p s)

unfoldable pub trim : Text → Text
unfolding trim_start_matches trim_end_matches is_whitespace
trim s = trim_end_matches is_whitespace (trim_start_matches is_whitespace s)

-- `split` at a character: the parts between its occurrences, empty ones too.
onto_first : ℕ → List Text → List Text
onto_first c [] = (c ∷ []) ∷ []
onto_first c (part ∷ parts) = (c ∷ part) ∷ parts

unfoldable pub split : ℕ → Text → List Text
unfolding onto_first
split sep [] = [] ∷ []
split sep (c ∷ s) = let rest = split sep s in if c == sep then [] ∷ rest else onto_first c rest

onto_left : ℕ → Option (Text × Text) → Option (Text × Text)
onto_left c none = none
onto_left c (some (l, r)) = some (c ∷ l, r)

-- `split_once` at the first occurrence of a character.
unfoldable pub split_once : ℕ → Text → Option (Text × Text)
unfolding onto_left
split_once sep [] = none
split_once sep (c ∷ s) =
    let rest = split_once sep s in if c == sep then some ([], s) else onto_left c rest

-- `splitn`: at most `n` parts, the last one with all that is left.
unfoldable pub splitn : ℕ → ℕ → Text → List Text
splitn zero sep s = []
splitn (suc zero) sep s = s ∷ []
splitn (suc (suc n)) sep s = elim (split_once sep s) [
  | none ↦ s ∷ []
  | some (l, r) ↦ l ∷ splitn (suc n) sep r
]

unfoldable pub strip_prefix : Text → Text → Option Text
strip_prefix s [] = some s
strip_prefix [] (_ ∷ _) = none
strip_prefix (c ∷ s) (d ∷ p) = let rest = strip_prefix s p in if c == d then rest else none

unfoldable pub starts_with : Text → Text → Bool
starts_with s [] = true
starts_with [] (_ ∷ _) = false
starts_with (c ∷ s) (d ∷ p) = c == d && starts_with s p

unfoldable pub contains : Text → Text → Bool
unfolding starts_with
contains [] p = starts_with [] p
contains (c ∷ s) p = starts_with (c ∷ s) p || contains s p

-- Whether the last character is `d`.
unfoldable pub ends_with : Text → ℕ → Bool
ends_with [] d = false
ends_with (c ∷ []) d = c == d
ends_with (_ ∷ c ∷ s) d = ends_with (c ∷ s) d

-- Case mapping is exact below U+0100. The tables of Unicode beyond it are a parameter, which
-- receives the whole text, since a mapping may depend on what stands around a character.
pub record CaseTables : Type 0 where
  pub upper : Text → Text
  pub lower : Text → Text

-- 'ß' is two letters, 'µ' and 'ÿ' leave Latin-1, '÷' has no case.
unfoldable pub upper_char : ℕ → Text
upper_char c =
    if leb b'a' c && leb c b'z'
    then (c - 32) ∷ []
    else if c == 0xb5
    then 0x39c ∷ []
    else if c == 0xdf
    then b'S' ∷ b'S' ∷ []
    else if c == 0xff
    then 0x178 ∷ []
    else if leb 0xe0 c && leb c 0xfe && not (c == 0xf7)
    then (c - 32) ∷ []
    else c ∷ []

unfoldable pub lower_char : ℕ → ℕ
lower_char c =
    if (leb b'A' c && leb c b'Z') || (leb 0xc0 c && leb c 0xde && not (c == 0xd7))
    then c + 32
    else c

unfoldable pub upper_latin : Text → Text
unfolding upper_char
upper_latin [] = []
upper_latin (c ∷ s) = upper_char c ++ upper_latin s

unfoldable pub lower_latin : Text → Text
unfolding lower_char
lower_latin [] = []
lower_latin (c ∷ s) = lower_char c ∷ lower_latin s

abbrev pub is_latin : Text → Bool
is_latin s = all (λ c. ltb c 256) s

unfoldable pub to_uppercase : CaseTables → Text → Text
unfolding upper_latin
to_uppercase tables s = if is_latin s then upper_latin s else tables.upper s

unfoldable pub to_lowercase : CaseTables → Text → Text
unfolding lower_latin
to_lowercase tables s = if is_latin s then lower_latin s else tables.lower s
