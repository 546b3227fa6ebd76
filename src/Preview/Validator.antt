-- ===== src/Preview/Validator.antt =====
-- src/preview/validator.rs
pub mod Comments
pub mod Statements
pub mod Stripping
pub mod Loop
pub mod Unique
pub mod Allowed
use sqlgate.Prelude.{
  ℕ, zero, suc, Bool, false, not, ◌&&◌, List, [], ◌∷◌, ◌++◌, ltb, ◌==◌, if◌then◌else◌, length,
  retain, map, Result, ok, err,
}
use sqlgate.Text.{Text, Bytes, CaseTables, codes, is_empty, trim, split, to_uppercase, starts_with}
use sqlgate.Text.Utf8.{utf8}
use sqlgate.Text.Number.{decimal}

abbrev pub max_query_len : ℕ
max_query_len = 32768

-- The inner loop of a block comment, on what follows its opening: what is left behind the closing
-- `*/`. Without a closing the loop stops in front of the last byte.
unfoldable pub skip_block : Bytes → Bytes
skip_block [] = []
skip_block (b ∷ []) = b ∷ []
skip_block (a ∷ b ∷ s) = let rest = skip_block (b ∷ s) in if a == b'*' && b == b'/' then s else rest

-- The inner loop of a line comment: what is left from the end of the line.
unfoldable pub skip_line : Bytes → Bytes
skip_line [] = []
skip_line (b ∷ s) = let rest = skip_line s in if b == b'\n' then b ∷ s else rest

abbrev pub opens_block : ℕ → Bytes → Bool
opens_block a [] = false
opens_block a (b ∷ s) = a == b'/' && b == b'*'

abbrev pub opens_line : ℕ → Bytes → Bool
opens_line a [] = false
opens_line a (b ∷ s) = a == b'-' && b == b'-'

abbrev pub behind : Bytes → Bytes
behind [] = []
behind (b ∷ s) = s

-- The outer loop, on the bytes from index `i` on. Each round reads a byte, so that the number of
-- bytes is enough fuel.
unfoldable pub strip_from : ℕ → Bytes → Text
unfolding skip_block skip_line
strip_from zero s = []
strip_from (suc fuel) [] = []
strip_from (suc fuel) (a ∷ s) =
    let after_block = b' ' ∷ strip_from fuel (skip_block (behind s)) in
    let after_line = b' ' ∷ strip_from fuel (skip_line (behind s)) in
    let plain = a ∷ strip_from fuel s in
    if opens_block a s then after_block else if opens_line a s then after_line else plain

unfoldable pub strip_comments : Text → Text
unfolding strip_from utf8
strip_comments sql = let bytes = utf8 sql in strip_from (length bytes) bytes

-- The statements between semicolons that are not blank.
unfoldable pub statements : Text → List Text
unfolding split trim
statements query = retain (λ s. not (is_empty s)) (map trim (split b';' query))

unfoldable pub significant : Text → Text
unfolding strip_comments trim
significant query = trim (strip_comments (trim query))

unfoldable pub validate_query : CaseTables → Text → ℕ → Result (Unit {0}) Text
unfolding significant statements to_uppercase starts_with decimal
validate_query tables query max_len =
    let trimmed = significant query in
    let upper = to_uppercase tables trimmed in
    if is_empty trimmed
    then err (codes "query must not be empty")
    else if ltb max_len (length (utf8 query))
    then err (codes "query exceeds maximum length of " ++ (decimal max_len ++ codes " bytes"))
    else if ltb 1 (length (statements query))
    then err (codes "stacked queries (multiple `;`-separated statements) are not allowed")
    else if not (starts_with upper (codes "SELECT")) && not (starts_with upper (codes "WITH"))
    then err (codes "only SELECT queries (or WITH CTEs) are allowed")
    else ok tt
