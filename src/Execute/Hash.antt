-- ===== src/Execute/Hash.antt =====
-- src/execute/hash.rs
pub mod Xor
use Prim.Native.Nat.{bit_or, bit_xor}
use sqlgate.Prelude.{ℕ, Bool, false, not, [], ◌∷◌, ◌==◌, if◌then◌else◌, length}
use sqlgate.Text.{Text, Bytes}
use sqlgate.Text.Utf8.{utf8}
use sqlgate.Host.{Host}

-- The loop over `a.iter().zip(b.iter())`.
unfoldable pub difference : ℕ → Bytes → Bytes → ℕ
difference diff [] b = diff
difference diff (x ∷ a) [] = diff
difference diff (x ∷ a) (y ∷ b) = difference (bit_or diff (bit_xor x y)) a b

unfoldable pub constant_time_eq : Bytes → Bytes → Bool
unfolding difference
constant_time_eq a b =
    let diff = difference 0 a b in if not (length a == length b) then false else diff == 0

-- The hash that `submit_handler` stores and `verify_query_hash` recomputes.
abbrev pub query_hash : Host → Text → Text
query_hash host query = host.sha256_hex (utf8 query)

unfoldable pub verify_query_hash : Host → Text → Text → Bool
unfolding constant_time_eq utf8
verify_query_hash host query stored = constant_time_eq (utf8 (query_hash host query)) (utf8 stored)
