-- ===== src/Execute/Hash/Xor.antt =====
-- The comparison of hashes, against equality.
use Prim.Native.Nat.{max, digits, differ, bit_or, bit_xor, bit_or-bitwise, bit_xor-bitwise}
use sqlgate.Prelude.{ℕ, zero, suc, ◌/◌, ◌%◌, ◌≤◌, ◌≡◌, ◌↔◌, true, [], ◌∷◌, arith, length}
use sqlgate.Text.{Bytes}
use sqlgate.Execute.Hash.{difference, constant_time_eq}

max_zero : (x y : ℕ) → (max x y ≡ 0) ↔ ((x ≡ 0) × (y ≡ 0))
max_zero x y = ground arith

differ_zero : (x y : ℕ) → (differ x y ≡ 0) ↔ (x ≡ y)
differ_zero zero y = ground arith
differ_zero (suc x) zero = ground arith
differ_zero (suc x) (suc y) = ground (arith, differ_zero x y)

digits-max_zero : (n a b : ℕ) → a ≤ n → (digits (λ y. y) max n a b ≡ 0) ↔ ((a ≡ 0) × (b ≡ 0))
digits-max_zero zero a b le = ground arith
digits-max_zero (suc n) zero b le = ground arith
digits-max_zero (suc n) (suc a) b le =
    ground
      (arith, digits-max_zero n (suc a / 2) (b / 2) (omega arith), max_zero (suc a % 2) (b % 2))

digits-differ_zero : (n a b : ℕ) → a ≤ n → (digits (λ y. y) differ n a b ≡ 0) ↔ (a ≡ b)
digits-differ_zero zero a b le = ground arith
digits-differ_zero (suc n) zero b le = ground arith
digits-differ_zero (suc n) (suc a) b le =
    ground (
      arith,
      digits-differ_zero n (suc a / 2) (b / 2) (omega arith),
      differ_zero (suc a % 2) (b % 2),
    )

bit_or_zero : (a b : ℕ) → (bit_or a b ≡ 0) ↔ ((a ≡ 0) × (b ≡ 0))
bit_or_zero a b = simp bit_or-bitwise (digits-max_zero a a b (omega arith))

bit_xor_zero : (a b : ℕ) → (bit_xor a b ≡ 0) ↔ (a ≡ b)
bit_xor_zero a b = simp bit_xor-bitwise (digits-differ_zero a a b (omega arith))

difference_zero :
    (diff : ℕ) (a b : Bytes)
    → length a ≡ length b
    → (difference diff a b ≡ 0) ↔ ((diff ≡ 0) × (a ≡ b))
unfolding difference
difference_zero diff [] [] h = ground arith
difference_zero diff (x ∷ a) [] h = ground arith
difference_zero diff [] (y ∷ b) h = ground arith
difference_zero diff (x ∷ a) (y ∷ b) h = ground (
  arith,
  difference_zero (bit_or diff (bit_xor x y)) a b (omega arith),
  bit_or_zero diff (bit_xor x y),
  bit_xor_zero x y,
)

-- The comparison answers yes exactly when the two byte strings are the same.
pub constant_time_eq_iff : (a b : Bytes) → (constant_time_eq a b ≡ true) ↔ (a ≡ b)
unfolding constant_time_eq
constant_time_eq_iff a b = ground (arith, difference_zero 0 a b)
