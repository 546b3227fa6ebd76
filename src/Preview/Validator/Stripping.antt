-- ===== src/Preview/Validator/Stripping.antt =====
-- A description of the removal of comments, and that the loop does it.
use mathlib.Core.List.{head-eq_of_cons-eq}
use sqlgate.Prelude.{
  ℕ, ◌≡◌, ◌≢◌, refl, ap, false, ◌&&◌, [], ◌∷◌, ◌++◌, arith, ◌==◌, ==_iff, Bool-cases, inl, inr, All,
}
use sqlgate.Text.{Text, Bytes, starts_with, contains}
use sqlgate.Preview.Validator.{skip_block, skip_line}

abbrev pub opening : Bytes
opening = b'/' ∷ b'*' ∷ []

abbrev pub closing : Bytes
closing = b'*' ∷ b'/' ∷ []

abbrev pub dashes : Bytes
dashes = b'-' ∷ b'-' ∷ []

-- A text without its comments. A block comment ends with the first closing behind its opening, a line
-- comment in front of the end of the line, and a space stands for either. What stands outside of them
-- is kept. A block comment without a closing leaves its last byte.
pub data Stripped : Bytes → Text → Type 0 where
  over : Stripped [] []
  plain :
      (a : ℕ) (s : Bytes) (t : Text)
      → starts_with (a ∷ s) opening ≡ false
      → starts_with (a ∷ s) dashes ≡ false
      → Stripped s t
      → Stripped (a ∷ s) (a ∷ t)
  block :
      (inner s : Bytes) (t : Text)
      → contains inner closing ≡ false
      → Stripped s t
      → Stripped (b'/' ∷ b'*' ∷ inner ++ b'*' ∷ b'/' ∷ s) (b' ' ∷ t)
  cut :
      (inner : Bytes) (b : ℕ)
      → contains (inner ++ b ∷ []) closing ≡ false
      → Stripped (b'/' ∷ b'*' ∷ inner ++ b ∷ []) (b' ' ∷ b ∷ [])
  cut_empty : Stripped (b'/' ∷ b'*' ∷ []) (b' ' ∷ [])
  line :
      (inner s : Bytes) (t : Text)
      → All (λ b. b ≢ b'\n') inner
      → Stripped (b'\n' ∷ s) t
      → Stripped (b'-' ∷ b'-' ∷ inner ++ b'\n' ∷ s) (b' ' ∷ t)
  last_line :
      (inner : Bytes) → All (λ b. b ≢ b'\n') inner → Stripped (b'-' ∷ b'-' ∷ inner) (b' ' ∷ [])

-- What the loop of a block comment finds.
pub data BlockEnd (s : Bytes) : Type 0 where
  closed :
      (inner rest : Bytes)
      → s ≡ inner ++ b'*' ∷ b'/' ∷ rest
      → contains inner closing ≡ false
      → skip_block s ≡ rest
      → BlockEnd s
  unclosed :
      (inner : Bytes) (b : ℕ)
      → s ≡ inner ++ b ∷ []
      → contains s closing ≡ false
      → skip_block s ≡ b ∷ []
      → BlockEnd s
  empty : s ≡ [] → skip_block s ≡ [] → BlockEnd s

contains-cons :
    (a b : ℕ) (s inner rest : Bytes)
    → b ∷ s ≡ inner ++ b'*' ∷ b'/' ∷ rest
    → (a == b'*' && b == b'/') ≡ false
    → contains inner closing ≡ false
    → contains (a ∷ inner) closing ≡ false
unfolding contains starts_with
contains-cons a b s [] rest e miss h = ground arith
contains-cons a b s (x ∷ inner) rest e miss h =
    let same : b ≡ x = head-eq_of_cons-eq e in ground (arith, same, miss, h)

pub block_end : (s : Bytes) → BlockEnd s
unfolding skip_block contains starts_with
block_end [] = empty refl refl
block_end (b ∷ []) = unclosed [] b refl (ground arith) refl
block_end (a ∷ b ∷ s) = elim (Bool-cases (a == b'*' && b == b'/')) [
  | inl hit ↦
      (let star : a ≡ b'*' = ground (arith, hit) in
        let slash : b ≡ b'/' = ground (arith, hit) in
        closed [] s (rw (star, slash) refl) refl (rw hit refl))
  | inr miss ↦ elim (block_end (b ∷ s)) [
    | closed inner rest e h skip ↦
        closed (a ∷ inner) rest (ap (λ l. a ∷ l) e) (contains-cons a b s inner rest e miss h)
          (rw miss skip)
    | unclosed inner x e h skip ↦
        unclosed (a ∷ inner) x (ap (λ l. a ∷ l) e) (ground (arith, miss, h)) (rw miss skip)
    | empty e skip ↦ absurd (cc e)
  ]
]

-- What the loop of a line comment finds.
pub data LineEnd (s : Bytes) : Type 0 where
  ended :
      (inner rest : Bytes)
      → s ≡ inner ++ b'\n' ∷ rest
      → All (λ b. b ≢ b'\n') inner
      → skip_line s ≡ b'\n' ∷ rest
      → LineEnd s
  unended : All (λ b. b ≢ b'\n') s → skip_line s ≡ [] → LineEnd s

pub line_end : (s : Bytes) → LineEnd s
unfolding skip_line
line_end [] = unended tt refl
line_end (b ∷ s) = elim (Bool-cases (b == b'\n')) [
  | inl hit ↦
      (let feed : b ≡ b'\n' = (==_iff b b'\n').0 hit in
        ended [] s (rw feed refl) tt (rw hit (rw feed refl)))
  | inr miss ↦
      (let other : b ≢ b'\n' = λ e. cc ((==_iff b b'\n').1 e, miss) in
        elim (line_end s) [
          | ended inner rest e h skip ↦
              ended (b ∷ inner) rest (ap (λ l. b ∷ l) e) (other, h) (rw miss skip)
          | unended h skip ↦ unended (other, h) (rw miss skip)
        ])
]
