-- ===== src/Preview/Validator/Statements.antt =====
-- The test for stacked queries.
use sqlgate.Prelude.{
  ℕ, zero, suc, ◌+◌, ◌≤◌, ◌≡◌, ◌⊎◌, refl, sym, ◌∙◌, ap, Bool, true, false, not, ◌||◌, List, [], ◌∷◌,
  ◌++◌, arith, all, ◌==◌, Bool-cases, inl, inr, length, length-append, retain, map,
}
use sqlgate.Text.{Text, is_empty, is_whitespace, trim, split}
use sqlgate.Text.Blank.{
  is_empty-trim, split-parts, split-sep, split-other, split-append, split-first,
}
use sqlgate.Preview.Validator.{statements}

-- A character between statements.
abbrev pub is_gap : ℕ → Bool
is_gap c = c == b';' || is_whitespace c

-- The parts of a text that are not blank.
abbrev inked : List Text → List Text
inked parts = retain (λ s. not (all is_whitespace s)) parts

length-statements_of :
    (parts : List Text)
    → length (retain (λ s. not (is_empty s)) (map trim parts)) ≡ length (inked parts)
length-statements_of [] = refl
length-statements_of (s ∷ parts) = elim (Bool-cases (all is_whitespace s)) [
  | inl blank ↦ rw (is_empty-trim s, blank) (length-statements_of parts)
  | inr ink ↦ rw (is_empty-trim s, ink) (ap suc (length-statements_of parts))
]

-- The number of parts that are not blank.
abbrev count : Text → ℕ
count s = length (inked (split b';' s))

length-statements : (s : Text) → length (statements s) ≡ count s
unfolding statements
length-statements s = length-statements_of (split b';' s)

retain-append {ℓ} :
    {A : Type ℓ} (p : A → Bool) (xs ys : List A) → retain p (xs ++ ys) ≡ retain p xs ++ retain p ys
retain-append p [] ys = refl
retain-append p (x ∷ xs) ys = elim (Bool-cases (p x)) [
  | inl kept ↦ rw kept (ap (λ l. x ∷ l) (retain-append p xs ys))
  | inr dropped ↦ rw dropped (retain-append p xs ys)
]

count-append : (a b : Text) → count (a ++ b';' ∷ b) ≡ count a + count b
count-append a b =
    rw
      (
        split-append b';' a b,
        retain-append (λ s. not (all is_whitespace s)) (split b';' a) (split b';' b),
      )
      (length-append (inked (split b';' a)) (inked (split b';' b)))

count-sep : (c : ℕ) (s : Text) → (c == b';') ≡ true → count (c ∷ s) ≡ count s
count-sep c s hit = rw (split-sep b';' c s hit) refl

module _ (c : ℕ) (s part : Text) (parts : List Text) (miss : (c == b';') ≡ false)
    (e : split b';' s ≡ part ∷ parts) where
  count-blank : is_whitespace c ≡ true → count (c ∷ s) ≡ count s
  count-blank blank = elim (Bool-cases (all is_whitespace part)) [
    | inl white ↦ rw (split-other b';' c s part parts miss e, e, blank, white) refl
    | inr ink ↦ rw (split-other b';' c s part parts miss e, e, blank, ink) refl
  ]

  count-ink : is_whitespace c ≡ false → count (c ∷ s) ≡ suc (length (inked parts))
  count-ink ink = rw (split-other b';' c s part parts miss e, ink) refl

-- A text without statements has gaps only.
gap_of_count : (s : Text) → count s ≡ 0 → all is_gap s ≡ true
gap_of_count [] h = refl
gap_of_count (c ∷ s) h = elim (Bool-cases (c == b';')) [
  | inl hit ↦ rw hit (gap_of_count s (sym (count-sep c s hit) ∙ h))
  | inr miss ↦
      (let (part, parts, e) = split-parts b';' s in
        elim (Bool-cases (is_whitespace c)) [
          | inl blank ↦
              rw (miss, blank) (gap_of_count s (sym (count-blank c s part parts miss e blank) ∙ h))
          | inr ink ↦ absurd (omega (arith, count-ink c s part parts miss e ink, h))
        ])
]

count_of_gap : (s : Text) → all is_gap s ≡ true → count s ≡ 0
unfolding split
count_of_gap [] h = refl
count_of_gap (c ∷ s) h = elim (Bool-cases (c == b';')) [
  | inl hit ↦ count-sep c s hit ∙ count_of_gap s (rw hit at h)
  | inr miss ↦
      (let (part, parts, e) = split-parts b';' s in
        elim (Bool-cases (is_whitespace c)) [
          | inl blank ↦
              count-blank c s part parts miss e blank ∙ count_of_gap s (rw (miss, blank) at h)
          | inr ink ↦ absurd (ground (arith, h))
        ])
]

-- Two statements stand on two sides of a semicolon.
cut_of_count :
    (s : Text) → 2 ≤ count s → (a b : Text) × (s ≡ a ++ b';' ∷ b) × (1 ≤ count a) × (1 ≤ count b)
unfolding split
cut_of_count [] h = absurd (omega (arith, h))
cut_of_count (c ∷ s) h = elim (Bool-cases (c == b';')) [
  | inl hit ↦
      (let (a, b, e, p, q) = cut_of_count s (omega (arith, count-sep c s hit, h)) in
        (c ∷ a, b, ap (λ l. c ∷ l) e, omega (arith, count-sep c a hit, p), q))
  | inr miss ↦ elim (Bool-cases (is_whitespace c)) [
    | inl blank ↦
        (let (part, parts, e) = split-parts b';' s in
          let (a, b, f, p, q) =
            cut_of_count s (omega (arith, count-blank c s part parts miss e blank, h)) in
          let (part', parts', e') = split-parts b';' a in
          (
            c ∷ a,
            b,
            ap (λ l. c ∷ l) f,
            omega (arith, count-blank c a part' parts' miss e' blank, p),
            q,
          ))
    | inr ink ↦ elim (split-first b';' s) [
      | inl whole ↦ absurd (omega (arith, count-ink c s s [] miss whole ink, h))
      | inr (a, b, f, e) ↦
          (let (part', parts', e') = split-parts b';' a in
            (
              c ∷ a,
              b,
              ap (λ l. c ∷ l) f,
              omega (arith, count-ink c a part' parts' miss e' ink),
              omega (arith, count-ink c s a (split b';' b) miss e ink, h),
            ))
    ]
  ]
]

zero_or_more : (n : ℕ) → (n ≡ 0) ⊎ (1 ≤ n)
zero_or_more zero = inl refl
zero_or_more (suc n) = inr (omega arith)

one_or_more : (n : ℕ) → (n ≤ 1) ⊎ (2 ≤ n)
one_or_more zero = inl (omega arith)
one_or_more (suc n) = elim (zero_or_more n) [
  | inl e ↦ inl (omega (arith, e))
  | inr p ↦ inr (omega (arith, p))
]

-- At every semicolon of the text, one of the two sides is gaps only.
abbrev pub IsSingle : Text → Type 0
IsSingle s = (a b : Text) → s ≡ a ++ b';' ∷ b → (all is_gap a ≡ true) ⊎ (all is_gap b ≡ true)

pub IsSingle-of_statements : (s : Text) → length (statements s) ≤ 1 → IsSingle s
IsSingle-of_statements s h a b e =
    let total : count s ≡ count a + count b = ap count e ∙ count-append a b in
    elim (zero_or_more (count a)) [
      | inl none_left ↦ inl (gap_of_count a none_left)
      | inr one ↦ inr (gap_of_count b (omega (arith, total, one, length-statements s, h)))
    ]

pub statements-of_IsSingle : (s : Text) → IsSingle s → length (statements s) ≤ 1
statements-of_IsSingle s single = elim (one_or_more (length (statements s))) [
  | inl few ↦ few
  | inr many ↦
      (let (a, b, e, p, q) = cut_of_count s (omega (arith, many, length-statements s)) in
        elim (single a b e) [
          | inl gap ↦ absurd (omega (arith, count_of_gap a gap, p))
          | inr gap ↦ absurd (omega (arith, count_of_gap b gap, q))
        ])
]
