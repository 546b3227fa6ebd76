-- ===== src/Text/Blank.antt =====
-- `trim` and `split` on texts that are blank, and on texts put together.
use sqlgate.Prelude.{
  ℕ, ◌≡◌, ◌⊎◌, refl, ◌∙◌, ap, Bool, true, false, ◌&&◌, List, [], ◌∷◌, ◌++◌, arith, all, ◌==◌,
  ==_iff, Bool-cases, inl, inr,
}
use sqlgate.Text.{
  Text, is_empty, is_whitespace, trim, trim_start_matches, trim_end_matches, keep_unless, split,
  onto_first,
}

module _ (p : ℕ → Bool) where
  is_empty-keep_unless :
      (b : Bool) (c : ℕ) (s : Text) → is_empty (keep_unless b c s) ≡ b && is_empty s
  unfolding keep_unless
  is_empty-keep_unless true c [] = refl
  is_empty-keep_unless false c [] = refl
  is_empty-keep_unless true c (d ∷ s) = refl
  is_empty-keep_unless false c (d ∷ s) = refl

  is_empty-trim_end_matches : (s : Text) → is_empty (trim_end_matches p s) ≡ all p s
  unfolding trim_end_matches
  is_empty-trim_end_matches [] = refl
  is_empty-trim_end_matches (c ∷ s) =
      is_empty-keep_unless (p c) c (trim_end_matches p s)
      ∙ ap (λ b. p c && b) (is_empty-trim_end_matches s)

  all-trim_start_matches : (s : Text) → all p (trim_start_matches p s) ≡ all p s
  unfolding trim_start_matches
  all-trim_start_matches [] = refl
  all-trim_start_matches (c ∷ s) = ground (arith, all-trim_start_matches s)

pub is_empty-trim : (s : Text) → is_empty (trim s) ≡ all is_whitespace s
unfolding trim
is_empty-trim s =
    is_empty-trim_end_matches is_whitespace (trim_start_matches is_whitespace s)
    ∙ all-trim_start_matches is_whitespace s

-- The parts of a text are never none.
pub split-parts :
    (sep : ℕ) (s : Text) → (part : Text) × (parts : List Text) × (split sep s ≡ part ∷ parts)
unfolding split
split-parts sep [] = ([], [], refl)
split-parts sep (c ∷ s) =
    let (part, parts, e) = split-parts sep s in
    elim (Bool-cases (c == sep)) [
      | inl hit ↦ ([], split sep s, rw hit refl)
      | inr miss ↦ (c ∷ part, parts, rw (miss, e) refl)
    ]

pub split-sep : (sep c : ℕ) (s : Text) → (c == sep) ≡ true → split sep (c ∷ s) ≡ [] ∷ split sep s
unfolding split
split-sep sep c s hit = rw hit refl

pub split-other :
    (sep c : ℕ) (s part : Text) (parts : List Text)
    → (c == sep) ≡ false
    → split sep s ≡ part ∷ parts
    → split sep (c ∷ s) ≡ (c ∷ part) ∷ parts
unfolding split onto_first
split-other sep c s part parts miss e = rw (miss, e) refl

pub split-append : (sep : ℕ) (s t : Text) → split sep (s ++ sep ∷ t) ≡ split sep s ++ split sep t
unfolding split
split-append sep [] t = split-sep sep sep t (ground arith)
split-append sep (c ∷ s) t = elim (Bool-cases (c == sep)) [
  | inl hit ↦
      rw (split-sep sep c (s ++ sep ∷ t) hit, split-sep sep c s hit, split-append sep s t) refl
  | inr miss ↦
      (let (part, parts, e) = split-parts sep s in
        rw (split-other sep c s part parts miss e) (
          split-other sep c (s ++ sep ∷ t) part (parts ++ split sep t) miss
            (rw e at (split-append sep s t))))
]

-- A text is split at the first occurrence of the separator, if there is one.
pub split-first :
    (sep : ℕ) (s : Text)
    → (split sep s ≡ s ∷ []) ⊎ ((a b : Text) × (s ≡ a ++ sep ∷ b) × (split sep s ≡ a ∷ split sep b))
unfolding split
split-first sep [] = inl refl
split-first sep (c ∷ s) = elim (Bool-cases (c == sep)) [
  | inl hit ↦ inr ([], s, ap (λ x. x ∷ s) ((==_iff c sep).0 hit), split-sep sep c s hit)
  | inr miss ↦ elim (split-first sep s) [
    | inl none_left ↦ inl (split-other sep c s s [] miss none_left)
    | inr (a, b, parts, e) ↦
        inr (c ∷ a, b, ap (λ l. c ∷ l) parts, split-other sep c s a (split sep b) miss e)
  ]
]
