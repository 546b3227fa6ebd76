-- ===== src/Text/Equality.antt =====
-- Equality of texts, decided.
use sqlgate.Prelude.{◌≡◌, ◌↔◌, refl, true, false, [], ◌∷◌, arith, Bool-cases, inl, inr, ◌⊎◌, ◌≢◌}
use sqlgate.Text.{Text, text_eq}

pub eq_of_text_eq : (s t : Text) → text_eq s t ≡ true → s ≡ t
unfolding text_eq
eq_of_text_eq [] [] h = refl
eq_of_text_eq (a ∷ s) (b ∷ t) h = ground (arith, eq_of_text_eq s t)
eq_of_text_eq s t h = cc

pub text_eq_refl : (s : Text) → text_eq s s ≡ true
unfolding text_eq
text_eq_refl [] = refl
text_eq_refl (a ∷ s) = ground (arith, text_eq_refl s)

pub text_eq_iff : (s t : Text) → (text_eq s t ≡ true) ↔ (s ≡ t)
text_eq_iff s t = (eq_of_text_eq s t, λ e. rw e (text_eq_refl t))

-- To split on whether two texts are the same.
pub text_cases : (s t : Text) → ((s ≡ t) × (text_eq s t ≡ true)) ⊎ ((s ≢ t) × (text_eq s t ≡ false))
text_cases s t = elim (Bool-cases (text_eq s t)) [
  | inl e ↦ inl (eq_of_text_eq s t e, e)
  | inr e ↦ inr (λ same. cc ((text_eq_iff s t).1 same), e)
]
