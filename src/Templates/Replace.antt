-- ===== src/Templates/Replace.antt =====
-- `str::replace` by a pattern that is not empty.
use sqlgate.Prelude.{ℕ, zero, suc, ◌-◌, [], ◌∷◌, ◌++◌, if◌then◌else◌, length}
use sqlgate.Text.{Text, starts_with}

-- From the left; `skip` characters of a match are still to be passed over.
unfoldable pub replace_from : ℕ → (pattern with_text : Text) → Text → Text
unfolding starts_with
replace_from skip p t [] = []
replace_from (suc skip) p t (c ∷ s) = replace_from skip p t s
replace_from zero p t (c ∷ s) =
    let matched = t ++ replace_from (length p - 1) p t s in
    let other = c ∷ replace_from zero p t s in if starts_with (c ∷ s) p then matched else other

unfoldable pub replace : (pattern with_text : Text) → Text → Text
unfolding replace_from
replace p t s = replace_from 0 p t s
