-- ===== src/Tests/Source.antt =====
-- The unit tests of the source files, on the models of what they test. A test that needs a database
-- or a socket runs on the model of it.
pub mod Access
pub mod Previews
pub mod Requests
pub mod Routes
pub mod Pages
pub mod Database
pub mod Serving
use sqlgate.Prelude.{Bool, true, false, Result, ok, err, Option, none, some}
use sqlgate.Text.{Text, text_eq}

-- `is_ok`, `is_some`, and the comparison of an optional value.
abbrev pub is_ok {ℓ κ} : {A : Type ℓ} {E : Type κ} → Result A E → Bool
is_ok (ok _) = true
is_ok (err _) = false

abbrev pub is_err_with {ℓ κ} : {A : Type ℓ} {E : Type κ} → (E → Bool) → Result A E → Bool
is_err_with p (ok _) = false
is_err_with p (err e) = p e

abbrev pub is_ok_with {ℓ κ} : {A : Type ℓ} {E : Type κ} → (A → Bool) → Result A E → Bool
is_ok_with p (ok a) = p a
is_ok_with p (err _) = false

abbrev pub is_some_with {ℓ} : {A : Type ℓ} → (A → Bool) → Option A → Bool
is_some_with p none = false
is_some_with p (some a) = p a

abbrev pub is_text : Option Text → Text → Bool
is_text none t = false
is_text (some s) t = text_eq s t
