-- ===== src/Auth.antt =====
-- src/auth/cf_access.rs
pub mod Laws
use sqlgate.Prelude.{
  ℕ, Bool, false, ◌||◌, Option, none, some, [], ◌∷◌, if◌then◌else◌, Result, ok, err,
}
use sqlgate.Text.{Text, CaseTables, codes, text_eq, is_empty, to_lowercase, starts_with}
use sqlgate.Map.{Map, get}
use sqlgate.Http.Response.{Response, plain, internal_error}

pub record AuthenticatedUser : Type 0 where
  pub email : Text

abbrev pub email_header : Text
email_header = codes "Cf-Access-Authenticated-User-Email"

abbrev pub is_value : Option Text → Text → Bool
is_value none t = false
is_value (some s) t = text_eq s t

unfoldable pub check_email : Option Text → Result AuthenticatedUser Response
check_email none =
    err (plain 401 (codes "unauthorized: missing Cf-Access-Authenticated-User-Email"))
check_email (some e) =
    if is_empty e
    then err (plain 401 (codes "unauthorized: missing Cf-Access-Authenticated-User-Email"))
    else ok (record { email = e })

unfoldable pub authenticate :
    CaseTables → Map → (secret_header secret_value : Text) → Result AuthenticatedUser Response
unfolding check_email get to_lowercase text_eq internal_error
authenticate tables headers secret_header secret_value =
    if is_empty secret_value
    then err (internal_error (codes "server misconfiguration: tunnel secret value not set"))
    else if is_value (get (to_lowercase tables secret_header) headers) secret_value
    then check_email (get (to_lowercase tables email_header) headers)
    else err (plain 401 (codes "unauthorized: missing or invalid tunnel secret"))

unfoldable pub is_public_path : Text → Bool
unfolding text_eq starts_with
is_public_path path = text_eq path (codes "/health") || starts_with path (codes "/static/")
