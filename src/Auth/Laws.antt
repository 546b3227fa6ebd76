-- ===== src/Auth/Laws.antt =====
-- Who passes the check of identity.
use sqlgate.Prelude.{◌≡◌, ◌↔◌, true, false, Option, none, some, arith, if◌then◌else◌, ok, err}
use sqlgate.Text.{Text, CaseTables, is_empty, to_lowercase}
use sqlgate.Text.Equality.{text_eq_iff}
use sqlgate.Map.{Map, get}
use sqlgate.Http.Response.{Response}
use sqlgate.Auth.{AuthenticatedUser, email_header, is_value, check_email, authenticate}

-- What the headers of a user's request hold, and that a secret is configured.
pub record IsIdentified (tables : CaseTables) (headers : Map) (secret_header secret_value : Text)
    (user : AuthenticatedUser) : Type 0 where
  pub configured : is_empty secret_value ≡ false
  pub secret : get (to_lowercase tables secret_header) headers ≡ some secret_value
  pub email : get (to_lowercase tables email_header) headers ≡ some user.email
  pub nonempty : is_empty user.email ≡ false

is_value_iff : (o : Option Text) (t : Text) → (is_value o t ≡ true) ↔ (o ≡ some t)
is_value_iff none t = ground arith
is_value_iff (some s) t = ground (arith, text_eq_iff s t)

check_email_iff :
    (o : Option Text) (user : AuthenticatedUser)
    → (check_email o ≡ ok user) ↔ ((o ≡ some user.email) × (is_empty user.email ≡ false))
unfolding check_email
check_email_iff none user = ground arith
check_email_iff (some e) user = ground arith

authenticate_parts :
    (o : Option Text) (m : Option Text) (value : Text) (user : AuthenticatedUser) (a b : Response)
    → ((if is_empty value then err a else if is_value o value then check_email m else err b)
        ≡ ok user)
      ↔ ((is_empty value ≡ false)
          × (o ≡ some value)
          × (m ≡ some user.email)
          × (is_empty user.email ≡ false))
authenticate_parts o m value user a b = ground (arith, is_value_iff o value, check_email_iff m user)

-- A user is identified exactly when a secret is configured, the secret's header has that value, and
-- the header of the email address has the user's, which is not empty.
pub authenticate_iff :
    (tables : CaseTables) (headers : Map) (secret_header secret_value : Text)
    (user : AuthenticatedUser)
    → (authenticate tables headers secret_header secret_value ≡ ok user)
      ↔ IsIdentified tables headers secret_header secret_value user
unfolding authenticate
authenticate_iff tables headers secret_header secret_value user =
    let parts =
      authenticate_parts (get (to_lowercase tables secret_header) headers)
        (get (to_lowercase tables email_header) headers) secret_value user _ _ in
    (
      λ h.
          (let p = parts.0 h in
            record { configured = p.0; secret = p.1; email = p.2; nonempty = p.3 }),
      λ i. parts.1 (i.configured, i.secret, i.email, i.nonempty),
    )
