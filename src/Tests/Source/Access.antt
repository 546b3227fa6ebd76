-- ===== src/Tests/Source/Access.antt =====
-- The tests of src/auth/cf_access.rs and src/execute/hash.rs.
use sqlgate.Prelude.{◌≡◌, refl, ℕ, Bool, true, not, ◌&&◌, [], ◌∷◌, ◌==◌}
use sqlgate.Text.{Text, codes, text_eq, to_lowercase}
use sqlgate.Text.Utf8.{utf8, utf8_char}
use sqlgate.Map
use sqlgate.Map.{Map, insert}
use sqlgate.Auth.{authenticate, is_public_path}
use sqlgate.Execute.Hash.{query_hash, verify_query_hash, constant_time_eq}
use sqlgate.Tests.{some_host, some_tables}
use sqlgate.Tests.Source.{is_ok_with, is_err_with}

-- src/auth/cf_access.rs
abbrev test_header : Text
test_header = codes "X-CF-Tunnel-Secret"

abbrev test_secret : Text
test_secret = codes "supersecret"

-- `X-CF-Tunnel-Secret` in the mapping of characters that is given.
abbrev headers_with : Text → Text → Map
headers_with email secret =
    insert (to_lowercase some_tables test_header) secret
      (insert (codes "cf-access-authenticated-user-email") email [])

abbrev is_refused : ℕ → Map → Text → Bool
is_refused status headers secret =
    is_err_with (λ r. r.status == status) (authenticate some_tables headers test_header secret)

abbrev test_valid_auth : Bool
test_valid_auth =
    is_ok_with (λ user. text_eq user.email (codes "user@example.com"))
      (authenticate some_tables (headers_with (codes "user@example.com") test_secret) test_header
        test_secret)

abbrev test_missing_tunnel_secret_rejected : Bool
test_missing_tunnel_secret_rejected =
    is_refused 401 (headers_with (codes "user@example.com") (codes "wrong")) test_secret

abbrev test_forged_email_without_tunnel_secret_rejected : Bool
test_forged_email_without_tunnel_secret_rejected =
    is_refused 401 (headers_with (codes "attacker@evil.com") (codes "wrong")) test_secret

abbrev test_missing_email_rejected : Bool
test_missing_email_rejected =
    is_refused 401 (insert (to_lowercase some_tables test_header) test_secret []) test_secret

abbrev test_empty_email_rejected : Bool
test_empty_email_rejected = is_refused 401 (headers_with [] test_secret) test_secret

abbrev test_no_secret_configured_fails_closed : Bool
test_no_secret_configured_fails_closed =
    is_refused 500 (headers_with (codes "user@example.com") (codes "anything")) []

abbrev test_public_paths : Bool
test_public_paths =
    is_public_path (codes "/health")
    && (is_public_path (codes "/static/tailwind.css")
        && (not (is_public_path (codes "/submit")) && not (is_public_path (codes "/"))))

access_tests :
    test_valid_auth ∷ test_missing_tunnel_secret_rejected
      ∷ test_forged_email_without_tunnel_secret_rejected ∷ test_missing_email_rejected
      ∷ test_empty_email_rejected ∷ test_no_secret_configured_fails_closed ∷ test_public_paths ∷ []
    ≡ true ∷ true ∷ true ∷ true ∷ true ∷ true ∷ true ∷ []
unfolding authenticate is_public_path insert to_lowercase text_eq Map.get
access_tests = refl

-- src/execute/hash.rs
abbrev test_hash_match : Bool
test_hash_match =
    verify_query_hash some_host (codes "SELECT 1") (query_hash some_host (codes "SELECT 1"))

abbrev test_hash_mismatch : Bool
test_hash_mismatch = not (verify_query_hash some_host (codes "SELECT 1") (codes "deadbeef"))

abbrev test_constant_time_eq : Bool
test_constant_time_eq =
    constant_time_eq (codes "abc") (codes "abc")
    && (not (constant_time_eq (codes "abc") (codes "abd"))
        && not (constant_time_eq (codes "abc") (codes "ab")))

hash_tests :
    test_hash_match ∷ test_hash_mismatch ∷ test_constant_time_eq ∷ [] ≡ true ∷ true ∷ true ∷ []
unfolding verify_query_hash constant_time_eq utf8 utf8_char
hash_tests = refl
