-- ===== src/Tests/Source/Previews.antt =====
-- The tests of src/preview/validator.rs and src/preview/wrapper.rs.
use Prim.Native.String.{String}
use sqlgate.Prelude.{◌≡◌, refl, ℕ, zero, suc, Bool, true, not, ◌&&◌, [], ◌∷◌, ◌++◌}
use sqlgate.Text.{Text, codes, text_eq, contains}
use sqlgate.Preview.Validator.{validate_query, max_query_len}
use sqlgate.Preview.Wrapper.{wrap_query}
use sqlgate.Tests.{some_tables}
use sqlgate.Tests.Source.{is_ok, is_err_with}

-- src/preview/validator.rs
abbrev accepts : String → Bool
accepts query = is_ok (validate_query some_tables (codes query) max_query_len)

abbrev refuses_with : Text → String → Bool
refuses_with query message =
    is_err_with (λ e. contains e (codes message)) (validate_query some_tables query max_query_len)

-- `str::repeat`.
abbrev repeat : ℕ → Text → Text
repeat zero t = []
repeat (suc n) t = t ++ repeat n t

abbrev test_empty_rejected : Bool
test_empty_rejected = not (accepts "") && not (accepts "   ")

abbrev test_overlength_rejected : Bool
test_overlength_rejected =
    is_err_with (λ e. contains e (codes "exceeds maximum length"))
      (validate_query some_tables (repeat 10000 (codes "SELECT ")) 100)

abbrev test_stacked_queries_rejected : Bool
test_stacked_queries_rejected =
    refuses_with (codes "SELECT * FROM users; DROP TABLE users;") "stacked queries"

abbrev test_insert_rejected : Bool
test_insert_rejected = refuses_with (codes "INSERT INTO users VALUES (1)") "only SELECT"

abbrev test_delete_rejected : Bool
test_delete_rejected = refuses_with (codes "DELETE FROM users") "only SELECT"

abbrev test_select_accepted : Bool
test_select_accepted =
    accepts "SELECT 1"
    && (accepts "  select * from users  " && accepts "SELECT * FROM users WHERE id = 42")

abbrev test_cte_accepted : Bool
test_cte_accepted = accepts "WITH cte AS (SELECT 1) SELECT * FROM cte"

abbrev test_block_comment_stripped : Bool
test_block_comment_stripped = accepts "/* comment */SELECT 1"

abbrev test_line_comment_stripped : Bool
test_line_comment_stripped = accepts "-- comment\nSELECT 1"

validator_tests :
    test_empty_rejected ∷ test_overlength_rejected ∷ test_stacked_queries_rejected
      ∷ test_insert_rejected ∷ test_delete_rejected ∷ test_select_accepted ∷ test_cte_accepted
      ∷ test_block_comment_stripped ∷ test_line_comment_stripped ∷ []
    ≡ true ∷ true ∷ true ∷ true ∷ true ∷ true ∷ true ∷ true ∷ true ∷ []
unfolding validate_query contains
validator_tests = refl

-- src/preview/wrapper.rs
abbrev wraps : String → String → Bool
wraps query wrapped = text_eq (wrap_query (codes query)) (codes wrapped)

abbrev test_basic_wrap : Bool
test_basic_wrap = wraps "SELECT 1" "SELECT * FROM (SELECT 1) sub LIMIT 5"

abbrev test_strips_trailing_semicolon : Bool
test_strips_trailing_semicolon = wraps "SELECT 1;" "SELECT * FROM (SELECT 1) sub LIMIT 5"

abbrev test_preserves_user_limit_in_subquery : Bool
test_preserves_user_limit_in_subquery =
    wraps "SELECT * FROM users LIMIT 999999"
      "SELECT * FROM (SELECT * FROM users LIMIT 999999) sub LIMIT 5"

abbrev test_with_cte : Bool
test_with_cte =
    wraps "WITH cte AS (SELECT 1 AS n) SELECT * FROM cte"
      "SELECT * FROM (WITH cte AS (SELECT 1 AS n) SELECT * FROM cte) sub LIMIT 5"

wrapper_tests :
    test_basic_wrap ∷ test_strips_trailing_semicolon ∷ test_preserves_user_limit_in_subquery
      ∷ test_with_cte ∷ []
    ≡ true ∷ true ∷ true ∷ true ∷ []
unfolding wrap_query text_eq
wrapper_tests = refl
