-- ===== src/Tests/Escape.antt =====
-- A query that escapes its wrapping: the validator accepts it.
use sqlgate.Prelude.{◌≡◌, refl, ok, ◌++◌}
use sqlgate.Text.{Text, codes}
use sqlgate.Preview.Validator.{validate_query, strip_comments, max_query_len}
use sqlgate.Preview.Wrapper.{clean, wrap_query}
use sqlgate.Preview.Wrapper.Escape.{strip_comments-wrap_query}
use sqlgate.Tests.{some_tables}

abbrev closing : Text
closing = codes "SELECT * FROM users) sub --"

accepted_query : validate_query some_tables closing max_query_len ≡ ok tt
unfolding validate_query
accepted_query = refl

trimmed_query : clean closing ≡ codes "SELECT * FROM users" ++ codes ") sub --"
unfolding clean
trimmed_query = refl

strip_comments-wrap_query_example :
    strip_comments (wrap_query closing)
    ≡ codes "SELECT * FROM (" ++ (codes "SELECT * FROM users" ++ codes ") sub  ")
strip_comments-wrap_query_example =
    strip_comments-wrap_query closing (codes "SELECT * FROM users") trimmed_query refl
