-- ===== src/Preview/Wrapper.antt =====
-- src/preview/wrapper.rs
pub mod Escape
use sqlgate.Prelude.{ℕ, ◌++◌, ◌==◌}
use sqlgate.Text.{Text, codes, trim, trim_end_matches}
use sqlgate.Text.Number.{decimal}

abbrev pub preview_limit : ℕ
preview_limit = 5

unfoldable pub clean : Text → Text
unfolding trim
clean query = trim (trim_end_matches (λ c. c == b';') (trim query))

unfoldable pub wrap_query : Text → Text
unfolding clean decimal
wrap_query query =
    codes "SELECT * FROM (" ++ (clean query ++ (codes ") sub LIMIT " ++ decimal preview_limit))
