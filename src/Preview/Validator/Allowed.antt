-- ===== src/Preview/Validator/Allowed.antt =====
-- What an accepted query is, in terms of the query alone.
use sqlgate.Prelude.{ℕ, ◌≤◌, ◌≡◌, ◌⊎◌, ◌↔◌, false, true, length, ok, ap}
use sqlgate.Text.{Text, CaseTables, codes, is_empty, trim, starts_with, to_uppercase}
use sqlgate.Text.Utf8.{utf8}
use sqlgate.Preview.Validator.{strip_comments, significant, validate_query}
use sqlgate.Preview.Validator.Comments.{validate_query_iff}
use sqlgate.Preview.Validator.Statements.{IsSingle, IsSingle-of_statements, statements-of_IsSingle}
use sqlgate.Preview.Validator.Stripping.{Stripped}
use sqlgate.Preview.Validator.Loop.{strip_comments-Stripped}
use sqlgate.Preview.Validator.Unique.{strip_comments-of_Stripped}

-- A text that begins a query.
abbrev pub BeginsQuery : CaseTables → Text → Type 0
BeginsQuery tables s =
    (starts_with (to_uppercase tables s) (codes "SELECT") ≡ true)
    ⊎ (starts_with (to_uppercase tables s) (codes "WITH") ≡ true)

-- What passes the validator.
pub record IsAllowed (tables : CaseTables) (query : Text) (max_len : ℕ) : Type 0 where
  pub short : length (utf8 query) ≤ max_len
  pub single : IsSingle query
  pub left : Text
  pub stripped : Stripped (utf8 (trim query)) left
  pub nonempty : is_empty (trim left) ≡ false
  pub reading : BeginsQuery tables (trim left)

-- A query is accepted exactly when it is not longer than the limit, at every semicolon one of the two
-- sides has only whitespace and semicolons, and what is left of the trimmed query without its comments
-- is, trimmed again, not empty and begins with SELECT or WITH in any case.
pub validate_query-IsAllowed :
    (tables : CaseTables) (query : Text) (max_len : ℕ)
    → (validate_query tables query max_len ≡ ok tt) ↔ IsAllowed tables query max_len
unfolding significant
validate_query-IsAllowed tables query max_len =
    let iff = validate_query_iff tables query max_len in
    (
      λ h.
          (let i = iff.0 h in
            record {
              short = i.short;
              single = IsSingle-of_statements query i.single;
              left = strip_comments (trim query);
              stripped = strip_comments-Stripped (trim query);
              nonempty = i.nonempty;
              reading = i.reading;
            }),
      λ r.
          (let same : significant query ≡ trim r.left =
              ap trim (strip_comments-of_Stripped (trim query) r.left r.stripped) in
            iff.1 (record {
              nonempty = rw same r.nonempty;
              short = r.short;
              single = statements-of_IsSingle query r.single;
              reading = rw same r.reading;
            })),
    )
