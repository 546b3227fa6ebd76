-- ===== src/Targets.antt =====
-- src/targets: the connection URLs, and a preview on a Postgres target.
pub mod Resolution
use sqlgate.Prelude.{
  ℕ, Bool, true, false, not, ◌||◌, Option, none, some, List, [], ◌∷◌, ◌++◌, if◌then◌else◌, length,
  map, Result, ok, err,
}
use sqlgate.Text.{Text, codes, is_empty, text_eq, trim, to_uppercase, contains}
use sqlgate.Json.{Json, null, bool, number, string}
use sqlgate.Host.{QueryError, Cell, ResultRow, Host}

abbrev candidate : Text → Text → Text
candidate db role = codes "TARGET_" ++ (db ++ (codes "_" ++ role))

unfoldable pub first_url : Host → List Text → Option Text
unfolding trim
first_url host [] = none
first_url host (name ∷ names) = elim (host.var name) [
  | none ↦ first_url host names
  | some value ↦ if is_empty (trim value) then first_url host names else some (trim value)
]

unfoldable pub resolve_target_url : Host → (db role : Text) → Option Text
unfolding first_url to_uppercase
resolve_target_url host db role =
    first_url host (candidate (to_uppercase host.tables db) role ∷ candidate db role ∷ [])

pub record PreviewResult : Type 0 where
  pub columns : List Text
  pub rows : List (List Json)
  pub row_count : ℕ
  pub duration_ms : ℕ
  pub topology_used : Text

abbrev or_null {ℓ} : {A : Type ℓ} → (A → Json) → Option A → Json
or_null f none = null
or_null f (some a) = f a

unfoldable pub cell_value : Cell → Json
unfolding text_eq
cell_value c =
    if text_eq c.type_name (codes "int2")
      || text_eq c.type_name (codes "int4")
      || text_eq c.type_name (codes "int8")
    then or_null number c.as_i64
    else if text_eq c.type_name (codes "float4") || text_eq c.type_name (codes "float8")
    then or_null (λ j. j) c.as_f64
    else if text_eq c.type_name (codes "bool")
    then or_null bool c.as_bool
    else or_null string c.as_string

abbrev pub code_is : Option Text → Text → Bool
code_is none t = false
code_is (some c) t = text_eq c t

-- The error's text for the user; an empty message of the server counts as none.
abbrev detail : QueryError → Text
detail e = elim e.server_message [ none ↦ e.text | some m ↦ if is_empty m then e.text else m ]

unfoldable pub query_failure : QueryError → Text
unfolding text_eq contains
query_failure e =
    if code_is e.code (codes "57014")
      || contains e.text (codes "timeout")
      || contains e.text (codes "cancel")
    then codes "query timed out after 5 seconds"
    else if code_is e.code (codes "42501")
    then codes "preview role lacks permission for this query (defense in depth)"
    else codes "query failed: " ++ detail e

abbrev first_columns : List ResultRow → List Text
first_columns [] = []
first_columns (r ∷ rs) = r.columns

-- At the moment `at`: connect, set the timeout, run the wrapped query.
unfoldable pub run_preview : Host → ℕ → (url wrapped topology : Text) → Result PreviewResult Text
unfolding cell_value query_failure
run_preview host at url wrapped topology = elim (host.target.connect at url) [
  | some e ↦ err (codes "failed to connect to target: " ++ e)
  | none ↦ elim (host.target.batch_execute at url (codes "SET statement_timeout = '5s'")) [
    | some e ↦ err (codes "failed to set timeout: " ++ e)
    | none ↦ elim (host.target.query at url wrapped) [
      | err e ↦ err (query_failure e)
      | ok rows ↦ ok (record {
        columns = first_columns rows;
        rows = map (λ r. map cell_value r.cells) rows;
        row_count = length rows;
        duration_ms = host.elapsed_ms at;
        topology_used = topology;
      })
    ]
  ]
]
