-- ===== src/Db/Requests.antt =====
-- src/db/requests.rs
pub mod Lookup
pub mod Listing
use sqlgate.Prelude.{
  ℕ, Bool, true, false, not, ◌&&◌, ◌||◌, Option, none, some, List, [], ◌∷◌, ◌++◌, ok, ltb, ◌==◌,
  if◌then◌else◌, any, retain, length, take, drop,
}
use sqlgate.Text.{Text, codes, text_eq}
use sqlgate.Db.{
  Uuid, Time, Status, submitted, status_text, Request, Db, DbResult, Server, Exec, call,
  unique_violation, check_violation, refuse, find,
}

abbrev pub is_kind : Text → Bool
is_kind k = text_eq k (codes "postgres") || text_eq k (codes "mysql")

abbrev pub is_topology : Text → Bool
is_topology t = text_eq t (codes "primary") || text_eq t (codes "replica")

-- INSERT INTO requests, under the constraints CHECK, PRIMARY KEY and UNIQUE (query_hash).
unfoldable pub insert_request_sql :
    Server → (text hash kind database topology email : Text) → Time → Uuid → Db → DbResult Uuid × Db
insert_request_sql server text hash kind database topology email now i db =
    if not (is_kind kind && is_topology topology)
    then refuse server check_violation db
    else if any (λ r. r.id == i || text_eq r.query_hash hash) db.requests
    then refuse server unique_violation db
    else (
      ok i,
      record db {
        requests =
            db.requests
            ++ record {
              id = i;
              query_text = text;
              query_hash = hash;
              target_kind = kind;
              target_db = database;
              target_topology = topology;
              requester_email = email;
              status = submitted;
              created_at = now;
              updated_at = now;
            }
              ∷ [];
      },
    )

unfoldable pub insert_request :
    Server → (text hash kind database topology email : Text) → Exec (DbResult Uuid)
insert_request server text hash kind database topology email =
    call server (insert_request_sql server text hash kind database topology email)

-- SELECT … WHERE id = $1
abbrev pub get_request_sql : Uuid → Time → Uuid → Db → DbResult (Option Request) × Db
get_request_sql i now _ db = (ok (find i db.requests), db)

unfoldable pub get_request : Server → Uuid → Exec (DbResult (Option Request))
get_request server i = call server (get_request_sql i)

-- ORDER BY created_at DESC: insertion into a sorted list, rows of one instant in table order.
unfoldable pub insert_by_latest : Request → List Request → List Request
insert_by_latest r [] = r ∷ []
insert_by_latest r (x ∷ xs) =
    let later = x ∷ insert_by_latest r xs in
    if ltb r.created_at x.created_at then later else r ∷ x ∷ xs

unfoldable pub sort_latest : List Request → List Request
unfolding insert_by_latest
sort_latest [] = []
sort_latest (r ∷ rs) = insert_by_latest r (sort_latest rs)

-- WHERE status = $1, where there is a filter.
unfoldable pub matches_filter : Option Text → Request → Bool
matches_filter none r = true
matches_filter (some status) r = text_eq (status_text r.status) status

-- ORDER BY created_at DESC LIMIT limit OFFSET offset
unfoldable pub select_requests : Option Text → (limit offset : ℕ) → List Request → List Request
unfolding sort_latest matches_filter
select_requests filter limit offset rows =
    take limit (drop offset (sort_latest (retain (matches_filter filter) rows)))

abbrev pub list_requests_sql :
    Option Text → (limit offset : ℕ) → Time → Uuid → Db → DbResult (List Request) × Db
list_requests_sql filter limit offset now _ db =
    (ok (select_requests filter limit offset db.requests), db)

unfoldable pub list_requests :
    Server → Option Text → (limit offset : ℕ) → Exec (DbResult (List Request))
list_requests server filter limit offset = call server (list_requests_sql filter limit offset)

unfoldable pub set_status : Status → Time → Uuid → List Request → List Request
set_status status now i [] = []
set_status status now i (r ∷ rs) =
    (if r.id == i then record r { status = status; updated_at = now } else r)
    ∷ set_status status now i rs

-- UPDATE requests SET status = $1, updated_at = now() WHERE id = $2; the number of rows comes back.
abbrev pub update_status_sql : Uuid → Status → Time → Uuid → Db → DbResult ℕ × Db
update_status_sql i status now _ db = (
  ok (length (retain (λ r. r.id == i) db.requests)),
  record db { requests = set_status status now i db.requests },
)

unfoldable pub update_status : Server → Uuid → Status → Exec (DbResult ℕ)
update_status server i status = call server (update_status_sql i status)
