-- ===== src/Db/Previews.antt =====
-- src/db/previews.rs
use sqlgate.Prelude.{ℕ, [], ◌∷◌, ◌++◌, ℤ, as_i32, ok, if◌then◌else◌}
use sqlgate.Json.{Json}
use sqlgate.Db.{Uuid, Time, Db, DbResult, Server, Exec, call, foreign_key_violation, refuse}
use sqlgate.Db.Approvals.{is_known}

-- INSERT INTO previews, under the foreign key on `requests`.
unfoldable pub insert_preview_sql :
    Server → Uuid → Json → ℕ → ℤ → Time → Uuid → Db → DbResult Uuid × Db
insert_preview_sql server request json rows duration now i db =
    if is_known request db.requests
    then (
      ok i,
      record db {
        previews =
            db.previews
            ++ record {
              id = i;
              request_id = request;
              preview_json = json;
              row_count = as_i32 rows;
              duration_ms = duration;
            }
              ∷ [];
      },
    )
    else refuse server foreign_key_violation db

unfoldable pub insert_preview : Server → Uuid → Json → ℕ → ℤ → Exec (DbResult Uuid)
insert_preview server request json rows duration =
    call server (insert_preview_sql server request json rows duration)
