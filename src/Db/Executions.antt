-- ===== src/Db/Executions.antt =====
-- src/db/executions.rs
use sqlgate.Prelude.{Bool, Option, [], ◌∷◌, ◌++◌, ℤ, ok, if◌then◌else◌}
use sqlgate.Text.{Text}
use sqlgate.Db.{Uuid, Time, Db, DbResult, Server, Exec, call, foreign_key_violation, refuse}
use sqlgate.Db.Approvals.{is_known}

-- INSERT INTO executions, under the foreign key on `requests`.
unfoldable pub insert_execution_sql :
    Server → Uuid → Text → Bool → Option ℤ → Option Text → Time → Uuid → Db → DbResult Uuid × Db
insert_execution_sql server request hash matched rows error now i db =
    if is_known request db.requests
    then (
      ok i,
      record db {
        executions =
            db.executions
            ++ record {
              id = i;
              request_id = request;
              executed_query_hash = hash;
              hash_matched = matched;
              rows_affected = rows;
              error_message = error;
              created_at = now;
            }
              ∷ [];
      },
    )
    else refuse server foreign_key_violation db

unfoldable pub insert_execution :
    Server → Uuid → Text → Bool → Option ℤ → Option Text → Exec (DbResult Uuid)
insert_execution server request hash matched rows error =
    call server (insert_execution_sql server request hash matched rows error)
