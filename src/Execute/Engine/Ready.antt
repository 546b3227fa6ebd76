-- ===== src/Execute/Engine/Ready.antt =====
-- When an execution can succeed.
use sqlgate.Prelude.{ℕ, suc, ◌≡◌, refl, true, none, some, ◌∷◌, as_i32, ok}
use sqlgate.Text.{Text, codes, text_eq}
use sqlgate.Db.{Uuid, approved, Request, World, find, fine}
use sqlgate.Host.{Host}
use sqlgate.Targets.{resolve_target_url}
use sqlgate.Execute.Hash.{verify_query_hash}
use sqlgate.Execute.Engine.{ExecResult, in_transaction, execute_postgres}

-- A target that runs a statement and commits, at a moment.
pub record Accepts (host : Host) (moment : ℕ) (url statement : Text) (rows : ℕ) : Type 0 where
  pub connects : host.target.connect moment url ≡ none
  pub begins : host.target.batch_execute moment url (codes "BEGIN") ≡ none
  pub runs : host.target.execute moment url statement ≡ ok rows
  pub commits : host.target.batch_execute moment url (codes "COMMIT") ≡ none

abbrev pub success : ℕ → ExecResult
success rows = record {
  rows_affected = some (as_i32 rows);
  error_message = none;
  hash_matched = true;
}

abbrev pub and_sent : World → (url statement : Text) → World
and_sent w url statement = record w { sent = record { url = url; statement = statement } ∷ w.sent }

pub execute_postgres-success :
    (host : Host) (url statement : Text) (rows : ℕ) (w : World)
    → Accepts host w.calls url statement rows
    → execute_postgres host url statement w ≡ (success rows, and_sent w url statement)
unfolding execute_postgres in_transaction
execute_postgres-success host url statement rows w a =
    rw (a.connects, a.begins, a.runs, a.commits, execute_postgres, in_transaction) refl

-- An approved request with a valid hash and a configured target that accepts its text.
pub record IsReady (host : Host) (i : Uuid) (r : Request) (url : Text) (rows : ℕ) (w : World)
    : Type 0 where
  pub reached : host.server.fault w.calls ≡ fine
  pub found : find i w.db.requests ≡ some r
  pub approval : r.status ≡ approved
  pub verified : verify_query_hash host r.query_text r.query_hash ≡ true
  pub kind : text_eq r.target_kind (codes "postgres") ≡ true
  pub resolved : resolve_target_url host r.target_db (codes "EXECUTE") ≡ some url
  pub accepts : Accepts host (suc w.calls) url r.query_text rows
