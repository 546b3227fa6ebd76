-- ===== src/Db/Calls.antt =====
-- What a call of the database can do: the statement takes effect, or nothing does. A reply with a
-- value means that it took effect.
use sqlgate.Prelude.{◌≡◌, ◌⊎◌, Option, arith, ok}
use sqlgate.Db.{Uuid, Time, Db, DbResult, Server, World, call, Request, find}
use sqlgate.Db.Requests.{get_request}

module _ {A : Type 0} (server : Server) (statement : Time → Uuid → Db → DbResult A × Db)
    (w : World) where
  abbrev outcome : DbResult A × Db
  outcome = statement (server.now w.calls) (server.new_id w.calls) w.db

  pub db-call :
      ((call server statement w).1.db ≡ w.db) ⊎ ((call server statement w).1.db ≡ outcome.1)
  unfolding call
  db-call = ground arith

  pub sent-call : (call server statement w).1.sent ≡ w.sent
  unfolding call
  sent-call = ground arith

  pub call-ok :
      (a : A)
      → (call server statement w).0 ≡ ok a
      → ((call server statement w).1.db ≡ outcome.1) × (outcome.0 ≡ ok a)
  unfolding call
  call-ok a h = ground arith

module _ (server : Server) (i : Uuid) (w : World) where
  pub db-get_request : (get_request server i w).1.db ≡ w.db
  unfolding get_request call
  db-get_request = ground arith

  pub sent-get_request : (get_request server i w).1.sent ≡ w.sent
  unfolding get_request call
  sent-get_request = ground arith

  -- A row that was read is the row of the table.
  pub get_request-find :
      (o : Option Request) → (get_request server i w).0 ≡ ok o → find i w.db.requests ≡ o
  unfolding get_request call
  get_request-find o h = ground arith
