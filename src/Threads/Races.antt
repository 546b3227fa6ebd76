-- ===== src/Threads/Races.antt =====
-- What two threads may do to each other: the handlers of src/main.rs and the pipeline of
-- src/execute/engine.rs read a status and act on it in separate calls.
pub mod Decisions
use sqlgate.Prelude.{
  ℕ, suc, ◌≡◌, refl, ◌∙◌, ap, true, false, Option, none, some, List, [], ◌∷◌, arith, ok,
}
use sqlgate.Text.{Text, Bytes, codes, text_eq}
use sqlgate.Db.{
  Uuid, Time, Status, Decision, approve, reject, rejected, approved, pending_approval, Request,
  World, find, call, fine, set_db, Sent,
}
use sqlgate.Db.Requests.{get_request, update_status, set_status}
use sqlgate.Db.Requests.Lookup.{id-find, find-set_status, with_status}
use sqlgate.Db.Frames.{requests-insert_approval}
use sqlgate.Db.Approvals.{is_approved, insert_approval}
use sqlgate.Host.{Host}
use sqlgate.Http.Response.{Response, write}
use sqlgate.Targets.{resolve_target_url}
use sqlgate.Execute.Hash.{verify_query_hash}
use sqlgate.Execute.Engine.Ready.{Accepts, and_sent, execute_postgres-success}
use sqlgate.Threads.{Task, done, ◌>>=◌}
use sqlgate.Threads.Handlers.{
  approve_task, refuse_task, reject_task, store_approval_task, store_rejection_task,
}
use sqlgate.Server.Handlers.Decide.{is_pending}
use sqlgate.Threads.Pipelines.{
  with_request_task, on_found_task, execute_on_task, execute_approved_task, execute_found_task,
  run_execute_task,
}
use sqlgate.Threads.History.{Holds}
use sqlgate.Threads.Server.{Running, accepting, Move, turn, take_turn, advance, run_server}

-- A thread that answers with what a task responds.
abbrev pub thread : Task Response → Task Bytes
thread t = t >>= λ r. done (write r)

-- The server with two threads.
abbrev pub with_two : Task Response → Task Response → World → Running
with_two t u w = record {
  running = true;
  loop = accepting;
  threads = thread t ∷ thread u ∷ [];
  handles = 0 ∷ 1 ∷ [];
  history = record { now = w; past = [] };
}

pub get_request-found :
    (host : Host) (i : Uuid) (r : Request) (w : World)
    → host.server.fault w.calls ≡ fine
    → find i w.db.requests ≡ some r
    → get_request host.server i w ≡ (ok (some r), set_db w w.db)
unfolding get_request call
get_request-found host i r w reached found = rw (get_request, call, reached, found) refl

-- An approved request that two threads can read, one after the other, and whose target then accepts
-- its text.
pub record IsReadyTwice (host : Host) (i : Uuid) (r : Request) (url : Text) (rows : ℕ) (w : World)
    : Type 0 where
  pub first : host.server.fault w.calls ≡ fine
  pub second : host.server.fault (suc w.calls) ≡ fine
  pub found : find i w.db.requests ≡ some r
  pub approval : r.status ≡ approved
  pub verified : verify_query_hash host r.query_text r.query_hash ≡ true
  pub kind : text_eq r.target_kind (codes "postgres") ≡ true
  pub resolved : resolve_target_url host r.target_db (codes "EXECUTE") ≡ some url
  pub accepts : Accepts host (suc (suc w.calls)) url r.query_text rows

module _ (host : Host) (i : Uuid) (r : Request) (url : Text) (rows : ℕ) (w : World) where
  -- If an approved request is ready for execution, and two threads execute it, of which both read its
  -- status before one of them goes on, then its text is sent to the target twice.
  pub run_server-sends_twice :
      (a b : Text)
      → IsReadyTwice host i r url rows w
      → let x : Sent = record { url = url; statement = r.query_text } in
        (run_server host
          (turn 0 ∷ turn 1 ∷ turn 0 ∷ turn 1 ∷ [])
          (with_two (run_execute_task host i a) (run_execute_task host i b) w)).history.now.sent
        ≡ x ∷ x ∷ w.sent
  unfolding run_server advance take_turn run_execute_task on_found_task execute_found_task
      execute_approved_task execute_on_task
  run_server-sends_twice a b h =
      rw
        (
          get_request-found host i r w h.first h.found,
          get_request-found host i r (set_db w w.db) h.second h.found,
          ap is_approved h.approval,
          h.verified,
          h.resolved,
          h.kind,
          execute_postgres-success host url r.query_text rows (set_db (set_db w w.db) w.db)
              h.accepts,
          execute_postgres-success host url r.query_text rows
              (and_sent (set_db (set_db w w.db) w.db) url r.query_text) h.accepts,
        )
        refl
