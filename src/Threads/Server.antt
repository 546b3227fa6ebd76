-- ===== src/Threads/Server.antt =====
-- The accept loop of `main` in src/main.rs: a thread for each connection that is accepted, and the
-- threads taking turns in any order.
pub mod Safety
pub mod Indices
pub mod Joining
pub mod Answers
use sqlgate.Prelude.{
  not, length, retain, all, ℕ, zero, suc, Bool, true, false, Option, none, some, List, [], ◌∷◌,
  ◌++◌, if◌then◌else◌,
}
use sqlgate.Text.{Bytes}
use sqlgate.Db.{World}
use sqlgate.Host.{Host}
use sqlgate.Http.Request.{Stream}
use sqlgate.Threads.{Task, done, act}
use sqlgate.Threads.Connections.{connection_task}
use sqlgate.Threads.History.{History, extend}

-- Where `main` is: at the test of `RUNNING`, at `accept`, waiting for its threads, or at its end.
pub data Loop : Type 0 where
  checking accepting joining stopped : Loop

abbrev pub is_checking : Loop → Bool
is_checking checking = true
is_checking _ = false

abbrev pub is_accepting : Loop → Bool
is_accepting accepting = true
is_accepting _ = false

abbrev pub is_joining : Loop → Bool
is_joining joining = true
is_joining _ = false

abbrev pub is_stopped : Loop → Bool
is_stopped stopped = true
is_stopped _ = false

-- `RUNNING`, the place in `main`, the threads in the order of their connections, the threads whose
-- handles `main` keeps, and the world.
pub record Running : Type 0 where
  pub running : Bool
  pub loop : Loop
  pub threads : List (Task Bytes)
  pub handles : List ℕ
  pub history : History

-- The loop tests `RUNNING`; `accept` gives a connection, has none, or fails; a signal comes; a thread
-- has its turn; `main` has joined its threads.
pub data Move : Type 0 where
  check : Move
  accept : (can_time : Bool) → Stream → Move
  would_block : Move
  accept_error : Move
  signal : Move
  turn : ℕ → Move
  join : Move

-- What the thread of an index does, if there is one that is not finished.
unfoldable pub take_turn : ℕ → List (Task Bytes) → World → Option (World × List (Task Bytes))
take_turn k [] w = none
take_turn zero (done a ∷ ts) w = none
take_turn zero (act e n ∷ ts) w = some (e w, n w ∷ ts)
take_turn (suc k) (t ∷ ts) w = elim (take_turn k ts w) [
  | none ↦ none
  | some (v, us) ↦ some (v, t ∷ us)
]

abbrev pub after_turn : Running → Option (World × List (Task Bytes)) → Running
after_turn s none = s
after_turn s (some (v, ts)) = record s { threads = ts; history = extend s.history v }

abbrev pub is_done : Task Bytes → Bool
is_done (done a) = true
is_done (act e n) = false

-- `JoinHandle::is_finished`.
abbrev pub is_finished : ℕ → List (Task Bytes) → Bool
is_finished k [] = true
is_finished zero (t ∷ ts) = is_done t
is_finished (suc k) (t ∷ ts) = is_finished k ts

-- The handles of the finished threads are dropped before the new one is kept.
abbrev pub spawned : Task Bytes → Running → Running
spawned t s = record s {
  loop = checking;
  threads = s.threads ++ t ∷ [];
  handles = retain (λ k. not (is_finished k s.threads)) s.handles ++ length s.threads ∷ [];
}

-- `main` ends when all threads that it has handles of are finished.
abbrev pub joined : Running → Running
joined s = if all (λ k. is_finished k s.threads) s.handles then record s { loop = stopped } else s

-- A move that `main` is not at does nothing, and no thread survives `main`.
unfoldable pub advance : Host → Move → Running → Running
unfolding take_turn
advance host check s =
    if is_checking s.loop then record s { loop = if s.running then accepting else joining } else s
advance host (accept can_time stream) s =
    if is_accepting s.loop then spawned (connection_task host can_time stream) s else s
advance host would_block s = if is_accepting s.loop then record s { loop = checking } else s
advance host accept_error s = if is_accepting s.loop then record s { loop = joining } else s
advance host signal s = record s { running = false }
advance host (turn k) s =
    if is_stopped s.loop then s else after_turn s (take_turn k s.threads s.history.now)
advance host join s = if is_joining s.loop then joined s else s

unfoldable pub run_server : Host → List Move → Running → Running
unfolding advance
run_server host [] s = s
run_server host (m ∷ ms) s = run_server host ms (advance host m s)

-- The server when it starts to accept.
abbrev pub fresh : World → Running
fresh w = record {
  running = true;
  loop = checking;
  threads = [];
  handles = [];
  history = record { now = w; past = [] };
}
