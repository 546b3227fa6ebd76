-- ===== src/Threads/Server/Safety.antt =====
-- Whatever connections arrive, and in whatever order their threads take turns, the world grows by
-- events.
use sqlgate.Prelude.{
  ℕ, zero, suc, Bool, true, false, Option, none, some, List, [], ◌∷◌, all, All, All-append,
  if◌then◌else◌,
}
use sqlgate.Text.{Bytes}
use sqlgate.Db.{World}
use sqlgate.Host.{Host}
use sqlgate.Threads.{Task, done, act}
use sqlgate.Threads.Connections.{connection_task}
use sqlgate.Threads.History.{History, extend, Event, Follows, start, grow, Follows-trans}
use sqlgate.Threads.Safe.{Safe, Safe-Follows}
use sqlgate.Threads.Safe.Connections.{Safe-connection}
use sqlgate.Threads.Server.{
  Running, is_checking, is_accepting, is_joining, is_stopped, is_finished, spawned, joined, Move,
  check, accept, would_block, accept_error, signal, turn, join, take_turn, after_turn, advance,
  run_server, fresh,
}

pub either : {A : Type 0} (P : A → Type 0) (b : Bool) (t u : A) → P t → P u → P (if b then t else u)
either P true t u p q = p
either P false t u p q = q

module _ (host : Host) where
  abbrev pub AllSafe : Running → Type 0
  AllSafe s = All (Safe host s.history) s.threads

  -- What a turn leads to.
  record Turned (h : History) (v : World) (ts : List (Task Bytes)) : Type 0 where
    event : Event host h v
    safe : All (Safe host (extend h v)) ts

  others :
      (h : History) (v : World) (ts : List (Task Bytes))
      → Event host h v
      → All (Safe host h) ts
      → All (Safe host (extend h v)) ts
  others h v [] e s = tt
  others h v (t ∷ ts) e (p, s) =
      (Safe-Follows host t h (extend h v) (grow start e) p, others h v ts e s)

  abbrev Turns : History → Option (World × List (Task Bytes)) → Type 0
  Turns h none = Unit
  Turns h (some (v, ts)) = Turned h v ts

  Turns-cons :
      (h : History) (t : Task Bytes) (o : Option (World × List (Task Bytes)))
      → Safe host h t
      → Turns h o
      → Turns h (elim o [ none ↦ none | some (v, us) ↦ some (v, t ∷ us) ])
  Turns-cons h t none s p = tt
  Turns-cons h t (some (v, us)) s p = record {
    event = p.event;
    safe = (Safe-Follows host t h (extend h v) (grow start p.event) s, p.safe);
  }

  take_turn-Turns :
      (k : ℕ) (ts : List (Task Bytes)) (h : History)
      → All (Safe host h) ts
      → Turns h (take_turn k ts h.now)
  unfolding take_turn
  take_turn-Turns k [] h s = tt
  take_turn-Turns zero (done a ∷ ts) h s = tt
  take_turn-Turns zero (act f n ∷ ts) h (p, s) =
      let (event, rest) = p h start in
      record { event = event; safe = (rest, others h (f h.now) ts event s) }
  take_turn-Turns (suc k) (t ∷ ts) h (p, s) =
      Turns-cons h t (take_turn k ts h.now) p (take_turn-Turns k ts h s)

  -- A state whose threads are safe, and whose history has grown by events.
  pub record Grown (s t : Running) : Type 0 where
    pub follows : Follows host s.history t.history
    pub safe : AllSafe t

  after_turn-Grown :
      (s : Running) (o : Option (World × List (Task Bytes)))
      → AllSafe s
      → Turns s.history o
      → Grown s (after_turn s o)
  after_turn-Grown s none safe p = record { follows = start; safe = safe }
  after_turn-Grown s (some (v, ts)) safe p = record { follows = grow start p.event; safe = p.safe }

  advance-Grown : (m : Move) (s : Running) → AllSafe s → Grown s (advance host m s)
  unfolding advance
  advance-Grown check s safe =
      either (Grown s) (is_checking s.loop) _ s (record { follows = start; safe = safe })
        (record { follows = start; safe = safe })
  advance-Grown (accept can_time stream) s safe =
      either (Grown s) (is_accepting s.loop) (spawned (connection_task host can_time stream) s) s
        (record {
          follows = start;
          safe =
              All-append (Safe host s.history) s.threads (connection_task host can_time stream ∷ [])
                safe (Safe-connection host s.history can_time stream, tt);
        })
        (record { follows = start; safe = safe })
  advance-Grown would_block s safe =
      either (Grown s) (is_accepting s.loop) _ s (record { follows = start; safe = safe })
        (record { follows = start; safe = safe })
  advance-Grown accept_error s safe =
      either (Grown s) (is_accepting s.loop) _ s (record { follows = start; safe = safe })
        (record { follows = start; safe = safe })
  advance-Grown signal s safe = record { follows = start; safe = safe }
  advance-Grown (turn k) s safe =
      either (Grown s) (is_stopped s.loop) s (after_turn s (take_turn k s.threads s.history.now))
        (record { follows = start; safe = safe })
        (after_turn-Grown s (take_turn k s.threads s.history.now) safe
          (take_turn-Turns k s.threads s.history safe))
  advance-Grown join s safe =
      either (Grown s) (is_joining s.loop) (joined s) s
        (either (Grown s) (all (λ k. is_finished k s.threads) s.handles) _ s
          (record { follows = start; safe = safe }) (record { follows = start; safe = safe }))
        (record { follows = start; safe = safe })

  pub run_server-Grown : (ms : List Move) (s : Running) → AllSafe s → Grown s (run_server host ms s)
  unfolding run_server
  run_server-Grown [] s safe = record { follows = start; safe = safe }
  run_server-Grown (m ∷ ms) s safe =
      let one = advance-Grown m s safe in
      let rest = run_server-Grown ms (advance host m s) one.safe in
      record { follows = Follows-trans host one.follows rest.follows; safe = rest.safe }

  -- From its start the server's history is one of events.
  pub run_server-Follows :
      (w : World) (ms : List Move)
      → Follows host (fresh w).history (run_server host ms (fresh w)).history
  run_server-Follows w ms = (run_server-Grown ms (fresh w) tt).follows
