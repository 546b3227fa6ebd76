-- ===== src/Threads/Safe.antt =====
-- A thread is safe if each of its acts is an event, whatever the others did since its last one.
pub mod Pipelines
pub mod Execution
pub mod Handlers
pub mod Decisions
pub mod Connections
use sqlgate.Db.{World}
use sqlgate.Host.{Host}
use sqlgate.Threads.{Task, done, act, ◌>>=◌}
use sqlgate.Threads.History.{History, extend, Event, Follows, start, grow, Follows-trans}

module _ (host : Host) where
  abbrev pub Safe : {A : Type 0} → History → Task A → Type 0
  Safe h (done a) = Unit
  Safe h (act e n) =
      (g : History)
      → Follows host h g
      → Event host g (e g.now) × Safe (extend g (e g.now)) (n g.now)

  -- It stays so while others act.
  pub Safe-Follows :
      {A : Type 0} (t : Task A) (h g : History) → Follows host h g → Safe h t → Safe g t
  Safe-Follows (done a) h g f s = tt
  Safe-Follows (act e n) h g f s = λ k f'. s k (Follows-trans host f f')

  pub Safe-bind :
      {A B : Type 0} (t : Task A) (k : A → Task B) (h : History)
      → Safe h t
      → ((g : History) (a : A) → Follows host h g → Safe g (k a))
      → Safe h (t >>= k)
  Safe-bind (done a) k h s c = c h a start
  Safe-bind (act e n) k h s c = λ g f.
      let (event, rest) = s g f in
      (
        event,
        Safe-bind (n g.now) k (extend g (e g.now)) rest
            λ g' a f'. c g' a (Follows-trans host (grow f event) f'),
      )
