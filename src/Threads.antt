-- ===== src/Threads.antt =====
-- Connections served at the same time: `thread::spawn` of src/main.rs gives each its own thread. A
-- thread is a task that acts on the world one call at a time; between two of its acts others act.
pub mod Pipelines
pub mod Handlers
pub mod Connections
pub mod Alone
pub mod History
pub mod Safe
pub mod Bounded
pub mod Server
pub mod Invariants
pub mod Races
use sqlgate.Db.{World, Exec}

-- A thread: it has its answer, or it acts on the world, and goes on by what it saw there.
pub data Task (A : Type 0) : Type 0 where
  done : A → Task A
  act : (World → World) → (World → Task A) → Task A

-- One call, which no other thread interrupts.
abbrev pub atom : {A : Type 0} → Exec A → Task A
atom m = act (λ w. (m w).1) (λ w. done (m w).0)

infixl 5 ◌>>=◌ ◌>>◌
abbrev pub ◌>>=◌ : {A B : Type 0} → Task A → (A → Task B) → Task B
done a >>= k = k a
act e n >>= k = act e (λ w. n w >>= k)

abbrev pub ◌>>◌ : {A B : Type 0} → Task A → Task B → Task B
t >> u = t >>= λ _. u

-- A task that runs with no other thread in between.
abbrev pub alone : {A : Type 0} → Task A → Exec A
alone (done a) w = (a, w)
alone (act e n) w = alone (n w) (e w)
