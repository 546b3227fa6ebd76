-- ===== src/Threads/Bounded.antt =====
-- How many acts a thread takes at most: the longest handler of src/main.rs, `approve_handler`, takes
-- eight.
pub mod Pipelines
pub mod Handlers
use sqlgate.Prelude.{ℕ, zero, suc, Bool, true, false, if◌then◌else◌}
use sqlgate.Db.{World}
use sqlgate.Threads.{Task, done, act, ◌>>=◌}

-- Whatever a task sees, it is done after that many acts.
abbrev pub Bounded : {A : Type 0} → ℕ → Task A → Type 0
Bounded n (done a) = Unit
Bounded zero (act e k) = ⊥
Bounded (suc n) (act e k) = (w : World) → Bounded n (k w)

-- The sum, which computes on its first argument.
abbrev pub plus : ℕ → ℕ → ℕ
plus zero n = n
plus (suc m) n = suc (plus m n)

pub Bounded-suc : {A : Type 0} (n : ℕ) (t : Task A) → Bounded n t → Bounded (suc n) t
Bounded-suc n (done a) b = tt
Bounded-suc zero (act e k) b = elim b [ ]
Bounded-suc (suc n) (act e k) b = λ w. Bounded-suc n (k w) (b w)

pub Bounded-more : {A : Type 0} (m n : ℕ) (t : Task A) → Bounded n t → Bounded (plus m n) t
Bounded-more zero n t b = b
Bounded-more (suc m) n t b = Bounded-suc (plus m n) t (Bounded-more m n t b)

-- The acts of two tasks, one after the other.
pub Bounded-bind :
    {A B : Type 0} (n m : ℕ) (t : Task A) (k : A → Task B)
    → Bounded n t
    → ((a : A) → Bounded m (k a))
    → Bounded (plus n m) (t >>= k)
Bounded-bind n m (done a) k b c = Bounded-more n m (k a) (c a)
Bounded-bind zero m (act e f) k b c = elim b [ ]
Bounded-bind (suc n) m (act e f) k b c = λ w. Bounded-bind n m (f w) k (b w) c

-- An answer that is only changed costs nothing.
pub Bounded-map :
    {A B : Type 0} (n : ℕ) (t : Task A) (f : A → B)
    → Bounded n t
    → Bounded n (t >>= λ a. done (f a))
Bounded-map n (done a) f b = tt
Bounded-map zero (act e k) f b = elim b [ ]
Bounded-map (suc n) (act e k) f b = λ w. Bounded-map n (k w) f (b w)

pub Bounded-if :
    {A : Type 0} (n : ℕ) (b : Bool) (t u : Task A)
    → Bounded n t
    → Bounded n u
    → Bounded n (if b then t else u)
Bounded-if n true t u p q = p
Bounded-if n false t u p q = q
