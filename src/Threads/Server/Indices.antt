-- ===== src/Threads/Server/Indices.antt =====
-- The thread of an index, and what a turn makes of it.
use sqlgate.Prelude.{
  ℕ, zero, suc, ◌<◌, ◌≡◌, ◌≢◌, refl, ap, ◌⊎◌, inl, inr, true, false, Option, none, some, List, [],
  ◌∷◌, ◌++◌, length, arith,
}
use sqlgate.Text.{Bytes}
use sqlgate.Db.{World}
use sqlgate.Threads.{Task, done, act}
use sqlgate.Threads.Bounded.{Bounded, Bounded-suc}
use sqlgate.Threads.Server.{Running, take_turn, after_turn, is_finished}

-- The thread of an index.
abbrev pub thread_at : ℕ → List (Task Bytes) → Option (Task Bytes)
thread_at k [] = none
thread_at zero (t ∷ ts) = some t
thread_at (suc k) (t ∷ ts) = thread_at k ts

-- The connection of a thread has its answer.
abbrev pub IsAnswered : ℕ → Running → Type 0
IsAnswered k s = (response : Bytes) × (thread_at k s.threads ≡ some (done response))

-- The thread of an index needs at most that many turns more.
abbrev pub Needs : ℕ → ℕ → List (Task Bytes) → Type 0
Needs k n [] = ⊥
Needs zero n (t ∷ ts) = Bounded n t
Needs (suc k) n (t ∷ ts) = Needs k n ts

pub Needs-append : (k n : ℕ) (ts us : List (Task Bytes)) → Needs k n ts → Needs k n (ts ++ us)
Needs-append k n [] us b = elim b [ ]
Needs-append zero n (t ∷ ts) us b = b
Needs-append (suc k) n (t ∷ ts) us b = Needs-append k n ts us b

pub Needs-last :
    (n : ℕ) (ts : List (Task Bytes)) (t : Task Bytes)
    → Bounded n t
    → Needs (length ts) n (ts ++ t ∷ [])
Needs-last n [] t b = b
Needs-last n (x ∷ ts) t b = Needs-last n ts t b

pub answered :
    (k : ℕ) (ts : List (Task Bytes))
    → Needs k 0 ts
    → (response : Bytes) × (thread_at k ts ≡ some (done response))
answered k [] b = elim b [ ]
answered zero (done a ∷ ts) b = (a, refl)
answered zero (act e n ∷ ts) b = elim b [ ]
answered (suc k) (t ∷ ts) b = answered k ts b

-- The threads after a turn.
abbrev pub threads_after :
    List (Task Bytes) → Option (World × List (Task Bytes)) → List (Task Bytes)
threads_after ts none = ts
threads_after ts (some (v, us)) = us

pub threads_after-cons :
    (P : List (Task Bytes) → Type 0) (t : Task Bytes) (ts : List (Task Bytes))
    (o : Option (World × List (Task Bytes)))
    → P (t ∷ threads_after ts o)
    → P (threads_after (t ∷ ts) (elim o [ none ↦ none | some (v, us) ↦ some (v, t ∷ us) ]))
threads_after-cons P t ts none p = p
threads_after-cons P t ts (some (v, us)) p = p

-- A turn of another thread.
pub Needs-other :
    (j k n : ℕ) (ts : List (Task Bytes)) (w : World)
    → j ≢ k
    → Needs k n ts
    → Needs k n (threads_after ts (take_turn j ts w))
unfolding take_turn
Needs-other j k n [] w other b = b
Needs-other zero zero n (t ∷ ts) w other b = elim (other refl) [ ]
Needs-other zero (suc k) n (done a ∷ ts) w other b = b
Needs-other zero (suc k) n (act e f ∷ ts) w other b = b
Needs-other (suc j) zero n (t ∷ ts) w other b =
    threads_after-cons (Needs 0 n) t ts (take_turn j ts w) b
Needs-other (suc j) (suc k) n (t ∷ ts) w other b =
    threads_after-cons (Needs (suc k) n) t ts (take_turn j ts w)
      (Needs-other j k n ts w (λ e. other (ap suc e)) b)

-- Its own turn.
pub Needs-self :
    (k n : ℕ) (ts : List (Task Bytes)) (w : World)
    → Needs k (suc n) ts
    → Needs k n (threads_after ts (take_turn k ts w))
unfolding take_turn
Needs-self k n [] w b = elim b [ ]
Needs-self zero n (done a ∷ ts) w b = tt
Needs-self zero n (act e f ∷ ts) w b = b w
Needs-self (suc k) n (t ∷ ts) w b =
    threads_after-cons (Needs (suc k) n) t ts (take_turn k ts w) (Needs-self k n ts w b)

pub Needs-suc : (k n : ℕ) (ts : List (Task Bytes)) → Needs k n ts → Needs k (suc n) ts
Needs-suc k n [] b = b
Needs-suc zero n (t ∷ ts) b = Bounded-suc n t b
Needs-suc (suc k) n (t ∷ ts) b = Needs-suc k n ts b

pub threads-after_turn :
    (P : List (Task Bytes) → Type 0) (s : Running) (o : Option (World × List (Task Bytes)))
    → P (threads_after s.threads o)
    → P (after_turn s o).threads
threads-after_turn P s none p = p
threads-after_turn P s (some (v, ts)) p = p

-- A thread that is finished has its answer.
pub answered_of_finished :
    (k : ℕ) (ts : List (Task Bytes))
    → k < length ts
    → is_finished k ts ≡ true
    → (response : Bytes) × (thread_at k ts ≡ some (done response))
answered_of_finished k [] lt e = let no : ⊥ = omega arith in elim no [ ]
answered_of_finished zero (done a ∷ ts) lt e = (a, refl)
answered_of_finished zero (act f n ∷ ts) lt e = cc
answered_of_finished (suc k) (t ∷ ts) lt e = answered_of_finished k ts (omega arith) e

pub Needs-of_finished :
    (k n m : ℕ) (ts : List (Task Bytes)) → is_finished k ts ≡ true → Needs k n ts → Needs k m ts
Needs-of_finished k n m [] e b = b
Needs-of_finished zero n m (done a ∷ ts) e b = tt
Needs-of_finished zero n m (act f g ∷ ts) e b = cc
Needs-of_finished (suc k) n m (t ∷ ts) e b = Needs-of_finished k n m ts e b

pub is_finished-append :
    (k : ℕ) (ts : List (Task Bytes)) (t : Task Bytes)
    → is_finished k (ts ++ t ∷ []) ≡ false
    → (is_finished k ts ≡ false) ⊎ (k ≡ length ts)
is_finished-append zero [] t e = inr refl
is_finished-append (suc k) [] t e = inl e
is_finished-append zero (x ∷ ts) t e = inl e
is_finished-append (suc k) (x ∷ ts) t e = elim (is_finished-append k ts t e) [
  | inl old ↦ inl old
  | inr last ↦ inr (ap suc last)
]

-- A finished thread stays finished.
pub is_finished-turn :
    (j k : ℕ) (ts : List (Task Bytes)) (w : World)
    → is_finished k ts ≡ true
    → is_finished k (threads_after ts (take_turn j ts w)) ≡ true
unfolding take_turn
is_finished-turn j k [] w e = e
is_finished-turn zero k (done a ∷ ts) w e = e
is_finished-turn zero zero (act f n ∷ ts) w e = cc
is_finished-turn zero (suc k) (act f n ∷ ts) w e = e
is_finished-turn (suc j) zero (t ∷ ts) w e =
    threads_after-cons (λ us. is_finished 0 us ≡ true) t ts (take_turn j ts w) e
is_finished-turn (suc j) (suc k) (t ∷ ts) w e =
    threads_after-cons (λ us. is_finished (suc k) us ≡ true) t ts (take_turn j ts w)
      (is_finished-turn j k ts w e)
