-- ===== src/Threads/Server/Joining.antt =====
-- `main` waits for all threads that are not finished.
use sqlgate.Prelude.{
  ℕ, ◌<◌, ◌≡◌, refl, ap, inl, inr, Bool, true, false, not, Option, none, some, List, [], ◌∷◌, ◌++◌,
  length, all, any, retain, arith, if◌then◌else◌, Bool-cases, ◌==◌, ==_refl,
}
use sqlgate.Text.{Bytes}
use sqlgate.Db.{World}
use sqlgate.Host.{Host}
use sqlgate.Threads.{Task}
use sqlgate.Threads.Connections.{connection_task}
use sqlgate.Threads.Server.Indices.{
  IsAnswered, answered_of_finished, is_finished-append, is_finished-turn, threads_after,
}
use sqlgate.Threads.Server.Safety.{either}
use sqlgate.Threads.Server.{
  Running, Loop, checking, accepting, joining, stopped, is_checking, is_accepting, is_joining,
  is_stopped, is_finished, spawned, joined, Move, check, accept, would_block, accept_error, signal,
  turn, join, take_turn, after_turn, advance, run_server, fresh,
}

-- A thread has a handle.
abbrev is_kept : ℕ → List ℕ → Bool
is_kept k handles = any (λ j. j == k) handles

is_kept-append_left : (k : ℕ) (xs ys : List ℕ) → is_kept k xs ≡ true → is_kept k (xs ++ ys) ≡ true
is_kept-append_left k [] ys e = cc
is_kept-append_left k (x ∷ xs) ys e = ground (arith, is_kept-append_left k xs ys)

is_kept-last : (k : ℕ) (xs : List ℕ) → is_kept k (xs ++ k ∷ []) ≡ true
is_kept-last k [] = ground (arith, ==_refl k)
is_kept-last k (x ∷ xs) = ground (arith, is_kept-last k xs)

is_kept-retain :
    (p : ℕ → Bool) (k : ℕ) (xs : List ℕ)
    → p k ≡ true
    → is_kept k xs ≡ true
    → is_kept k (retain p xs) ≡ true
is_kept-retain p k [] h e = e
is_kept-retain p k (x ∷ xs) h e = elim (Bool-cases (x == k)) [
  | inl same ↦ let x≡ : x ≡ k = ground (arith, same) in rw (x≡, h, ==_refl k) refl
  | inr other ↦ ground (arith, is_kept-retain p k xs h, e, other)
]

all-is_kept :
    (p : ℕ → Bool) (k : ℕ) (xs : List ℕ) → all p xs ≡ true → is_kept k xs ≡ true → p k ≡ true
all-is_kept p k [] a e = cc
all-is_kept p k (x ∷ xs) a e = elim (Bool-cases (x == k)) [
  | inl same ↦ let x≡ : x ≡ k = ground (arith, same) in ground (arith, a, x≡)
  | inr other ↦ ground (arith, all-is_kept p k xs, a, e, other)
]

-- Each thread that is not finished has a handle, and `main` has ended only if all are finished.
pub record IsWaited (s : Running) : Type 0 where
  pub kept : (k : ℕ) → is_finished k s.threads ≡ false → is_kept k s.handles ≡ true
  pub ended : is_stopped s.loop ≡ true → (k : ℕ) → is_finished k s.threads ≡ true

-- `main` goes to another place, but not to its end.
IsWaited-loop :
    (s : Running) (l : Loop) → is_stopped l ≡ false → IsWaited s → IsWaited (record s { loop = l })
IsWaited-loop s l open_still h = record { kept = h.kept; ended = λ e k. cc }

IsWaited-spawned : (t : Task Bytes) (s : Running) → IsWaited s → IsWaited (spawned t s)
IsWaited-spawned t s h = record {
  kept = λ k e. elim (is_finished-append k s.threads t e) [
    | inl old ↦
        is_kept-append_left k (retain (λ j. not (is_finished j s.threads)) s.handles)
          (length s.threads ∷ [])
          (is_kept-retain (λ j. not (is_finished j s.threads)) k s.handles (ap not old)
            (h.kept k old))
    | inr last ↦
        rw last
          (is_kept-last (length s.threads) (retain (λ j. not (is_finished j s.threads)) s.handles))
  ];
  ended = λ e k. cc;
}

IsWaited-joined : (s : Running) → IsWaited s → IsWaited (joined s)
IsWaited-joined s h = elim (Bool-cases (all (λ k. is_finished k s.threads) s.handles)) [
  | inl finished ↦ rw finished (record {
    kept = h.kept;
    ended = λ e k. elim (Bool-cases (is_finished k s.threads)) [
      | inl here ↦ here
      | inr open_still ↦
          all-is_kept (λ j. is_finished j s.threads) k s.handles finished (h.kept k open_still)
    ];
  })
  | inr waiting ↦ rw waiting h
]

IsWaited-after_turn :
    (s : Running) (j : ℕ)
    → is_stopped s.loop ≡ false
    → IsWaited s
    → IsWaited (after_turn s (take_turn j s.threads s.history.now))
IsWaited-after_turn s j on h =
    after (take_turn j s.threads s.history.now) (λ k. is_finished-turn j k s.threads s.history.now)
  where
    after :
        (o : Option (World × List (Task Bytes)))
        → ((k : ℕ)
            → is_finished k s.threads ≡ true
            → is_finished k (threads_after s.threads o) ≡ true)
        → IsWaited (after_turn s o)
    after none stays = h
    after (some (v, ts)) stays = record {
      kept = λ k e. elim (Bool-cases (is_finished k s.threads)) [
        | inl before ↦ cc (stays k before, e)
        | inr open_still ↦ h.kept k open_still
      ];
      ended = λ e k. cc;
    }

pub either_with :
    {A : Type 0} (P : A → Type 0) (b : Bool) (t u : A)
    → (b ≡ true → P t)
    → (b ≡ false → P u)
    → P (if b then t else u)
either_with P true t u p q = p refl
either_with P false t u p q = q refl

module _ (host : Host) where
  pub advance-IsWaited : (m : Move) (s : Running) → IsWaited s → IsWaited (advance host m s)
  unfolding advance
  advance-IsWaited check s h =
      either IsWaited (is_checking s.loop) _ s
        (IsWaited-loop s (if s.running then accepting else joining)
          (either (λ l. is_stopped l ≡ false) s.running accepting joining refl refl) h)
        h
  advance-IsWaited (accept can_time stream) s h =
      either IsWaited (is_accepting s.loop) (spawned (connection_task host can_time stream) s) s
        (IsWaited-spawned (connection_task host can_time stream) s h) h
  advance-IsWaited would_block s h =
      either IsWaited (is_accepting s.loop) _ s (IsWaited-loop s checking refl h) h
  advance-IsWaited accept_error s h =
      either IsWaited (is_accepting s.loop) _ s (IsWaited-loop s joining refl h) h
  advance-IsWaited signal s h = record { kept = h.kept; ended = h.ended }
  advance-IsWaited (turn k) s h =
      either_with IsWaited (is_stopped s.loop) s
        (after_turn s (take_turn k s.threads s.history.now)) (λ over. h)
        (λ on. IsWaited-after_turn s k on h)
  advance-IsWaited join s h =
      either IsWaited (is_joining s.loop) (joined s) s (IsWaited-joined s h) h

  pub run_server-IsWaited :
      (ms : List Move) (s : Running) → IsWaited s → IsWaited (run_server host ms s)
  unfolding run_server
  run_server-IsWaited [] s h = h
  run_server-IsWaited (m ∷ ms) s h =
      run_server-IsWaited ms (advance host m s) (advance-IsWaited m s h)

  pub fresh-IsWaited : (w : World) → IsWaited (fresh w)
  fresh-IsWaited w = record { kept = λ k e. cc; ended = λ e k. refl }

  -- From the start of the server: when `main` has ended, after a signal or an error of `accept`, every
  -- connection that was accepted is answered.
  pub run_server-leaves_none :
      (w : World) (ms : List Move) (k : ℕ)
      → (run_server host ms (fresh w)).loop ≡ stopped
      → k < length (run_server host ms (fresh w)).threads
      → IsAnswered k (run_server host ms (fresh w))
  run_server-leaves_none w ms k over lt =
      let s = run_server host ms (fresh w) in
      answered_of_finished k s.threads lt
        ((run_server-IsWaited ms (fresh w) (fresh-IsWaited w)).ended (ap is_stopped over) k)
