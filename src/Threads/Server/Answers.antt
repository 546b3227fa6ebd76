-- ===== src/Threads/Server/Answers.antt =====
-- A thread that has its turns is answered, whatever the others do.
use sqlgate.Prelude.{
  ℕ, zero, suc, ◌≤◌, ◌≡◌, ◌≢◌, inl, inr, Bool, List, [], ◌∷◌, all, length, arith, if◌then◌else◌,
  Bool-cases, ◌==◌,
}
use sqlgate.Text.{Bytes}
use sqlgate.Db.{World}
use sqlgate.Host.{Host}
use sqlgate.Http.Request.{Stream}
use sqlgate.Threads.{Task}
use sqlgate.Threads.Connections.{connection_task}
use sqlgate.Threads.Bounded.Handlers.{Bounded-connection}
use sqlgate.Threads.Server.Indices.{
  IsAnswered, Needs, Needs-append, Needs-last, Needs-other, Needs-self, Needs-suc,
  Needs-of_finished, answered, threads-after_turn,
}
use sqlgate.Threads.Server.Joining.{
  IsWaited, either_with, advance-IsWaited, run_server-IsWaited, fresh-IsWaited,
}
use sqlgate.Threads.Server.Safety.{either}
use sqlgate.Threads.Server.{
  Running, Loop, accepting, checking, joining, stopped, is_checking, is_accepting, is_joining,
  is_stopped, is_finished, spawned, joined, Move, check, accept, would_block, accept_error, signal,
  turn, join, take_turn, after_turn, advance, run_server, fresh,
}

-- How often a sequence of moves gives a thread its turn.
abbrev pub turns : ℕ → List Move → ℕ
turns k [] = 0
turns k (turn j ∷ ms) = let rest = turns k ms in if j == k then suc rest else rest
turns k (accept can_time stream ∷ ms) = turns k ms
turns k (accept_error ∷ ms) = turns k ms
turns k (signal ∷ ms) = turns k ms
turns k (check ∷ ms) = turns k ms
turns k (would_block ∷ ms) = turns k ms
turns k (join ∷ ms) = turns k ms

one_less : ℕ → ℕ
one_less zero = zero
one_less (suc n) = n

Needs-less : (k n : ℕ) (ts : List (Task Bytes)) → Needs k n ts → Needs k (suc (one_less n)) ts
unfolding one_less
Needs-less k zero ts b = Needs-suc k 0 ts b
Needs-less k (suc n) ts b = b

less_turns : (n m : ℕ) → n ≤ suc m → one_less n ≤ m
unfolding one_less
less_turns zero m le = omega arith
less_turns (suc n) m le = omega arith

module _ (host : Host) where
  -- A turn: its own brings the thread forward, and another one does not touch it.
  Needs-turn :
      (j k n : ℕ) (s : Running)
      → IsWaited s
      → Needs k n s.threads
      → j ≢ k
      → Needs k n (advance host (turn j) s).threads
  unfolding advance
  Needs-turn j k n s h b other =
      either (λ t. Needs k n t.threads) (is_stopped s.loop) s
        (after_turn s (take_turn j s.threads s.history.now)) b
        (threads-after_turn (Needs k n) s (take_turn j s.threads s.history.now)
          (Needs-other j k n s.threads s.history.now other b))

  Needs-own :
      (k n : ℕ) (s : Running)
      → IsWaited s
      → Needs k (suc n) s.threads
      → Needs k n (advance host (turn k) s).threads
  unfolding advance
  Needs-own k n s h b =
      either_with (λ t. Needs k n t.threads) (is_stopped s.loop) s
        (after_turn s (take_turn k s.threads s.history.now))
        (λ over. Needs-of_finished k (suc n) n s.threads (h.ended over k) b)
        (λ on.
          threads-after_turn (Needs k n) s (take_turn k s.threads s.history.now)
            (Needs-self k n s.threads s.history.now b))

  Needs-accept :
      (k n : ℕ) (can_time : Bool) (stream : Stream) (s : Running)
      → Needs k n s.threads
      → Needs k n (advance host (accept can_time stream) s).threads
  unfolding advance
  Needs-accept k n can_time stream s b =
      either (λ t. Needs k n t.threads) (is_accepting s.loop)
        (spawned (connection_task host can_time stream) s) s
        (Needs-append k n s.threads (connection_task host can_time stream ∷ []) b) b

  Needs-join :
      (k n : ℕ) (s : Running) → Needs k n s.threads → Needs k n (advance host join s).threads
  unfolding advance
  Needs-join k n s b =
      either (λ t. Needs k n t.threads) (is_joining s.loop) (joined s) s
        (either (λ t. Needs k n t.threads) (all (λ j. is_finished j s.threads) s.handles)
          (record s { loop = stopped }) s b b)
        b

  -- The moves that leave the threads alone.
  Needs-stay :
      (k n : ℕ) (c : Bool) (l : Loop) (s : Running)
      → Needs k n s.threads
      → Needs k n (if c then record s { loop = l } else s).threads
  Needs-stay k n c l s b = either (λ t. Needs k n t.threads) c (record s { loop = l }) s b b

  run_server-Needs :
      (ms : List Move) (k n : ℕ) (s : Running)
      → IsWaited s
      → Needs k n s.threads
      → n ≤ turns k ms
      → IsAnswered k (run_server host ms s)
  unfolding run_server advance
  run_server-Needs [] k zero s h b le = answered k s.threads b
  run_server-Needs [] k (suc n) s h b le = let never : ⊥ = omega arith in elim never [ ]
  run_server-Needs (accept can_time stream ∷ ms) k n s h b le =
      run_server-Needs ms k n (advance host (accept can_time stream) s)
        (advance-IsWaited host (accept can_time stream) s h) (Needs-accept k n can_time stream s b)
        le
  run_server-Needs (check ∷ ms) k n s h b le =
      run_server-Needs ms k n (advance host check s) (advance-IsWaited host check s h)
        (Needs-stay k n (is_checking s.loop) (if s.running then accepting else joining) s b) le
  run_server-Needs (would_block ∷ ms) k n s h b le =
      run_server-Needs ms k n (advance host would_block s) (advance-IsWaited host would_block s h)
        (Needs-stay k n (is_accepting s.loop) checking s b) le
  run_server-Needs (accept_error ∷ ms) k n s h b le =
      run_server-Needs ms k n (advance host accept_error s) (advance-IsWaited host accept_error s h)
        (Needs-stay k n (is_accepting s.loop) joining s b) le
  run_server-Needs (signal ∷ ms) k n s h b le =
      run_server-Needs ms k n (advance host signal s) (advance-IsWaited host signal s h) b le
  run_server-Needs (join ∷ ms) k n s h b le =
      run_server-Needs ms k n (advance host join s) (advance-IsWaited host join s h)
        (Needs-join k n s b) le
  run_server-Needs (turn j ∷ ms) k n s h b le = elim (Bool-cases (j == k)) [
    | inl own ↦
        let same : j ≡ k = ground (arith, own) in
        run_server-Needs ms k (one_less n) (advance host (turn j) s)
          (advance-IsWaited host (turn j) s h)
          (rw same (Needs-own k (one_less n) s h (Needs-less k n s.threads b)))
          (less_turns n (turns k ms) (rw own at le))
    | inr other ↦
        run_server-Needs ms k n (advance host (turn j) s) (advance-IsWaited host (turn j) s h)
          (Needs-turn j k n s h b (λ e. ground (arith, other, e))) (rw other at le)
  ]

  -- From the start of the server: a connection that is accepted is answered as soon as its thread has
  -- had eight turns, whatever was before, and whatever the loop and the other threads do in between.
  pub run_server-IsAnswered :
      (w : World) (before : List Move) (can_time : Bool) (stream : Stream) (ms : List Move)
      → (run_server host before (fresh w)).loop ≡ accepting
      → 8 ≤ turns (length (run_server host before (fresh w)).threads) ms
      → IsAnswered
          (length (run_server host before (fresh w)).threads)
          (run_server host (accept can_time stream ∷ ms) (run_server host before (fresh w)))
  unfolding run_server advance
  run_server-IsAnswered w before can_time stream ms ready enough =
      let s = run_server host before (fresh w) in
      run_server-Needs ms (length s.threads) 8 (advance host (accept can_time stream) s)
        (advance-IsWaited host (accept can_time stream) s
          (run_server-IsWaited host before (fresh w) (fresh-IsWaited host w)))
        (rw ready (
          Needs-last 8 s.threads (connection_task host can_time stream)
            (Bounded-connection host can_time stream)))
        enough
