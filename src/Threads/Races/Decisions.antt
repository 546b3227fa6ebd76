-- ===== src/Threads/Races/Decisions.antt =====
-- Two decisions on a request at the same time.
use sqlgate.Prelude.{ℕ, ◌≡◌, refl, ◌∙◌, ap, false, Option, none, some, List, [], ◌∷◌, arith}
use sqlgate.Text.{Text, text_eq}
use sqlgate.Db.{
  Uuid, Time, Status, Decision, approve, reject, rejected, approved, pending_approval, Request,
  World, find, call, fine, set_db,
}
use sqlgate.Db.Requests.{update_status, set_status}
use sqlgate.Db.Requests.Lookup.{id-find, find-set_status, with_status}
use sqlgate.Db.Frames.{requests-insert_approval}
use sqlgate.Db.Approvals.{insert_approval}
use sqlgate.Host.{Host}
use sqlgate.Threads.Handlers.{
  approve_task, refuse_task, reject_task, store_approval_task, store_rejection_task,
}
use sqlgate.Server.Handlers.Decide.{is_pending}
use sqlgate.Threads.Pipelines.{with_request_task, on_found_task}
use sqlgate.Threads.History.{Holds}
use sqlgate.Threads.Server.{Running, Move, turn, take_turn, advance, run_server}
use sqlgate.Threads.Races.{with_two, get_request-found}

-- A pending request of a third person, and a database that meets no fault.
pub record IsContested (host : Host) (i : Uuid) (r : Request) (by other : Text) (w : World)
    : Type 0 where
  pub no_fault : (n : ℕ) → host.server.fault n ≡ fine
  pub found : find i w.db.requests ≡ some r
  pub pending : r.status ≡ pending_approval
  pub by_other : text_eq r.requester_email by ≡ false
  pub other_too : text_eq r.requester_email other ≡ false

-- A request is stored, with that status.
abbrev pub HasStatus : Uuid → Status → World → Type 0
HasStatus i s = Holds i (λ r. r.status ≡ s)

HasStatus-update_status :
    (host : Host) (i : Uuid) (s t : Status) (w : World)
    → host.server.fault w.calls ≡ fine
    → HasStatus i t w
    → HasStatus i s (update_status host.server i s w).1
unfolding update_status call
HasStatus-update_status host i s t w reached (r, found, _) =
    let now = host.server.now w.calls in
    let e : find i (set_status s now i w.db.requests) ≡ some (with_status s now r) =
      find-set_status s now i i w.db.requests ∙ ground (arith, found, id-find i w.db.requests r) in
    rw (reached, update_status, call) (with_status s now r, e, refl)

HasStatus-insert_approval :
    (host : Host) (i : Uuid) (t : Status) (email : Text) (decision : Decision)
    (expires : Option Time) (w : World)
    → HasStatus i t w
    → HasStatus i t (insert_approval host.server i email decision expires w).1
HasStatus-insert_approval host i t email decision expires w (r, found, status) = (
  r,
  ap (find i) (requests-insert_approval host.server w i email decision expires) ∙ found,
  status,
)

-- Both threads read the request, and the second goes on until its rejection is stored.
abbrev pub rejecting : List Move
rejecting = turn 0 ∷ turn 1 ∷ turn 1 ∷ turn 1 ∷ []

-- The first goes on: its clock, its decision, its update.
abbrev pub reviving : List Move
reviving = turn 0 ∷ turn 0 ∷ turn 0 ∷ []

-- One thread approves, another rejects.
abbrev pub contest : Host → Uuid → (by other : Text) → World → Running
contest host i by other w =
    with_two (with_request_task host i "Database error: " (approve_task host by i))
      (refuse_task host other i) w

module _ (host : Host) (i : Uuid) (by other : Text) (r : Request) (w : World) where
  w₂ : World
  w₂ = set_db (set_db w w.db) w.db

  rejected_world : World
  rejected_world =
      (update_status host.server i rejected
        (insert_approval host.server i other reject none w₂).1).1

  rejected_world-HasStatus : IsContested host i r by other w → HasStatus i rejected rejected_world
  unfolding rejected_world w₂
  rejected_world-HasStatus h =
      HasStatus-update_status host i rejected pending_approval _ (h.no_fault _) (
        HasStatus-insert_approval host i pending_approval other reject none
          (set_db (set_db w w.db) w.db) (r, h.found, h.pending))

  rejects :
      IsContested host i r by other w
      → HasStatus i rejected (run_server host rejecting (contest host i by other w)).history.now
  unfolding run_server advance take_turn on_found_task approve_task reject_task store_rejection_task
      rejected_world w₂
  rejects h =
      rw
        (
          get_request-found host i r w (h.no_fault _) h.found,
          get_request-found host i r (set_db w w.db) (h.no_fault _) h.found,
          h.by_other,
          h.other_too,
          ap is_pending h.pending,
        )
        (rejected_world-HasStatus h)

  revives :
      IsContested host i r by other w
      → HasStatus i approved
          (run_server host reviving
            (run_server host rejecting (contest host i by other w))).history.now
  unfolding run_server advance take_turn on_found_task approve_task reject_task store_approval_task
      store_rejection_task rejected_world w₂
  revives h =
      rw
        (
          get_request-found host i r w (h.no_fault _) h.found,
          get_request-found host i r (set_db w w.db) (h.no_fault _) h.found,
          h.by_other,
          h.other_too,
          ap is_pending h.pending,
        )
        (HasStatus-update_status host i approved rejected _ (h.no_fault _) (
          HasStatus-insert_approval host i rejected by approve _ rejected_world
            (rejected_world-HasStatus h)))

  -- If a request is pending, two other persons decide on it at the same time, one of them by a
  -- rejection, both threads read its status before one of them stores its decision, and the database
  -- meets no fault, then the request is first rejected, and then approved.
  pub run_server-revives :
      IsContested host i r by other w
      → let rejection = run_server host rejecting (contest host i by other w) in
        HasStatus i rejected rejection.history.now
        × HasStatus i approved (run_server host reviving rejection).history.now
  run_server-revives h = (rejects h, revives h)
