-- ===== src/Workflow/Gate.antt =====
-- What the service promises, without its tables: a gate with tickets that move along the edges of
-- the life cycle, and statements that pass it. The order of the rows, the times, the hashes, the
-- previews, the recorded executions and the audit log are forgotten.
pub mod Refinement
use sqlgate.Prelude.{
  ◌≡◌, ◌≢◌, Bool, true, false, Option, none, some, List, ◌∷◌, if◌then◌else◌, ◌==◌,
}
use sqlgate.Text.{Text}
use sqlgate.Db.{
  Uuid, Status, submitted, previewed, pending_approval, approved, rejected, executed, expired,
  Request, Sent, World, find,
}
use sqlgate.Workflow.Lifecycle.{Edge}

pub record Ticket : Type 0 where
  pub requester : Text
  pub statement : Text
  pub target : Text
  pub status : Status

pub record Gate : Type 0 where
  pub tickets : Uuid → Option Ticket
  pub sent : List Sent

abbrev pub with_ticket_status : Status → Ticket → Ticket
with_ticket_status s t = record t { status = s }

-- The tickets of some are changed, whatever they were.
abbrev pub lapse_ticket : Bool → Option Ticket → Option Ticket
lapse_ticket old none = none
lapse_ticket false (some t) = some t
lapse_ticket true (some t) = some (with_ticket_status expired t)

abbrev pub Same : Gate → Gate → Type 0
Same g k = (i : Uuid) → k.tickets i ≡ g.tickets i

abbrev pub Becomes : Gate → Uuid → Ticket → Gate → Type 0
Becomes g i t k = (j : Uuid) → k.tickets j ≡ (if j == i then some t else g.tickets j)

-- A decision is made by another person than the requester.
abbrev pub Decides : Text → Ticket → Status → Type 0
Decides by t approved = by ≢ t.requester
Decides by t rejected = by ≢ t.requester
Decides by t _ = Unit

-- One step of the gate, given the URLs of the targets.
pub data Step (url : Text → Option Text) (g k : Gate) : Type 0 where
  idle : Same g k → k.sent ≡ g.sent → Step url g k
  issue :
      (i : Uuid) (t : Ticket)
      → g.tickets i ≡ none
      → t.status ≡ submitted
      → Becomes g i t k
      → k.sent ≡ g.sent
      → Step url g k
  advance :
      (i : Uuid) (t : Ticket) (s : Status) (by : Text)
      → g.tickets i ≡ some t
      → Edge t.status s
      → Decides by t s
      → Becomes g i (with_ticket_status s t) k
      → k.sent ≡ g.sent
      → Step url g k
  lapse :
      (old : Uuid → Bool)
      → ((i : Uuid) (t : Ticket) → g.tickets i ≡ some t → old i ≡ true → t.status ≡ approved)
      → ((i : Uuid) → k.tickets i ≡ lapse_ticket (old i) (g.tickets i))
      → k.sent ≡ g.sent
      → Step url g k
  pass :
      (i : Uuid) (t : Ticket) (u : Text)
      → g.tickets i ≡ some t
      → t.status ≡ approved
      → url t.target ≡ some u
      → Same g k
      → k.sent ≡ record { url = u; statement = t.statement } ∷ g.sent
      → Step url g k

pub data Run (url : Text → Option Text) (g : Gate) : Gate → Type 0 where
  stand : Run url g g
  go : {h k : Gate} → Run url g h → Step url h k → Run url g k

-- What the gate sees of the world.
abbrev pub ticket : Request → Ticket
ticket r = record {
  requester = r.requester_email;
  statement = r.query_text;
  target = r.target_db;
  status = r.status;
}

abbrev pub ticket_of : Option Request → Option Ticket
ticket_of none = none
ticket_of (some r) = some (ticket r)

abbrev pub gate : World → Gate
gate w = record { tickets = λ i. ticket_of (find i w.db.requests); sent = w.sent }
