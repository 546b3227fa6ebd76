-- ===== src/Workflow/Lifecycle.antt =====
-- The life of a request: what may become of a stored row, whatever happens.
use sqlgate.Prelude.{
  ◌≡◌, sym, ◌∙◌, ap, inl, inr, true, some, List, [], ◌∷◌, ◌++◌, arith, ◌==◌, Bool-cases, ==_iff,
}
use sqlgate.Text.{Text}
use sqlgate.Db.{
  Uuid, Time, Status, submitted, previewed, pending_approval, approved, rejected, executed, expired,
  Approval, Request, Db, World, find,
}
use sqlgate.Db.Requests.{set_status}
use sqlgate.Db.Requests.Lookup.{
  with_status, find-append, find-set_status, find-expire_rows, id-find,
}
use sqlgate.Db.Approvals.{expires_now, expire_rows}
use sqlgate.Host.{Host}
use sqlgate.Http.Request.{Stream}
use sqlgate.Workflow.{
  Permitted, Change, stay, submit, move, expire, decide, run, show, log, send, Steps, Steps-fold,
}
use sqlgate.Workflow.Connections.{serve_all, serve_all-Steps}

-- The edges of the life cycle.
pub data Edge : Status → Status → Type 0 where
  preview : Edge submitted previewed
  ask : Edge previewed pending_approval
  accept : Edge pending_approval approved
  refuse : Edge pending_approval rejected
  execute : Edge approved executed
  lapse : Edge approved expired

pub data Reaches (s : Status) : Status → Type 0 where
  stop : Reaches s s
  step : {t u : Status} → Reaches s t → Edge t u → Reaches s u

Reaches-trans : {s t u : Status} → Reaches s t → Reaches t u → Reaches s u
Reaches-trans p stop = p
Reaches-trans p (step q e) = step (Reaches-trans p q) e

-- All that a row keeps for ever.
pub record IsSameRequest (r s : Request) : Type 0 where
  pub id : r.id ≡ s.id
  pub query_text : r.query_text ≡ s.query_text
  pub query_hash : r.query_hash ≡ s.query_hash
  pub target_kind : r.target_kind ≡ s.target_kind
  pub target_db : r.target_db ≡ s.target_db
  pub target_topology : r.target_topology ≡ s.target_topology
  pub requester_email : r.requester_email ≡ s.requester_email
  pub created_at : r.created_at ≡ s.created_at

IsSameRequest-refl : (r : Request) → IsSameRequest r r
IsSameRequest-refl r = ground arith

IsSameRequest-trans : (r s t : Request) → IsSameRequest r s → IsSameRequest s t → IsSameRequest r t
IsSameRequest-trans r s t a b = ground arith

-- A row of the first table is in the second, the same but for its status, which has moved along
-- edges, and its time of change.
pub record Later (r : Request) (i : Uuid) (rows : List Request) : Type 0 where
  pub row : Request
  pub found : find i rows ≡ some row
  pub same : IsSameRequest r row
  pub path : Reaches r.status row.status

abbrev pub Evolves : List Request → List Request → Type 0
Evolves rows rows' = (i : Uuid) (r : Request) → find i rows ≡ some r → Later r i rows'

Evolves-refl : (rows : List Request) → Evolves rows rows
Evolves-refl rows i r found = record {
  row = r;
  found = found;
  same = IsSameRequest-refl r;
  path = stop;
}

Evolves-trans : (a b c : List Request) → Evolves a b → Evolves b c → Evolves a c
Evolves-trans a b c p q i r found =
    let s = p i r found in
    let t = q i s.row s.found in
    record {
      row = t.row;
      found = t.found;
      same = IsSameRequest-trans r s.row t.row s.same t.same;
      path = Reaches-trans s.path t.path;
    }

pub Edge_of_Permitted : (by : Text) (r : Request) (s : Status) → Permitted by r s → Edge r.status s
Edge_of_Permitted by r submitted p = absurd p
Edge_of_Permitted by r previewed p = rw p preview
Edge_of_Permitted by r pending_approval p = rw p ask
Edge_of_Permitted by r approved p = rw p.0 accept
Edge_of_Permitted by r rejected p = rw p.0 refuse
Edge_of_Permitted by r executed p = rw p execute
Edge_of_Permitted by r expired p = absurd p

Evolves-append : (rows : List Request) (x : Request) → Evolves rows (rows ++ x ∷ [])
Evolves-append rows x i r h = record {
  row = r;
  found = find-append i rows (x ∷ []) ∙ rw h;
  same = IsSameRequest-refl r;
  path = stop;
}

Later-with_status :
    (r : Request) (i : Uuid) (rows : List Request) (s : Status) (now : Time)
    → find i rows ≡ some (with_status s now r)
    → Edge r.status s
    → Later r i rows
Later-with_status r i rows s now found edge = record {
  row = with_status s now r;
  found = found;
  same = ground arith;
  path = step stop edge;
}

Evolves-set_status :
    (by : Text) (i : Uuid) (r : Request) (s : Status) (now : Time) (rows : List Request)
    → find i rows ≡ some r
    → Permitted by r s
    → Evolves rows (set_status s now i rows)
Evolves-set_status by i r s now rows present permitted j x found = elim (Bool-cases (x.id == i)) [
  | inl same ↦
      let j≡i = sym (id-find j rows x found) ∙ (==_iff x.id i).0 same in
      let x≡r : x ≡ r = cc (found, present, ap (λ k. find k rows) j≡i) in
      Later-with_status x j _ s now (find-set_status s now i j rows ∙ rw (found, same))
        (Edge_of_Permitted by x s (rw x≡r permitted))
  | inr other ↦ record {
    row = x;
    found = find-set_status s now i j rows ∙ rw (found, other);
    same = IsSameRequest-refl x;
    path = stop;
  }
]

pub approved_of_expires_now :
    (now : Time) (approvals : List Approval) (r : Request)
    → expires_now now approvals r ≡ true
    → r.status ≡ approved
approved_of_expires_now now approvals r h = ground arith

Evolves-expire_rows :
    (now : Time) (approvals : List Approval) (rows : List Request)
    → Evolves rows (expire_rows now approvals rows)
Evolves-expire_rows now approvals rows j x found = elim (Bool-cases (expires_now now approvals x)) [
  | inl stale ↦
      Later-with_status x j _ expired now
        (find-expire_rows now approvals j rows ∙ rw (found, stale))
        (rw (approved_of_expires_now now approvals x stale) lapse)
  | inr fresh ↦ record {
    row = x;
    found = find-expire_rows now approvals j rows ∙ rw (found, fresh);
    same = IsSameRequest-refl x;
    path = stop;
  }
]

abbrev WorldEvolves : World → World → Type 0
WorldEvolves w v = Evolves w.db.requests v.db.requests

-- To carry a fact about the rows along an equation of the tables.
Evolves-along :
    (w v : World) (d : Db) → v.db ≡ d → Evolves w.db.requests d.requests → WorldEvolves w v
Evolves-along w v d e h = rw e h

Change-Evolves : (host : Host) (w v : World) → Change host w v → WorldEvolves w v
Change-Evolves host w v (stay e s) = Evolves-along w v _ e (Evolves-refl _)
Change-Evolves host w v (submit r h e s) = Evolves-along w v _ e (Evolves-append _ r)
Change-Evolves host w v (move i r s now by found permitted e _) =
    Evolves-along w v _ e (Evolves-set_status by i r s now _ found permitted)
Change-Evolves host w v (expire now e s) = Evolves-along w v _ e (Evolves-expire_rows now _ _)
Change-Evolves host w v (decide a h e s) = Evolves-along w v _ e (Evolves-refl _)
Change-Evolves host w v (run x e s) = Evolves-along w v _ e (Evolves-refl _)
Change-Evolves host w v (show p e s) = Evolves-along w v _ e (Evolves-refl _)
Change-Evolves host w v (log x e s) = Evolves-along w v _ e (Evolves-refl _)
Change-Evolves host w v (send url st h e s) = Evolves-along w v _ e (Evolves-refl _)

pub Steps-Evolves :
    (host : Host) (w v : World) → Steps host w v → Evolves w.db.requests v.db.requests
Steps-Evolves host w v =
    Steps-fold host WorldEvolves (λ u. Evolves-refl u.db.requests)
      (λ u v x. Evolves-trans u.db.requests v.db.requests x.db.requests) (Change-Evolves host)

-- Whatever connections are served one after another, and whatever the database, the targets and the
-- network do, every stored request stays stored, keeps all its fields but the status and the time
-- of change, and its status moves only along the edges of the life cycle.
pub serve_all-Evolves :
    (host : Host) (w : World) (ss : List Stream)
    → Evolves w.db.requests (serve_all host w ss).db.requests
serve_all-Evolves host w ss = Steps-Evolves host w _ (serve_all-Steps host w ss)
