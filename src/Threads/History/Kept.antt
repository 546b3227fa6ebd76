-- ===== src/Threads/History/Kept.antt =====
-- A stored request stays stored, and keeps all its fields but the status and the time of change.
use sqlgate.Prelude.{◌≡◌, refl, ◌∙◌, inl, inr, some, List, [], ◌∷◌, ◌++◌, arith, Bool-cases, ◌==◌}
use sqlgate.Db.{Uuid, Time, Status, expired, Approval, Request, Db, World, find}
use sqlgate.Db.Requests.{set_status}
use sqlgate.Db.Requests.Lookup.{with_status, find-append, find-set_status, find-expire_rows}
use sqlgate.Db.Approvals.{expires_now, expire_rows}
use sqlgate.Host.{Host}
use sqlgate.Workflow.Lifecycle.{IsSameRequest}
use sqlgate.Threads.History.{
  History, Event, stay, submit, move, expire, decide, run, show, log, send, Follows, start, grow,
}

-- A request is stored, but for its status and time of change.
pub record IsKept (r : Request) (i : Uuid) (rows : List Request) : Type 0 where
  pub row : Request
  pub found : find i rows ≡ some row
  pub alike : IsSameRequest r row

abbrev pub Keeps : List Request → List Request → Type 0
Keeps rows rows' = (i : Uuid) (r : Request) → find i rows ≡ some r → IsKept r i rows'

Keeps-refl : (rows : List Request) → Keeps rows rows
Keeps-refl rows i r found = record { row = r; found = found; alike = ground arith }

Keeps-trans : (a b c : List Request) → Keeps a b → Keeps b c → Keeps a c
Keeps-trans a b c p q i r found =
    let s = p i r found in
    let t = q i s.row s.found in
    record { row = t.row; found = t.found; alike = ground (arith, s.alike, t.alike) }

Keeps-append : (rows : List Request) (x : Request) → Keeps rows (rows ++ x ∷ [])
Keeps-append rows x i r found = record {
  row = r;
  found = find-append i rows (x ∷ []) ∙ rw found refl;
  alike = ground arith;
}

Keeps-set_status :
    (s : Status) (now : Time) (j : Uuid) (rows : List Request)
    → Keeps rows (set_status s now j rows)
Keeps-set_status s now j rows i r found = elim (Bool-cases (r.id == j)) [
  | inl hit ↦ record {
    row = with_status s now r;
    found = find-set_status s now j i rows ∙ rw (found, hit) refl;
    alike = ground arith;
  }
  | inr miss ↦ record {
    row = r;
    found = find-set_status s now j i rows ∙ rw (found, miss) refl;
    alike = ground arith;
  }
]

Keeps-expire_rows :
    (now : Time) (approvals : List Approval) (rows : List Request)
    → Keeps rows (expire_rows now approvals rows)
Keeps-expire_rows now approvals rows i r found = elim (Bool-cases (expires_now now approvals r)) [
  | inl hit ↦ record {
    row = with_status expired now r;
    found = find-expire_rows now approvals i rows ∙ rw (found, hit) refl;
    alike = ground arith;
  }
  | inr miss ↦ record {
    row = r;
    found = find-expire_rows now approvals i rows ∙ rw (found, miss) refl;
    alike = ground arith;
  }
]

Keeps-along :
    (h : History) (v : World) (d : Db)
    → v.db ≡ d
    → Keeps h.now.db.requests d.requests
    → Keeps h.now.db.requests v.db.requests
Keeps-along h v d e k = rw e k

module _ (host : Host) where
  pub Event-Keeps :
      (h : History) (v : World) → Event host h v → Keeps h.now.db.requests v.db.requests
  Event-Keeps h v (submit r c e s) = Keeps-along h v _ e (Keeps-append _ r)
  Event-Keeps h v (move i s now by c e k) = Keeps-along h v _ e (Keeps-set_status s now i _)
  Event-Keeps h v (expire now e s) = Keeps-along h v _ e (Keeps-expire_rows now _ _)
  Event-Keeps h v (stay e s) = Keeps-along h v _ e (Keeps-refl _)
  Event-Keeps h v (decide a d e s) = Keeps-along h v _ e (Keeps-refl _)
  Event-Keeps h v (run x e s) = Keeps-along h v _ e (Keeps-refl _)
  Event-Keeps h v (show p e s) = Keeps-along h v _ e (Keeps-refl _)
  Event-Keeps h v (log x e s) = Keeps-along h v _ e (Keeps-refl _)
  Event-Keeps h v (send url st c e s) = Keeps-along h v _ e (Keeps-refl _)

  pub Follows-Keeps : {h g : History} → Follows host h g → Keeps h.now.db.requests g.now.db.requests
  Follows-Keeps {h} start = Keeps-refl h.now.db.requests
  Follows-Keeps {h} (grow {g} {v} f e) =
      Keeps-trans h.now.db.requests g.now.db.requests v.db.requests (Follows-Keeps f)
        (Event-Keeps g v e)
