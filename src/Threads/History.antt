-- ===== src/Threads/History.antt =====
-- What threads that take turns may do to the world: each act with the conditions that held when its
-- thread looked, which may be earlier, since others act in between.
pub mod Calls
pub mod Kept
use sqlgate.Prelude.{◌≡◌, ◌≢◌, Bool, true, Option, some, List, [], ◌∷◌, ◌++◌}
use sqlgate.Text.{Text, codes}
use sqlgate.Db.{
  Uuid, Time, Status, pending_approval, approved, Request, Preview, Approval, Execution, AuditEvent,
  Db, World, find,
}
use sqlgate.Db.Requests.{set_status}
use sqlgate.Db.Approvals.{expire_rows}
use sqlgate.Host.{Host}
use sqlgate.Targets.{resolve_target_url}
use sqlgate.Execute.Hash.{verify_query_hash}
use sqlgate.Workflow.{Permitted, IsSubmission, IsDecision, IsAuthorized, Change}

-- The world now, and all that it was before, the latest first.
pub record History : Type 0 where
  pub now : World
  pub past : List World

abbrev pub extend : History → World → History
extend h v = record { now = v; past = h.now ∷ h.past }

pub data Once (P : World → Type 0) : List World → Type 0 where
  here : {w : World} {ws : List World} → P w → Once P (w ∷ ws)
  before : {w : World} {ws : List World} → Once P ws → Once P (w ∷ ws)

-- It holds now, or it held once.
abbrev pub Ever : (World → Type 0) → History → Type 0
Ever P h = Once P (h.now ∷ h.past)

-- A request of an identifier is stored, and fulfils a condition.
abbrev pub Holds : Uuid → (Request → Type 0) → World → Type 0
Holds i C w = (r : Request) × (find i w.db.requests ≡ some r) × C r

-- A decision on a stored request by another person, which was pending once.
pub record IsJudgement (a : Approval) (h : History) : Type 0 where
  pub request : Request
  pub found : find a.request_id h.now.db.requests ≡ some request
  pub other : a.approver_email ≢ request.requester_email
  pub pending : Ever (Holds a.request_id (λ r. r.status ≡ pending_approval)) h

-- The text of a stored request whose hash holds and that was approved once, to its target.
pub record IsCleared (host : Host) (url statement : Text) (h : History) : Type 0 where
  pub request : Request
  pub found : find request.id h.now.db.requests ≡ some request
  pub approval : Ever (Holds request.id (λ r. r.status ≡ approved)) h
  pub verified : verify_query_hash host request.query_text request.query_hash ≡ true
  pub resolved : resolve_target_url host request.target_db (codes "EXECUTE") ≡ some url
  pub text : statement ≡ request.query_text

module _ (host : Host) where
  -- An act of a thread. It is as in `Change` but for `move`, `decide` and `send`.
  pub data Event (h : History) (v : World) : Type 0 where
    stay : v.db ≡ h.now.db → v.sent ≡ h.now.sent → Event h v
    submit :
        (r : Request)
        → IsSubmission host r h.now.db
        → v.db ≡ record h.now.db { requests = h.now.db.requests ++ r ∷ [] }
        → v.sent ≡ h.now.sent
        → Event h v
    move :
        (i : Uuid) (s : Status) (now : Time) (by : Text)
        → Ever (Holds i (λ r. Permitted by r s)) h
        → v.db ≡ record h.now.db { requests = set_status s now i h.now.db.requests }
        → v.sent ≡ h.now.sent
        → Event h v
    expire :
        (now : Time)
        → v.db ≡ record h.now.db { requests = expire_rows now h.now.db.approvals h.now.db.requests }
        → v.sent ≡ h.now.sent
        → Event h v
    decide :
        (a : Approval)
        → IsJudgement a h
        → v.db ≡ record h.now.db { approvals = h.now.db.approvals ++ a ∷ [] }
        → v.sent ≡ h.now.sent
        → Event h v
    run :
        (e : Execution)
        → v.db ≡ record h.now.db { executions = h.now.db.executions ++ e ∷ [] }
        → v.sent ≡ h.now.sent
        → Event h v
    show :
        (p : Preview)
        → v.db ≡ record h.now.db { previews = h.now.db.previews ++ p ∷ [] }
        → v.sent ≡ h.now.sent
        → Event h v
    log :
        (e : AuditEvent)
        → v.db ≡ record h.now.db { audit_log = h.now.db.audit_log ++ e ∷ [] }
        → v.sent ≡ h.now.sent
        → Event h v
    send :
        (url statement : Text)
        → IsCleared host url statement h
        → v.db ≡ h.now.db
        → v.sent ≡ record { url = url; statement = statement } ∷ h.now.sent
        → Event h v

  -- A history that has grown by acts.
  pub data Follows (h : History) : History → Type 0 where
    start : Follows h h
    grow : {g : History} {v : World} → Follows h g → Event g v → Follows h (extend g v)

  pub Follows-trans : {h g f : History} → Follows h g → Follows g f → Follows h f
  Follows-trans p start = p
  Follows-trans p (grow q e) = grow (Follows-trans p q) e

  pub Ever-Follows : (P : World → Type 0) {h g : History} → Follows h g → Ever P h → Ever P g
  Ever-Follows P start e = e
  Ever-Follows P (grow f x) e = before (Ever-Follows P f e)

  -- An act under the conditions of `Change` is one under these.
  pub Event-of_Change : (h : History) (v : World) → Change host h.now v → Event h v
  Event-of_Change h v (Change.stay e s) = stay e s
  Event-of_Change h v (Change.submit r c e s) = submit r c e s
  Event-of_Change h v (Change.move i r s now by found permitted e k) =
      move i s now by (here (r, found, permitted)) e k
  Event-of_Change h v (Change.expire now e s) = expire now e s
  Event-of_Change h v (Change.decide a d e s) =
      decide a
        (record {
          request = d.request;
          found = d.found;
          other = d.other;
          pending = here (d.request, d.found, d.pending);
        })
        e s
  Event-of_Change h v (Change.run x e s) = run x e s
  Event-of_Change h v (Change.show p e s) = show p e s
  Event-of_Change h v (Change.log x e s) = log x e s
  Event-of_Change h v (Change.send url st a e s) =
      send url st
        (record {
          request = a.request;
          found = a.found;
          approval = here (a.request, a.found, a.approval);
          verified = a.verified;
          resolved = a.resolved;
          text = a.text;
        })
        e s
