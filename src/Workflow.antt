-- ===== src/Workflow.antt =====
-- The approval workflow as a step relation: what one database call, or one statement sent to a
-- target, may do to the world, and under which conditions the handlers of src/main.rs and the two
-- pipelines (src/preview/engine.rs, src/execute/engine.rs) do it.
pub mod Calls
pub mod Previewing
pub mod Pipelines
pub mod Reading
pub mod Deciding
pub mod Submitting
pub mod Connections
pub mod Lifecycle
pub mod Terminal
pub mod Decisions
pub mod Origin
pub mod Audit
pub mod Authorized
pub mod Gate
use sqlgate.Prelude.{
  ℕ, ◌≡◌, refl, ◌≢◌, Bool, true, false, Option, some, List, [], ◌∷◌, ◌++◌, any, ◌==◌, ◌||◌,
}
use sqlgate.Text.{Text, codes, text_eq}
use sqlgate.Db.{
  Uuid, Time, Status, submitted, previewed, pending_approval, approved, rejected, executed, expired,
  Request, Preview, Approval, Execution, AuditEvent, Db, World, find,
}
use sqlgate.Db.Requests.{set_status, is_kind, is_topology}
use sqlgate.Db.Approvals.{expire_rows}
use sqlgate.Host.{Host}
use sqlgate.Targets.{resolve_target_url}
use sqlgate.Execute.Hash.{query_hash, verify_query_hash}

-- Whether `by` may move a request into a status by a handler: each status has one predecessor, and
-- a decision needs another person than the requester.
abbrev pub Permitted : Text → Request → Status → Type 0
Permitted by r submitted = ⊥
Permitted by r previewed = r.status ≡ submitted
Permitted by r pending_approval = r.status ≡ previewed
Permitted by r approved = (r.status ≡ pending_approval) × (by ≢ r.requester_email)
Permitted by r rejected = (r.status ≡ pending_approval) × (by ≢ r.requester_email)
Permitted by r executed = r.status ≡ approved
Permitted by r expired = ⊥

-- No stored request has the identifier or the hash of `r`.
abbrev pub is_taken : Request → List Request → Bool
is_taken r rows = any (λ x. x.id == r.id || text_eq x.query_hash r.query_hash) rows

-- A request as `submit_handler` stores it.
pub record IsSubmission (host : Host) (r : Request) (d : Db) : Type 0 where
  pub fresh : is_taken r d.requests ≡ false
  pub status : r.status ≡ submitted
  pub hash : r.query_hash ≡ query_hash host r.query_text
  pub kind : is_kind r.target_kind ≡ true
  pub topology : is_topology r.target_topology ≡ true

-- An approval or rejection row as a handler stores it.
pub record IsDecision (a : Approval) (d : Db) : Type 0 where
  pub request : Request
  pub found : find a.request_id d.requests ≡ some request
  pub pending : request.status ≡ pending_approval
  pub other : a.approver_email ≢ request.requester_email

-- A statement that may be sent for execution: the text of an approved request whose hash holds, to
-- the execute URL of its target.
pub record IsAuthorized (host : Host) (url statement : Text) (d : Db) : Type 0 where
  pub request : Request
  pub found : find request.id d.requests ≡ some request
  pub approval : request.status ≡ approved
  pub verified : verify_query_hash host request.query_text request.query_hash ≡ true
  pub kind : request.target_kind ≡ codes "postgres"
  pub resolved : resolve_target_url host request.target_db (codes "EXECUTE") ≡ some url
  pub text : statement ≡ request.query_text

module _ (host : Host) where
  pub data Change (w v : World) : Type 0 where
    stay : v.db ≡ w.db → v.sent ≡ w.sent → Change w v
    submit :
        (r : Request)
        → IsSubmission host r w.db
        → v.db ≡ record w.db { requests = w.db.requests ++ r ∷ [] }
        → v.sent ≡ w.sent
        → Change w v
    move :
        (i : Uuid) (r : Request) (s : Status) (now : Time) (by : Text)
        → find i w.db.requests ≡ some r
        → Permitted by r s
        → v.db ≡ record w.db { requests = set_status s now i w.db.requests }
        → v.sent ≡ w.sent
        → Change w v
    expire :
        (now : Time)
        → v.db ≡ record w.db { requests = expire_rows now w.db.approvals w.db.requests }
        → v.sent ≡ w.sent
        → Change w v
    decide :
        (a : Approval)
        → IsDecision a w.db
        → v.db ≡ record w.db { approvals = w.db.approvals ++ a ∷ [] }
        → v.sent ≡ w.sent
        → Change w v
    run :
        (e : Execution)
        → v.db ≡ record w.db { executions = w.db.executions ++ e ∷ [] }
        → v.sent ≡ w.sent
        → Change w v
    show :
        (p : Preview)
        → v.db ≡ record w.db { previews = w.db.previews ++ p ∷ [] }
        → v.sent ≡ w.sent
        → Change w v
    log :
        (e : AuditEvent)
        → v.db ≡ record w.db { audit_log = w.db.audit_log ++ e ∷ [] }
        → v.sent ≡ w.sent
        → Change w v
    send :
        (url statement : Text)
        → IsAuthorized host url statement w.db
        → v.db ≡ w.db
        → v.sent ≡ record { url = url; statement = statement } ∷ w.sent
        → Change w v

  -- A sequence of changes.
  pub data Steps (w : World) : World → Type 0 where
    here : Steps w w
    next : {u v : World} → Steps w u → Change u v → Steps w v

  pub Steps-one : {w v : World} → Change w v → Steps w v
  Steps-one c = next here c

  pub Steps-append : {w u v : World} → Steps w u → Steps u v → Steps w v
  Steps-append s here = s
  Steps-append s (next t c) = next (Steps-append s t) c

  -- Whatever a reflexive and transitive relation says of each change it says of the whole.
  pub Steps-fold {ℓ} :
      (R : World → World → Type ℓ)
      → ((w : World) → R w w)
      → ((u v x : World) → R u v → R v x → R u x)
      → ((u v : World) → Change u v → R u v)
      → {w v : World} → Steps w v
      → R w v
  Steps-fold R same trans one {w} here = same w
  Steps-fold R same trans one {w} {v} (next {u} s c) =
      trans w u v (Steps-fold R same trans one s) (one u v c)
