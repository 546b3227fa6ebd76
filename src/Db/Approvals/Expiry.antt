-- ===== src/Db/Approvals/Expiry.antt =====
-- What the expiry of stale approvals does to each request.
use sqlgate.Prelude.{
  ◌≡◌, ◌<◌, ◌↔◌, refl, ◌∙◌, ap, inl, inr, Bool, true, ◌&&◌, Option, none, some, List, [], ◌∷◌, ◌++◌,
  arith, ◌==◌, Bool-cases,
}
use sqlgate.Db.{
  Uuid, Time, Status, approved, expired, Decision, approve, reject, Request, Approval, Server,
  World, fine, call, find,
}
use sqlgate.Db.Requests.Lookup.{find-expire_rows, id-find}
use sqlgate.Db.Approvals.{
  is_approved, is_approve, is_past, is_stale, expires_now, expire_rows, expire_stale_approvals,
}

-- An approval whose time is over stands among the decisions on a request.
pub record HasLapsed (now : Time) (approvals : List Approval) (i : Uuid) : Type 0 where
  pub approval : Approval
  pub before : List Approval
  pub after : List Approval
  pub stored : approvals ≡ before ++ approval ∷ after
  pub about : approval.request_id ≡ i
  pub decided : approval.decision ≡ approve
  pub until : Time
  pub limited : approval.expires_at ≡ some until
  pub over : until < now

HasLapsed-cons :
    (now : Time) (a : Approval) (approvals : List Approval) (i : Uuid)
    → HasLapsed now approvals i
    → HasLapsed now (a ∷ approvals) i
HasLapsed-cons now a approvals i h = record {
  approval = h.approval;
  before = a ∷ h.before;
  after = h.after;
  stored = ap (λ l. a ∷ l) h.stored;
  about = h.about;
  decided = h.decided;
  until = h.until;
  limited = h.limited;
  over = h.over;
}

approve_of_test : (d : Decision) → is_approve d ≡ true → d ≡ approve
approve_of_test approve h = refl
approve_of_test reject h = cc

past_of_test :
    (o : Option Time) (now : Time) → is_past o now ≡ true → (t : Time) × (o ≡ some t) × (t < now)
unfolding is_past
past_of_test none now h = cc
past_of_test (some t) now h = (t, refl, ground (arith, h))

-- The test of the statement on one decision.
abbrev lapses : Time → Uuid → Approval → Bool
lapses now i a = a.request_id == i && is_approve a.decision && is_past a.expires_at now

HasLapsed-here :
    (now : Time) (a : Approval) (approvals : List Approval) (i : Uuid)
    → lapses now i a ≡ true
    → HasLapsed now (a ∷ approvals) i
HasLapsed-here now a approvals i h =
    let named : a.request_id ≡ i = ground (arith, h) in
    let kind : is_approve a.decision ≡ true = ground (arith, h) in
    let old : is_past a.expires_at now ≡ true = ground (arith, h) in
    let (t, limited, over) = past_of_test a.expires_at now old in
    record {
      approval = a;
      before = [];
      after = approvals;
      stored = refl;
      about = named;
      decided = approve_of_test a.decision kind;
      until = t;
      limited = limited;
      over = over;
    }

HasLapsed-of_is_stale :
    (now : Time) (approvals : List Approval) (i : Uuid)
    → is_stale now approvals i ≡ true
    → HasLapsed now approvals i
unfolding is_stale
HasLapsed-of_is_stale now [] i h = cc
HasLapsed-of_is_stale now (a ∷ l) i h = elim (Bool-cases (lapses now i a)) [
  | inl hit ↦ HasLapsed-here now a l i hit
  | inr miss ↦ HasLapsed-cons now a l i (HasLapsed-of_is_stale now l i (rw miss at h))
]

is_stale-append :
    (now : Time) (before after : List Approval) (a : Approval) (i : Uuid)
    → lapses now i a ≡ true
    → is_stale now (before ++ a ∷ after) i ≡ true
unfolding is_stale
is_stale-append now [] after a i h = rw h refl
is_stale-append now (x ∷ before) after a i h =
    ground (arith, is_stale-append now before after a i h)

lapses-of_parts :
    (now : Time) (a : Approval) (i : Uuid) (t : Time)
    → a.request_id ≡ i
    → a.decision ≡ approve
    → a.expires_at ≡ some t
    → t < now
    → lapses now i a ≡ true
unfolding is_past
lapses-of_parts now a i t about decided limited over = rw (about, decided, limited) (ground arith)

is_stale-of_HasLapsed :
    (now : Time) (approvals : List Approval) (i : Uuid)
    → HasLapsed now approvals i
    → is_stale now approvals i ≡ true
is_stale-of_HasLapsed now approvals i h = rw h.stored (
    is_stale-append now h.before h.after h.approval i
      (lapses-of_parts now h.approval i h.until h.about h.decided h.limited h.over))

approved_iff : (s : Status) → (is_approved s ≡ true) ↔ (s ≡ approved)
approved_iff s = ground arith

-- What becomes of a stored request.
pub record IsExpiry (now : Time) (approvals : List Approval) (i : Uuid) (r : Request)
    (rows : List Request) : Type 0 where
  pub lapsed :
      r.status ≡ approved
      → HasLapsed now approvals i
      → find i rows ≡ some (record r { status = expired; updated_at = now })
  pub kept : ¬ ((r.status ≡ approved) × HasLapsed now approvals i) → find i rows ≡ some r

expires_iff :
    (now : Time) (approvals : List Approval) (i : Uuid) (r : Request)
    → r.id ≡ i
    → (expires_now now approvals r ≡ true) ↔ ((r.status ≡ approved) × HasLapsed now approvals i)
expires_iff now approvals i r named = (
  λ h.
      (let known : is_approved r.status ≡ true = ground (arith, h) in
        let stale : is_stale now approvals r.id ≡ true = ground (arith, h) in
        (
          (approved_iff r.status).0 known,
          HasLapsed-of_is_stale now approvals i (rw named at stale),
        )),
  λ p. rw ((approved_iff r.status).1 p.0, named, is_stale-of_HasLapsed now approvals i p.1) refl,
)

expire_rows-IsExpiry :
    (now : Time) (approvals : List Approval) (i : Uuid) (r : Request) (rows : List Request)
    → find i rows ≡ some r
    → IsExpiry now approvals i r (expire_rows now approvals rows)
expire_rows-IsExpiry now approvals i r rows found =
    let moved = find-expire_rows now approvals i rows in
    let iff = expires_iff now approvals i r (id-find i rows r found) in
    record {
      lapsed = λ known old. moved ∙ rw (found, iff.1 (known, old)) refl;
      kept = λ neither. elim (Bool-cases (expires_now now approvals r)) [
        | inl hit ↦ absurd (neither (iff.0 hit))
        | inr miss ↦ moved ∙ rw (found, miss) refl
      ];
    }

-- When the call meets no fault, a stored request that was approved, and among whose decisions is an
-- approval with a time before that of the database, gets the status expired and that time as its time
-- of change, with its other fields as they were; any other stored request is what it was.
pub expire_stale_approvals-IsExpiry :
    (server : Server) (w : World) (i : Uuid) (r : Request)
    → server.fault w.calls ≡ fine
    → find i w.db.requests ≡ some r
    → IsExpiry
        (server.now w.calls)
        w.db.approvals
        i
        r
        (expire_stale_approvals server w).1.db.requests
unfolding expire_stale_approvals call
expire_stale_approvals-IsExpiry server w i r h found =
    rw (h, expire_stale_approvals, call)
      (expire_rows-IsExpiry (server.now w.calls) w.db.approvals i r w.db.requests found)
