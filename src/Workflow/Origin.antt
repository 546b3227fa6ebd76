-- ===== src/Workflow/Origin.antt =====
-- Where the rows of a table come from, and so what holds of every stored request.
use sqlgate.Prelude.{
  ◌≡◌, refl, sym, ◌∙◌, ap, ◌⊎◌, inl, inr, Bool, true, Option, none, some, List, [], ◌∷◌, arith,
  ◌==◌, if◌then◌else◌,
}
use sqlgate.Db.{Uuid, Time, Status, Request, Db, World, find}
use sqlgate.Db.Requests.{is_kind, is_topology}
use sqlgate.Db.Requests.Lookup.{with_status, find-append, find-set_status, find-expire_rows}
use sqlgate.Db.Approvals.{expires_now}
use sqlgate.Host.{Host}
use sqlgate.Http.Request.{Stream}
use sqlgate.Execute.Hash.{query_hash}
use sqlgate.Workflow.{
  IsSubmission, Change, stay, submit, move, expire, decide, run, show, log, send, Steps, here, next,
}
use sqlgate.Workflow.Lifecycle.{IsSameRequest}
use sqlgate.Workflow.Connections.{serve_all, serve_all-Steps}

-- A row of the second table was a row of the first, but for its status and time of change.
abbrev pub Source : List Request → Uuid → Request → Type 0
Source rows i x = (r : Request) × (find i rows ≡ some r) × IsSameRequest r x

pub Source-self :
    (rows : List Request) (i : Uuid) (x : Request) → find i rows ≡ some x → Source rows i x
Source-self rows i x found = (x, found, ground arith)

-- An optional row whose status may have been set.
pub restamped :
    (o : Option Request) (test : Request → Bool) (s : Status) (now : Time) (x : Request)
    → elim o [ none ↦ none | some r ↦ if test r then some (with_status s now r) else some r ]
      ≡ some x
    → (r : Request) × (o ≡ some r) × IsSameRequest r x
restamped none test s now x h = cc
restamped (some r) test s now x h = (r, refl, ground arith)

pub appended :
    (o : Option Request) (r : Request) (i : Uuid) (x : Request)
    → elim o [ none ↦ find i (r ∷ []) | some y ↦ some y ] ≡ some x
    → (o ≡ some x) ⊎ (r ≡ x)
unfolding find
appended o r i x h = ground arith

Source_along :
    (host : Host) (w v : World) (d : Db) (i : Uuid) (x : Request)
    → v.db ≡ d
    → find i v.db.requests ≡ some x
    → find i d.requests ≡ some x
Source_along host w v d i x e found = ap (λ t. find i t.requests) (sym e) ∙ found

-- Every stored row was stored before, or was submitted by the change.
Change-Source :
    (host : Host) (w v : World)
    → Change host w v
    → (i : Uuid) (x : Request) → find i v.db.requests ≡ some x
    → Source w.db.requests i x ⊎ IsSubmission host x w.db
Change-Source host w v (submit r h e s) i x found =
    elim (appended (find i w.db.requests) r i x
      (sym (find-append i w.db.requests (r ∷ [])) ∙ Source_along host w v _ i x e found)) [
        | inl old ↦ inl (Source-self w.db.requests i x old)
        | inr new ↦ inr (rw new at h)
      ]
Change-Source host w v (move j r s now by present permitted e _) i x found = inl (
    restamped (find i w.db.requests) (λ y. y.id == j) s now x
      (sym (find-set_status s now j i w.db.requests) ∙ Source_along host w v _ i x e found))
Change-Source host w v (expire now e s) i x found = inl (
    restamped (find i w.db.requests) (expires_now now w.db.approvals) _ now x (
      sym (find-expire_rows now w.db.approvals i w.db.requests)
      ∙ Source_along host w v _ i x e found))
Change-Source host w v (stay e s) i x found =
    inl (Source-self _ i x (Source_along host w v _ i x e found))
Change-Source host w v (decide a h e s) i x found =
    inl (Source-self _ i x (Source_along host w v _ i x e found))
Change-Source host w v (run y e s) i x found =
    inl (Source-self _ i x (Source_along host w v _ i x e found))
Change-Source host w v (show p e s) i x found =
    inl (Source-self _ i x (Source_along host w v _ i x e found))
Change-Source host w v (log y e s) i x found =
    inl (Source-self _ i x (Source_along host w v _ i x e found))
Change-Source host w v (send url st h e s) i x found =
    inl (Source-self _ i x (Source_along host w v _ i x e found))

-- What the checks in front of a submission leave in each row.
pub record IsGenuine (host : Host) (r : Request) : Type 0 where
  pub hash : r.query_hash ≡ query_hash host r.query_text
  pub kind : is_kind r.target_kind ≡ true
  pub topology : is_topology r.target_topology ≡ true

abbrev pub AllGenuine : Host → World → Type 0
AllGenuine host w = (i : Uuid) (r : Request) → find i w.db.requests ≡ some r → IsGenuine host r

pub IsGenuine-of_same :
    (host : Host) (r x : Request) → IsSameRequest r x → IsGenuine host r → IsGenuine host x
IsGenuine-of_same host r x s g = record {
  hash = sym s.query_hash ∙ (g.hash ∙ ap (query_hash host) s.query_text);
  kind = ap is_kind (sym s.target_kind) ∙ g.kind;
  topology = ap is_topology (sym s.target_topology) ∙ g.topology;
}

Steps-AllGenuine :
    (host : Host) {w v : World} → Steps host w v → AllGenuine host w → AllGenuine host v
Steps-AllGenuine host here h = h
Steps-AllGenuine host {v} (next {u} steps c) h = λ i x found.
    elim (Change-Source host u v c i x found) [
      | inl (r, before, same) ↦
          IsGenuine-of_same host r x same (Steps-AllGenuine host steps h i r before)
      | inr new ↦ record { hash = new.hash; kind = new.kind; topology = new.topology }
    ]

-- If every stored request has the hash of its text, and an admitted target and topology, then so it
-- is after any connections that are served one after another.
pub serve_all-AllGenuine :
    (host : Host) (w : World) (ss : List Stream)
    → AllGenuine host w
    → AllGenuine host (serve_all host w ss)
serve_all-AllGenuine host w ss = Steps-AllGenuine host (serve_all-Steps host w ss)
