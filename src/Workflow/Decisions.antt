-- ===== src/Workflow/Decisions.antt =====
-- The four-eyes rule: nobody decides on a request of their own.
use sqlgate.Prelude.{
  ◌≡◌, ◌≢◌, sym, ◌∙◌, ap, ◌⊎◌, inl, inr, some, List, [], ◌∷◌, ◌++◌, All, All-append, All-map,
}
use sqlgate.Db.{Request, Approval, World, find}
use sqlgate.Host.{Host}
use sqlgate.Http.Request.{Stream}
use sqlgate.Workflow.{
  Change, stay, submit, move, expire, decide, run, show, log, send, Steps, here, next, Steps-one,
}
use sqlgate.Workflow.Lifecycle.{Evolves, Steps-Evolves}
use sqlgate.Workflow.Connections.{serve_all, serve_all-Steps}

-- The request of a decision is stored, and its requester is not who decided.
abbrev pub IsForeign : List Request → Approval → Type 0
IsForeign rows a =
    (r : Request) × (find a.request_id rows ≡ some r) × (a.approver_email ≢ r.requester_email)

abbrev pub FourEyes : World → Type 0
FourEyes w = All (IsForeign w.db.requests) w.db.approvals

IsForeign-Evolves :
    (rows rows' : List Request) (a : Approval)
    → Evolves rows rows'
    → IsForeign rows a
    → IsForeign rows' a
IsForeign-Evolves rows rows' a evolves (r, found, other) =
    let later = evolves a.request_id r found in
    (later.row, later.found, λ e. other (e ∙ sym later.same.requester_email))

-- A change adds at most one decision, which keeps the rule.
approvals-Change :
    (host : Host) (w v : World)
    → Change host w v
    → (v.db.approvals ≡ w.db.approvals)
      ⊎ ((a : Approval) × (v.db.approvals ≡ w.db.approvals ++ a ∷ []) × IsForeign w.db.requests a)
approvals-Change host w v (stay e s) = inl (ap (λ d. d.approvals) e)
approvals-Change host w v (submit r h e s) = inl (ap (λ d. d.approvals) e)
approvals-Change host w v (move i r s now by found permitted e _) = inl (ap (λ d. d.approvals) e)
approvals-Change host w v (expire now e s) = inl (ap (λ d. d.approvals) e)
approvals-Change host w v (decide a h e s) =
    inr (a, ap (λ d. d.approvals) e, (h.request, h.found, h.other))
approvals-Change host w v (run x e s) = inl (ap (λ d. d.approvals) e)
approvals-Change host w v (show p e s) = inl (ap (λ d. d.approvals) e)
approvals-Change host w v (log x e s) = inl (ap (λ d. d.approvals) e)
approvals-Change host w v (send url st h e s) = inl (ap (λ d. d.approvals) e)

Change-FourEyes : (host : Host) (w v : World) → Change host w v → FourEyes w → FourEyes v
Change-FourEyes host w v c h =
    let evolves = Steps-Evolves host w v (Steps-one host c) in
    let moved =
      All-map (IsForeign w.db.requests) (IsForeign v.db.requests) w.db.approvals
        (λ a. IsForeign-Evolves w.db.requests v.db.requests a evolves) h in
    elim (approvals-Change host w v c) [
      | inl same ↦ rw same moved
      | inr (a, more, foreign) ↦ rw more (
          All-append (IsForeign v.db.requests) w.db.approvals (a ∷ []) moved
            (IsForeign-Evolves w.db.requests v.db.requests a evolves foreign, tt))
    ]

Steps-FourEyes : (host : Host) {w v : World} → Steps host w v → FourEyes w → FourEyes v
Steps-FourEyes host here h = h
Steps-FourEyes host {v} (next {u} s c) h = Change-FourEyes host u v c (Steps-FourEyes host s h)

-- If no stored decision is by the requester of its request, then after any connections, served one
-- after another, none is; and the request of each decision is stored.
pub serve_all-FourEyes :
    (host : Host) (w : World) (ss : List Stream) → FourEyes w → FourEyes (serve_all host w ss)
serve_all-FourEyes host w ss = Steps-FourEyes host (serve_all-Steps host w ss)
