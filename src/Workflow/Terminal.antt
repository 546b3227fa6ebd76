-- ===== src/Workflow/Terminal.antt =====
-- Requests that are rejected, executed or expired are final.
use sqlgate.Prelude.{
  ◌≡◌, sym, ◌∙◌, ap, ◌⊎◌, inl, inr, false, some, List, [], ◌∷◌, arith, ◌==◌, Bool-cases, ==_iff,
}
use sqlgate.Text.{Text}
use sqlgate.Db.{
  Uuid, Time, Status, submitted, rejected, executed, expired, Approval, Request, Db, World, find,
}
use sqlgate.Db.Requests.{set_status}
use sqlgate.Db.Requests.Lookup.{find-append, find-set_status, find-expire_rows, id-find}
use sqlgate.Db.Approvals.{expires_now, expire_rows}
use sqlgate.Host.{Host}
use sqlgate.Http.Request.{Stream}
use sqlgate.Workflow.{
  Permitted, Change, stay, submit, move, expire, decide, run, show, log, send, Steps-fold,
}
use sqlgate.Workflow.Connections.{serve_all, serve_all-Steps}

abbrev pub IsTerminal : Status → Type 0
IsTerminal s = (s ≡ rejected) ⊎ ((s ≡ executed) ⊎ (s ≡ expired))

-- Terminal rows of the first table stand in the second as they are.
abbrev pub KeepsTerminal : List Request → List Request → Type 0
KeepsTerminal rows rows' =
    (i : Uuid) (r : Request) → find i rows ≡ some r → IsTerminal r.status → find i rows' ≡ some r

not-Permitted : (by : Text) (r : Request) (s : Status) → IsTerminal r.status → ¬ Permitted by r s
not-Permitted by r submitted t p = p
not-Permitted by r s t p = ground arith

KeepsTerminal-set_status :
    (by : Text) (i : Uuid) (r : Request) (s : Status) (now : Time) (rows : List Request)
    → find i rows ≡ some r
    → Permitted by r s
    → KeepsTerminal rows (set_status s now i rows)
KeepsTerminal-set_status by i r s now rows present permitted j x found terminal =
    elim (Bool-cases (x.id == i)) [
      | inl same ↦
          let j≡i = sym (id-find j rows x found) ∙ (==_iff x.id i).0 same in
          let x≡r : x ≡ r = cc (found, present, ap (λ k. find k rows) j≡i) in
          absurd (not-Permitted by x s terminal (rw x≡r permitted))
      | inr other ↦ find-set_status s now i j rows ∙ rw (found, other)
    ]

not-expires_now :
    (now : Time) (approvals : List Approval) (r : Request)
    → IsTerminal r.status
    → expires_now now approvals r ≡ false
not-expires_now now approvals r t = ground arith

KeepsTerminal-expire_rows :
    (now : Time) (approvals : List Approval) (rows : List Request)
    → KeepsTerminal rows (expire_rows now approvals rows)
KeepsTerminal-expire_rows now approvals rows j x found terminal =
    find-expire_rows now approvals j rows ∙ rw (found, not-expires_now now approvals x terminal)

Keeps-along :
    (w v : World) (d : Db)
    → v.db ≡ d
    → KeepsTerminal w.db.requests d.requests
    → KeepsTerminal w.db.requests v.db.requests
Keeps-along w v d e h = rw e h

Change-KeepsTerminal :
    (host : Host) (w v : World) → Change host w v → KeepsTerminal w.db.requests v.db.requests
Change-KeepsTerminal host w v (stay e s) = Keeps-along w v _ e (λ i r f t. f)
Change-KeepsTerminal host w v (submit r h e s) =
    Keeps-along w v _ e (λ i x f t. find-append i w.db.requests (r ∷ []) ∙ rw f)
Change-KeepsTerminal host w v (move i r s now by found permitted e _) =
    Keeps-along w v _ e (KeepsTerminal-set_status by i r s now w.db.requests found permitted)
Change-KeepsTerminal host w v (expire now e s) =
    Keeps-along w v _ e (KeepsTerminal-expire_rows now w.db.approvals w.db.requests)
Change-KeepsTerminal host w v (decide a h e s) = Keeps-along w v _ e (λ i r f t. f)
Change-KeepsTerminal host w v (run x e s) = Keeps-along w v _ e (λ i r f t. f)
Change-KeepsTerminal host w v (show p e s) = Keeps-along w v _ e (λ i r f t. f)
Change-KeepsTerminal host w v (log x e s) = Keeps-along w v _ e (λ i r f t. f)
Change-KeepsTerminal host w v (send url st h e s) = Keeps-along w v _ e (λ i r f t. f)

-- A request that is rejected, executed or expired is never changed again, in any field, by
-- connections that are served one after another, whatever they deliver.
pub serve_all-KeepsTerminal :
    (host : Host) (w : World) (ss : List Stream) (i : Uuid) (r : Request)
    → find i w.db.requests ≡ some r
    → IsTerminal r.status
    → find i (serve_all host w ss).db.requests ≡ some r
serve_all-KeepsTerminal host w ss =
    Steps-fold host (λ u v. KeepsTerminal u.db.requests v.db.requests) (λ u i r f t. f)
      (λ u v x p q i r f t. q i r (p i r f t) t) (Change-KeepsTerminal host)
      (serve_all-Steps host w ss)
