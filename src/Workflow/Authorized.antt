-- ===== src/Workflow/Authorized.antt =====
-- What reaches a target for execution.
use sqlgate.Prelude.{
  ◌≡◌, refl, sym, ◌∙◌, ap, ap₂, ◌⊎◌, inl, inr, true, some, List, ◌∷◌, arith, All, All-map,
}
use sqlgate.Text.{Text, codes}
use sqlgate.Db.{Status, approved, executed, expired, Request, Sent, World, find}
use sqlgate.Host.{Host}
use sqlgate.Http.Request.{Stream}
use sqlgate.Targets.{resolve_target_url}
use sqlgate.Execute.Hash.{verify_query_hash}
use sqlgate.Workflow.{
  IsAuthorized, Change, stay, submit, move, expire, decide, run, show, log, send, Steps, here, next,
  Steps-one,
}
use sqlgate.Workflow.Lifecycle.{Edge, execute, lapse, Reaches, stop, step, Evolves, Steps-Evolves}
use sqlgate.Workflow.Connections.{serve_all, serve_all-Steps}

-- The statuses of a request that has been approved.
abbrev pub WasApproved : Status → Type 0
WasApproved s = (s ≡ approved) ⊎ ((s ≡ executed) ⊎ (s ≡ expired))

-- A statement is the text of a stored request that has been approved, whose hash was verified, and
-- went to the execute URL of that request's target.
pub record IsVouched (host : Host) (rows : List Request) (sent : Sent) : Type 0 where
  pub request : Request
  pub found : find request.id rows ≡ some request
  pub approval : WasApproved request.status
  pub verified : verify_query_hash host request.query_text request.query_hash ≡ true
  pub resolved : resolve_target_url host request.target_db (codes "EXECUTE") ≡ some sent.url
  pub text : sent.statement ≡ request.query_text

abbrev pub AllVouched : Host → World → Type 0
AllVouched host w = All (IsVouched host w.db.requests) w.sent

WasApproved-Edge : {s t : Status} → Edge s t → WasApproved s → WasApproved t
WasApproved-Edge execute a = inr (inl refl)
WasApproved-Edge lapse a = inr (inr refl)
WasApproved-Edge _ a = ground arith

WasApproved-Reaches : {s t : Status} → Reaches s t → WasApproved s → WasApproved t
WasApproved-Reaches stop a = a
WasApproved-Reaches (step p e) a = WasApproved-Edge e (WasApproved-Reaches p a)

IsVouched-Evolves :
    (host : Host) (rows rows' : List Request) (sent : Sent)
    → Evolves rows rows'
    → IsVouched host rows sent
    → IsVouched host rows' sent
IsVouched-Evolves host rows rows' sent evolves v =
    let later = evolves v.request.id v.request v.found in
    let same = later.same in
    record {
      request = later.row;
      found = ap (λ i. find i rows') (sym same.id) ∙ later.found;
      approval = WasApproved-Reaches later.path v.approval;
      verified =
          ap₂ (verify_query_hash host) (sym same.query_text) (sym same.query_hash) ∙ v.verified;
      resolved =
          ap (λ d. resolve_target_url host d (codes "EXECUTE")) (sym same.target_db) ∙ v.resolved;
      text = v.text ∙ same.query_text;
    }

IsVouched-of_IsAuthorized :
    (host : Host) (url statement : Text) (w : World)
    → IsAuthorized host url statement w.db
    → IsVouched host w.db.requests (record { url = url; statement = statement })
IsVouched-of_IsAuthorized host url statement w a = record {
  request = a.request;
  found = a.found;
  approval = inl a.approval;
  verified = a.verified;
  resolved = a.resolved;
  text = a.text;
}

-- A change sends at most one statement.
sent-Change :
    (host : Host) (w v : World)
    → Change host w v
    → (v.sent ≡ w.sent) ⊎ ((s : Sent) × (v.sent ≡ s ∷ w.sent) × IsVouched host w.db.requests s)
sent-Change host w v (send url st h e s) = inr (_, s, IsVouched-of_IsAuthorized host url st w h)
sent-Change host w v (stay e s) = inl s
sent-Change host w v (submit r h e s) = inl s
sent-Change host w v (move i r s now by found permitted e same) = inl same
sent-Change host w v (expire now e s) = inl s
sent-Change host w v (decide a h e s) = inl s
sent-Change host w v (run x e s) = inl s
sent-Change host w v (show p e s) = inl s
sent-Change host w v (log x e s) = inl s

Change-AllVouched :
    (host : Host) (w v : World) → Change host w v → AllVouched host w → AllVouched host v
Change-AllVouched host w v c h =
    let evolves = Steps-Evolves host w v (Steps-one host c) in
    let moved =
      All-map (IsVouched host w.db.requests) (IsVouched host v.db.requests) w.sent
        (λ s. IsVouched-Evolves host w.db.requests v.db.requests s evolves) h in
    elim (sent-Change host w v c) [
      | inl same ↦ rw same moved
      | inr (s, more, vouched) ↦
          rw more (IsVouched-Evolves host w.db.requests v.db.requests s evolves vouched, moved)
    ]

Steps-AllVouched :
    (host : Host) {w v : World} → Steps host w v → AllVouched host w → AllVouched host v
Steps-AllVouched host here h = h
Steps-AllVouched host {v} (next {u} s c) h =
    Change-AllVouched host u v c (Steps-AllVouched host s h)

-- If every statement sent so far is vouched for, then so it is after any connections that are served
-- one after another: each is the text of a stored request that is approved, executed or expired,
-- whose stored hash was verified against the text, and went to that target's execute URL.
pub serve_all-AllVouched :
    (host : Host) (w : World) (ss : List Stream)
    → AllVouched host w
    → AllVouched host (serve_all host w ss)
serve_all-AllVouched host w ss = Steps-AllVouched host (serve_all-Steps host w ss)
