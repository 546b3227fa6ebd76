-- ===== src/Server/Handlers/Decide/Outcomes.antt =====
-- What expiry keeps from being executed, and what an approval comes to.
use sqlgate.Prelude.{
  ◌≡◌, refl, sym, ◌∙◌, ap, true, false, Option, none, some, List, arith, Result, ok, err,
  if◌then◌else◌,
}
use sqlgate.Text.{Text}
use sqlgate.Db.{Uuid, Time, expired, Approval, Request, DbError, World, find, call, fine}
use sqlgate.Db.Requests.Lookup.{id-find, find-expire_rows}
use sqlgate.Db.Calls.{sent-get_request, get_request-find}
use sqlgate.Db.Approvals.{is_approved, is_stale, expires_now, expire_stale_approvals}
use sqlgate.Host.{Host}
use sqlgate.Fetch.{on_found}
use sqlgate.Execute.Engine.{execute_found, run_execute_pipeline}
use sqlgate.Server.Handlers.Decide.{expire_and_execute}

module _ (host : Host) (email : Text) (i : Uuid) where
  sent-execute_found :
      (r : Request) (w : World)
      → is_approved r.status ≡ false
      → (execute_found host i email r w).1.sent ≡ w.sent
  unfolding execute_found
  sent-execute_found r w h = rw (execute_found, h) refl

  sent-on_found :
      (o : Result (Option Request) DbError) (w : World)
      → ((r : Request) → o ≡ ok (some r) → is_approved r.status ≡ false)
      → (on_found "Database error: " (execute_found host i email) o w).1.sent ≡ w.sent
  unfolding on_found
  sent-on_found (err e) w h = refl
  sent-on_found (ok none) w h = refl
  sent-on_found (ok (some r)) w h = sent-execute_found r w (h r refl)

  -- The pipeline sends nothing for a request that is not approved.
  pub sent-run_execute_pipeline :
      (w : World)
      → ((r : Request) → find i w.db.requests ≡ some r → is_approved r.status ≡ false)
      → (run_execute_pipeline host i email w).1.sent ≡ w.sent
  unfolding run_execute_pipeline
  sent-run_execute_pipeline w h =
      sent-on_found _ _ (λ r answered. h r (get_request-find host.server i w (some r) answered))
      ∙ sent-get_request host.server i w

  stale_row :
      (now : Time) (approvals : List Approval) (o : Option Request) (r : Request)
      → is_stale now approvals i ≡ true
      → ((x : Request) → o ≡ some x → x.id ≡ i)
      → elim o [
        | none ↦ none
        | some x ↦
            if expires_now now approvals x
            then some (record x { status = expired; updated_at = now })
            else some x
      ]
        ≡ some r
      → is_approved r.status ≡ false
  stale_row now approvals none r stale named h = cc
  stale_row now approvals (some x) r stale named h =
      let same = ap (is_stale now approvals) (named x refl) ∙ stale in ground arith

  -- When the expiry in front of an execution meets no fault, a request that has an approval which is
  -- stale at that time is not executed: nothing is sent to a target.
  pub sent-expire_and_execute :
      (w : World)
      → host.server.fault w.calls ≡ fine
      → is_stale (host.server.now w.calls) w.db.approvals i ≡ true
      → (expire_and_execute host email i w).1.sent ≡ w.sent
  unfolding expire_stale_approvals call
  sent-expire_and_execute w reached stale =
      let now = host.server.now w.calls in
      rw (expire_stale_approvals, call, reached)
        (sent-run_execute_pipeline _ λ r found.
          stale_row now w.db.approvals (find i w.db.requests) r stale
            (λ x. id-find i w.db.requests x)
            (sym (find-expire_rows now w.db.approvals i w.db.requests) ∙ found))
