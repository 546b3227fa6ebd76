-- ===== src/Server/Handlers/Decide/Approving.antt =====
-- What an approval leaves in the tables, when its calls succeed and when the first of them fails.
use sqlgate.Prelude.{
  suc, ◌≡◌, ◌≢◌, refl, ◌∙◌, ap, inl, inr, true, false, Option, some, List, [], ◌∷◌, ◌++◌, arith, ok,
  err,
}
use sqlgate.Text.{Text, text_eq}
use sqlgate.Json.{Json}
use sqlgate.Text.Equality.{text_cases}
use sqlgate.Db.{
  Uuid, Time, approved, approve, Approval, Request, DbError, World, Server, find, call, fine,
  before, DbResult,
}
use sqlgate.Db.Requests.{update_status, set_status, list_requests}
use sqlgate.Db.Approvals.{is_known, insert_approval, insert_approval_sql}
use sqlgate.Db.Audit.{append_audit_event, append_audit_event_sql}
use sqlgate.Db.Frames.{requests-append_audit_event}
use sqlgate.Host.{Host}
use sqlgate.Server.Handlers.Decide.{
  approval_ttl, expiry, is_pending, store_approval, approve_request, on_reload, reload,
}

approvals-append_audit_event :
    (server : Server) (w : World) (i : Option Uuid) (event email : Text) (details : Option Json)
    → (append_audit_event server i event email details w).1.db.approvals ≡ w.db.approvals
unfolding append_audit_event call append_audit_event_sql
approvals-append_audit_event server w i event email details = ground arith

db-on_reload :
    (host : Host) (o : DbResult (List Request)) (w : World) → (on_reload host o w).1.db ≡ w.db
unfolding on_reload
db-on_reload host (ok rows) w = refl
db-on_reload host (err e) w = refl

db-reload : (host : Host) (w : World) → (reload host w).1.db ≡ w.db
unfolding reload list_requests call
db-reload host w = db-on_reload host _ _ ∙ ground arith

known_of_found :
    (i : Uuid) (rows : List Request) (r : Request) → find i rows ≡ some r → is_known i rows ≡ true
unfolding find
known_of_found i [] r h = cc
known_of_found i (x ∷ xs) r h = ground (arith, known_of_found i xs r)

module _ (host : Host) (email : Text) (i : Uuid) (w : World) where
  decided : Time → World
  decided expires =
      (update_status host.server i approved
        (insert_approval host.server i email approve (some expires) w).1).1

  requests-store_approval :
      (expires : Time)
      → (store_approval host email i expires w).1.db.requests ≡ (decided expires).db.requests
  unfolding store_approval decided
  requests-store_approval expires =
      ap (λ d. d.requests) (db-reload host _)
      ∙ requests-append_audit_event host.server _ (some i) _ email _

  approvals-store_approval :
      (expires : Time)
      → (store_approval host email i expires w).1.db.approvals ≡ (decided expires).db.approvals
  unfolding store_approval decided
  approvals-store_approval expires =
      ap (λ d. d.approvals) (db-reload host _)
      ∙ approvals-append_audit_event host.server _ (some i) _ email _

  -- The instant at which an approval that is given now will expire.
  abbrev pub expires_at : Time
  expires_at = expiry (host.system_time w.calls) (approval_ttl host)

  -- The row of an approval that is given now.
  abbrev pub approval_row : Approval
  approval_row = record {
    id = host.server.new_id w.calls;
    request_id = i;
    approver_email = email;
    decision = approve;
    expires_at = some expires_at;
    created_at = host.server.now w.calls;
  }

  -- The tables of requests and approvals behind an approval.
  pub record IsApproval (r : Request) (approvals : List Approval) : Type 0 where
    pub requests :
        (approve_request host email i r w).1.db.requests
        ≡ set_status approved (host.server.now (suc w.calls)) i w.db.requests
    pub approvals_are : (approve_request host email i r w).1.db.approvals ≡ approvals

  approve_request-store :
      (r : Request)
      → text_eq r.requester_email email ≡ false
      → is_pending r.status ≡ true
      → approve_request host email i r w ≡ store_approval host email i expires_at w
  unfolding approve_request
  approve_request-store r other pending = rw (approve_request, other, pending) refl

  requests-decided :
      (e : Time)
      → host.server.fault (suc w.calls) ≡ fine
      → (decided e).db.requests
        ≡ set_status approved (host.server.now (suc w.calls)) i w.db.requests
  unfolding decided insert_approval insert_approval_sql update_status call
  requests-decided e updates = ground arith

  approvals-decided :
      is_known i w.db.requests ≡ true
      → host.server.fault w.calls ≡ fine
      → (decided expires_at).db.approvals ≡ w.db.approvals ++ approval_row ∷ []
  unfolding decided insert_approval insert_approval_sql update_status call
  approvals-decided known inserts = ground arith

  approvals-decided_failed :
      (expires : Time) (e : DbError)
      → host.server.fault w.calls ≡ before e
      → (decided expires).db.approvals ≡ w.db.approvals
  unfolding decided insert_approval insert_approval_sql update_status call
  approvals-decided_failed expires e fails = ground arith

  other_text : (r : Request) → r.requester_email ≢ email → text_eq r.requester_email email ≡ false
  other_text r other = elim (text_cases r.requester_email email) [
    | inl (same, _) ↦ absurd (other same)
    | inr (_, e) ↦ e
  ]

  -- An approval of a stored, pending request by another person than its requester sets the status and
  -- adds the row of the decision, which expires after the time to live, if the insertion of the row
  -- and the update of the status meet no fault.
  pub approve_request-IsApproval :
      (r : Request)
      → find i w.db.requests ≡ some r
      → r.requester_email ≢ email
      → is_pending r.status ≡ true
      → host.server.fault w.calls ≡ fine
      → host.server.fault (suc w.calls) ≡ fine
      → IsApproval r (w.db.approvals ++ approval_row ∷ [])
  approve_request-IsApproval r found other pending inserts updates =
      let store = approve_request-store r (other_text r other) pending in
      record {
        requests =
            rw store (requests-store_approval expires_at ∙ requests-decided expires_at updates);
        approvals_are = rw store (
            approvals-store_approval expires_at
            ∙ approvals-decided (known_of_found i w.db.requests r found) inserts);
      }

  -- Where, in an approval of a pending request by another person than its requester, the insertion of
  -- the decision fails before it runs and the update of the status does not, the status is set all
  -- the same and no row of the decision is added.
  pub approve_request-unrecorded :
      (r : Request) (e : DbError)
      → r.requester_email ≢ email
      → is_pending r.status ≡ true
      → host.server.fault w.calls ≡ before e
      → host.server.fault (suc w.calls) ≡ fine
      → IsApproval r w.db.approvals
  approve_request-unrecorded r e other pending fails updates =
      let store = approve_request-store r (other_text r other) pending in
      record {
        requests =
            rw store (requests-store_approval expires_at ∙ requests-decided expires_at updates);
        approvals_are =
            rw store
              (approvals-store_approval expires_at ∙ approvals-decided_failed expires_at e fails);
      }
