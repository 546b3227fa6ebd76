-- ===== src/Workflow/Submitting.antt =====
-- A submission as a sequence of admitted changes.
use sqlgate.Prelude.{◌≡◌, refl, true, some, arith, Result, ok, err}
use sqlgate.Text.{Text, codes}
use sqlgate.Db
use sqlgate.Db.{
  Uuid, Time, Status, submitted, previewed, pending_approval, approved, rejected, approve, reject,
  DbError, DbResult, World, Exec, find, AuditEvent,
}
use sqlgate.Db.Frames.{requests-append_audit_event}
use sqlgate.Db.Requests.{is_kind, is_topology}
use sqlgate.Db.Requests.Lookup.{find-insert_request}
use sqlgate.Host.{Host}
use sqlgate.Http.Request.{Request}
use sqlgate.Execute.Hash.{query_hash}
use sqlgate.Server.Handlers.Submit.{
  Submission, submission, submit_details, check_submission, on_inserted, persist_submission,
  on_checked, submit_handler,
}
use sqlgate.Workflow.{Steps, here, Steps-one, Steps-append}
use sqlgate.Workflow.Calls.{append_audit_event-Change, insert_request-Change}
use sqlgate.Workflow.Reading.{on_pool-Steps, on_user-Steps}
use sqlgate.Workflow.Previewing.{run_preview_pipeline-Steps}

module _ (host : Host) where
  -- A submission that passed the checks has an admitted target and topology.
  pub check_submission-ok :
      (s : Submission) (u : Unit {0})
      → check_submission host s ≡ ok u
      → (is_kind s.target_kind ≡ true) × (is_topology s.target_topology ≡ true)
  unfolding check_submission
  check_submission-ok s u h = ground arith

  on_inserted-Steps :
      (s : Submission) (email : Text) (o : DbResult Uuid) (v : World)
      → ((i : Uuid)
          → o ≡ ok i
          → (r : Db.Request) × (find i v.db.requests ≡ some r) × (r.status ≡ submitted))
      → Steps host v (on_inserted host s email o v).1
  unfolding on_inserted
  on_inserted-Steps s email (err e) v h = here
  on_inserted-Steps s email (ok i) v h =
      let (r, found, status) = h i refl in
      let same =
        requests-append_audit_event host.server v (some i) (codes "submitted") email
          (some (submit_details s (query_hash host s.query_text))) in
      Steps-append host
        (Steps-one host (append_audit_event-Change host v (some i) (codes "submitted") email _))
        (run_preview_pipeline-Steps host i s.query_text s.target_kind s.target_db s.target_topology
          email _ r (rw same found) status)

  persist_submission-Steps :
      (s : Submission) (email : Text) (w : World)
      → is_kind s.target_kind ≡ true
      → is_topology s.target_topology ≡ true
      → Steps host w (persist_submission host s email w).1
  unfolding persist_submission
  persist_submission-Steps s email w kind topology =
      Steps-append host
        (Steps-one host (
          insert_request-Change host w s.query_text s.target_kind s.target_db s.target_topology
            email kind topology))
        (on_inserted-Steps s email _ _ λ i answered. (
          _,
          find-insert_request host.server s.query_text (query_hash host s.query_text) s.target_kind
              s.target_db s.target_topology email w i answered,
          refl,
        ))

  on_checked-Steps :
      (s : Submission) (email : Text) (o : Result (Unit {0}) Text) (w : World)
      → check_submission host s ≡ o
      → Steps host w (on_checked host s email o w).1
  unfolding on_checked
  on_checked-Steps s email (err message) w h = here
  on_checked-Steps s email (ok u) w h =
      let (kind, topology) = check_submission-ok s u h in
      on_pool-Steps host host.has_pool (persist_submission host s email) w
        (persist_submission-Steps s email w kind topology)

  pub submit_handler-Steps :
      (req : Request) (w : World) → Steps host w (submit_handler host req w).1
  unfolding submit_handler
  submit_handler-Steps req w =
      on_user-Steps host req.authenticated_user
        (λ user.
          on_checked host (submission req) user.email (check_submission host (submission req)))
        w
        λ user.
          on_checked-Steps (submission req) user.email (check_submission host (submission req)) w
            refl
