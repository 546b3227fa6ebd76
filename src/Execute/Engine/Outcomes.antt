-- ===== src/Execute/Engine/Outcomes.antt =====
-- What an execution comes to: when the target carries the statement out, and what the tables then say.
use sqlgate.Prelude.{
  ℕ, suc, ◌≡◌, refl, ◌∙◌, ap, ap₂, Bool, true, Option, none, some, List, ◌∷◌, ℤ, as_i32, arith, ok,
}
use sqlgate.Text.{Text, codes}
use sqlgate.Db.{Uuid, executed, Request, DbError, World, call, fine, before, set_db}
use sqlgate.Db.Requests.{get_request, update_status, update_status_sql, set_status}
use sqlgate.Db.Frames.{requests-append_audit_event, requests-insert_execution}
use sqlgate.Db.Executions.{insert_execution, insert_execution_sql}
use sqlgate.Db.Audit.{append_audit_event, append_audit_event_sql}
use sqlgate.Db.Calls.{sent-call}
use sqlgate.Host.{Host}
use sqlgate.Json.{Json}
use sqlgate.Templates.{submit_error}
use sqlgate.Db.Approvals.{is_approved}
use sqlgate.Fetch.{on_found}
use sqlgate.Execute.Engine.{
  ExecResult, mark_executed, record_result, execute_verified, execute_approved, execute_found,
  run_execute_pipeline,
}
use sqlgate.Execute.Engine.Ready.{success, and_sent, execute_postgres-success, IsReady}

module _ (host : Host) (i : Uuid) (r : Request) (email url : Text) (rows : ℕ) (w : World) where
  get_request-ready :
      IsReady host i r url rows w → get_request host.server i w ≡ (ok (some r), set_db w w.db)
  unfolding get_request call
  get_request-ready h = rw (get_request, call, h.reached, h.found) refl

  -- Behind its tests the pipeline is the record of a success.
  pipeline_ready :
      IsReady host i r url rows w
      → run_execute_pipeline host i email w
        ≡ record_result host r i email (success rows) (and_sent (set_db w w.db) url r.query_text)
  unfolding run_execute_pipeline on_found execute_found execute_approved execute_verified
  pipeline_ready h =
      rw
        (
          run_execute_pipeline,
          get_request-ready h,
          on_found,
          execute_found,
          ap is_approved h.approval,
          execute_approved,
          h.verified,
          execute_verified,
          h.resolved,
          h.kind,
          execute_postgres-success host url r.query_text rows (set_db w w.db) h.accepts,
        )
        refl

  -- The request row, when the update behind a success takes effect, and when it does not.
  requests-mark_executed :
      (v : World)
      → host.server.fault v.calls ≡ fine
      → (mark_executed host i none v).1.db.requests
        ≡ set_status executed (host.server.now v.calls) i v.db.requests
  unfolding update_status call
  requests-mark_executed v h = rw (h, update_status, call) refl

  requests-mark_failed :
      (v : World) (e : DbError)
      → host.server.fault v.calls ≡ before e
      → (mark_executed host i none v).1.db.requests ≡ v.db.requests
  unfolding update_status call
  requests-mark_failed v e h = rw (h, update_status, call) refl

  calls-insert_execution :
      (v : World) (hash : Text) (matched : Bool) (n : Option ℤ) (error : Option Text)
      → (insert_execution host.server i hash matched n error v).1.calls ≡ suc v.calls
  unfolding insert_execution call
  calls-insert_execution v hash matched n error = ground arith

  sent-mark_executed :
      (error : Option Text) (v : World) → (mark_executed host i error v).1.sent ≡ v.sent
  unfolding update_status
  sent-mark_executed none v = sent-call host.server (update_status_sql i executed) v
  sent-mark_executed (some e) v = refl

  sent-insert_execution :
      (v : World) (hash : Text) (matched : Bool) (n : Option ℤ) (error : Option Text)
      → (insert_execution host.server i hash matched n error v).1.sent ≡ v.sent
  unfolding insert_execution
  sent-insert_execution v hash matched n error =
      sent-call host.server (insert_execution_sql host.server i hash matched n error) v

  sent-append_audit_event :
      (event : Text) (details : Option Json) (v : World)
      → (append_audit_event host.server (some i) event email details v).1.sent ≡ v.sent
  unfolding append_audit_event
  sent-append_audit_event event details v =
      sent-call host.server (append_audit_event_sql host.server (some i) event email details) v

  sent-record_result :
      (result : ExecResult) (v : World) → (record_result host r i email result v).1.sent ≡ v.sent
  unfolding record_result
  sent-record_result result v =
      sent-append_audit_event _ _ _
      ∙ (sent-mark_executed result.error_message _
          ∙ sent-insert_execution v r.query_hash result.hash_matched result.rows_affected
              result.error_message)

  requests-record_result :
      (v : World)
      → (record_result host r i email (success rows) v).1.db.requests
        ≡ (mark_executed host i none
            (insert_execution host.server i r.query_hash true
              (some (as_i32 rows))
              none
              v).1).1.db.requests
  unfolding record_result
  requests-record_result v = requests-append_audit_event host.server _ (some i) _ email _

  -- What the pipeline has come to: its reply, the one statement that it sent, and the requests.
  pub record IsOutcome (requests : List Request) : Type 0 where
    pub reply :
        (run_execute_pipeline host i email w).0 ≡ submit_error (codes "Query executed successfully")
    pub sent :
        (run_execute_pipeline host i email w).1.sent
        ≡ record { url = url; statement = r.query_text } ∷ w.sent
    pub requests_are : (run_execute_pipeline host i email w).1.db.requests ≡ requests

  sent-ready :
      IsReady host i r url rows w
      → (run_execute_pipeline host i email w).1.sent
        ≡ record { url = url; statement = r.query_text } ∷ w.sent
  sent-ready h =
      rw (pipeline_ready h)
        (sent-record_result (success rows) (and_sent (set_db w w.db) url r.query_text))

  reply-ready :
      IsReady host i r url rows w
      → (run_execute_pipeline host i email w).0 ≡ submit_error (codes "Query executed successfully")
  unfolding record_result
  reply-ready h = rw (pipeline_ready h, record_result) refl

  marked : World
  marked =
      (insert_execution host.server i r.query_hash true (some (as_i32 rows)) none
        (and_sent (set_db w w.db) url r.query_text)).1

  requests-ready :
      IsReady host i r url rows w
      → (run_execute_pipeline host i email w).1.db.requests
        ≡ (mark_executed host i none marked).1.db.requests
  unfolding marked
  requests-ready h =
      rw (pipeline_ready h) (requests-record_result (and_sent (set_db w w.db) url r.query_text))

  calls-marked : marked.calls ≡ suc (suc w.calls)
  unfolding marked
  calls-marked =
      calls-insert_execution (and_sent (set_db w w.db) url r.query_text) r.query_hash true
        (some (as_i32 rows)) none

  requests-marked : marked.db.requests ≡ w.db.requests
  unfolding marked
  requests-marked =
      requests-insert_execution host.server (and_sent (set_db w w.db) url r.query_text) i
        r.query_hash true (some (as_i32 rows)) none

  -- An approved request whose hash is valid, on a configured target that accepts its text, is run
  -- once and becomes executed, if the lookup and the update of the status meet no fault.
  pub run_execute_pipeline-executes :
      IsReady host i r url rows w
      → host.server.fault (suc (suc w.calls)) ≡ fine
      → IsOutcome (set_status executed (host.server.now (suc (suc w.calls))) i w.db.requests)
  run_execute_pipeline-executes h updates = record {
    reply = reply-ready h;
    sent = sent-ready h;
    requests_are =
        requests-ready h
        ∙ (requests-mark_executed marked (ap host.server.fault calls-marked ∙ updates)
            ∙ ap₂ (λ n rs. set_status executed (host.server.now n) i rs) calls-marked
                requests-marked);
  }

  -- Where, for a request that is ready in the same way, the update of the status fails before it runs, the reply is the same,
  -- the statement was run once all the same, and the requests are what they were: it stays approved.
  pub run_execute_pipeline-leaves_approved :
      (e : DbError)
      → IsReady host i r url rows w
      → host.server.fault (suc (suc w.calls)) ≡ before e
      → IsOutcome w.db.requests
  run_execute_pipeline-leaves_approved e h fails = record {
    reply = reply-ready h;
    sent = sent-ready h;
    requests_are =
        requests-ready h
        ∙ (requests-mark_failed marked e (ap host.server.fault calls-marked ∙ fails)
            ∙ requests-marked);
  }
