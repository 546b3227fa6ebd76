-- ===== src/Workflow/Pipelines.antt =====
-- A lookup of a request, and the execution pipeline, as sequences of admitted changes.
use sqlgate.Prelude.{
  ◌⊎◌, ◌≡◌, refl, ◌∙◌, inl, inr, true, false, Option, none, some, [], ◌∷◌, arith, Bool-cases,
  Option-cases, Result, ok, err, ap,
}
use sqlgate.Text.{Text, codes, text_eq}
use sqlgate.Text.Equality.{eq_of_text_eq}
use sqlgate.Db.{Uuid, approved, executed, Request, DbError, World, Exec, find}
use sqlgate.Db.Calls.{db-get_request, get_request-find}
use sqlgate.Db.Frames.{requests-insert_execution}
use sqlgate.Db.Requests.Lookup.{id-find}
use sqlgate.Db.Approvals.{is_approved}
use sqlgate.Host.{Host}
use Prim.Native.String.{String}
use sqlgate.Fetch.{on_found, with_request}
use sqlgate.Http.Response.{Response}
use sqlgate.Targets.{resolve_target_url}
use sqlgate.Execute.Hash.{verify_query_hash}
use sqlgate.Execute.Engine.{
  ExecResult, in_transaction, execute_postgres, mark_executed, record_result, execute_verified,
  execute_approved, execute_found, run_execute_pipeline, mismatch_message,
}
use sqlgate.Workflow.{IsAuthorized, Change, stay, send, Steps, here, next, Steps-one, Steps-append}
use sqlgate.Workflow.Calls.{
  get_request-Change, append_audit_event-Change, insert_execution-Change, update_status-Change,
}

module _ (host : Host) where
  module _ (url statement : Text) (w : World) where
    pub db-execute_postgres : (execute_postgres host url statement w).1.db ≡ w.db
    unfolding execute_postgres in_transaction
    db-execute_postgres = ground arith

    sent-in_transaction :
        (in_transaction host url statement w).1.sent
        ≡ record { url = url; statement = statement } ∷ w.sent
    unfolding in_transaction
    sent-in_transaction = ground arith

    -- Running a statement leaves the tables, and sends the statement at most once.
    pub sent-execute_postgres :
        ((execute_postgres host url statement w).1.sent ≡ w.sent)
        ⊎ ((execute_postgres host url statement w).1.sent
            ≡ record { url = url; statement = statement } ∷ w.sent)
    unfolding execute_postgres
    sent-execute_postgres = ground (arith, sent-in_transaction)

    execute_postgres-Change :
        IsAuthorized host url statement w.db
        → Change host w (execute_postgres host url statement w).1
    execute_postgres-Change authorized = elim sent-execute_postgres [
      | inl same ↦ stay db-execute_postgres same
      | inr more ↦ send url statement authorized db-execute_postgres more
    ]

  mark_executed-Steps :
      (i : Uuid) (r : Request) (error : Option Text) (w : World)
      → find i w.db.requests ≡ some r
      → r.status ≡ approved
      → Steps host w (mark_executed host i error w).1
  mark_executed-Steps i r none w found status =
      Steps-one host (update_status-Change host w i r executed [] found status)
  mark_executed-Steps i r (some e) w found status = here

  record_result-Steps :
      (r : Request) (i : Uuid) (email : Text) (result : ExecResult) (w : World)
      → find i w.db.requests ≡ some r
      → r.status ≡ approved
      → Steps host w (record_result host r i email result w).1
  unfolding record_result
  record_result-Steps r i email result w found status =
      let stored =
        insert_execution-Change host w i r.query_hash result.hash_matched result.rows_affected
          result.error_message in
      let same =
        requests-insert_execution host.server w i r.query_hash result.hash_matched
          result.rows_affected result.error_message in
      next
        (Steps-append host (Steps-one host stored)
          (mark_executed-Steps i r result.error_message _ (rw same found) status))
        (append_audit_event-Change host _ (some i) _ email _)

  execute_verified-Steps :
      (r : Request) (i : Uuid) (email : Text) (w : World)
      → find i w.db.requests ≡ some r
      → r.status ≡ approved
      → verify_query_hash host r.query_text r.query_hash ≡ true
      → Steps host w (execute_verified host r i email w).1
  unfolding execute_verified
  execute_verified-Steps r i email w found status verified =
      elim (Option-cases (resolve_target_url host r.target_db (codes "EXECUTE"))) [
        | inl missing ↦ rw (missing, execute_verified) here
        | inr (url, resolved) ↦ elim (Bool-cases (text_eq r.target_kind (codes "postgres"))) [
          | inl postgres ↦
              let sent = execute_postgres-Change url r.query_text w (record {
                request = r;
                found = ap (λ j. find j w.db.requests) (id-find i w.db.requests r found) ∙ found;
                approval = status;
                verified = verified;
                kind = eq_of_text_eq _ _ postgres;
                resolved = resolved;
                text = refl;
              }) in
              let run = execute_postgres host url r.query_text w in
              let same = ap (λ d. find i d.requests) (db-execute_postgres url r.query_text w) in
              rw (resolved, postgres, execute_verified)
                (Steps-append host (Steps-one host sent)
                  (record_result-Steps r i email run.0 run.1 (same ∙ found) status))
          | inr other ↦ elim (Bool-cases (text_eq r.target_kind (codes "mysql"))) [
            | inl mysql ↦ rw (resolved, other, mysql, execute_verified) here
            | inr neither ↦ rw (resolved, other, neither, execute_verified) here
          ]
        ]
      ]

  execute_approved-Steps :
      (r : Request) (i : Uuid) (email : Text) (w : World)
      → find i w.db.requests ≡ some r
      → r.status ≡ approved
      → Steps host w (execute_approved host r i email w).1
  unfolding execute_approved
  execute_approved-Steps r i email w found status =
      elim (Bool-cases (verify_query_hash host r.query_text r.query_hash)) [
        | inl verified ↦
            rw (verified, execute_approved)
              (execute_verified-Steps r i email w found status verified)
        | inr mismatch ↦
            rw (mismatch, execute_approved)
              (Steps-one host
                (insert_execution-Change host w i r.query_hash false none (some mismatch_message)))
      ]

  approved_of_test : (r : Request) → is_approved r.status ≡ true → r.status ≡ approved
  approved_of_test r h = ground arith

  execute_found-Steps :
      (i : Uuid) (email : Text) (w : World) (r : Request)
      → find i w.db.requests ≡ some r
      → Steps host w (execute_found host i email r w).1
  unfolding execute_found
  execute_found-Steps i email w r found = elim (Bool-cases (is_approved r.status)) [
    | inl test ↦
        rw (test, execute_found)
          (execute_approved-Steps r i email w found (approved_of_test r test))
    | inr test ↦ rw (test, execute_found) here
  ]

  on_found-Steps :
      (what : String) (k : Request → Exec Response) (o : Result (Option Request) DbError)
      (w : World)
      → ((r : Request) → o ≡ ok (some r) → Steps host w (k r w).1)
      → Steps host w (on_found what k o w).1
  unfolding on_found
  on_found-Steps what k (err e) w h = here
  on_found-Steps what k (ok none) w h = here
  on_found-Steps what k (ok (some r)) w h = h r refl

  -- After a lookup the row that was read is the row of the table.
  pub with_request-Steps :
      (i : Uuid) (what : String) (k : Request → Exec Response) (w : World)
      → ((v : World) (r : Request) → find i v.db.requests ≡ some r → Steps host v (k r v).1)
      → Steps host w (with_request host i what k w).1
  with_request-Steps i what k w h =
      let same = ap (λ d. find i d.requests) (db-get_request host.server i w) in
      Steps-append host (Steps-one host (get_request-Change host w i)) (
        on_found-Steps what k _ _
          λ r answered. h _ r (same ∙ get_request-find host.server i w (some r) answered))

  pub run_execute_pipeline-Steps :
      (i : Uuid) (email : Text) (w : World) → Steps host w (run_execute_pipeline host i email w).1
  unfolding run_execute_pipeline
  run_execute_pipeline-Steps i email w =
      with_request-Steps i "Database error: " (execute_found host i email) w
        (execute_found-Steps i email)
