-- ===== src/Threads/Safe/Execution.antt =====
-- The execution pipeline is safe.
use sqlgate.Prelude.{
  ◌≡◌, sym, ◌∙◌, ap, ap₂, inl, inr, true, false, Option, none, some, [], Bool-cases, Option-cases,
  arith,
}
use sqlgate.Text.{Text, codes, text_eq}
use sqlgate.Db.{Uuid, approved, executed, Request, find}
use sqlgate.Db.Requests.Lookup.{id-find}
use sqlgate.Db.Approvals.{is_approved}
use sqlgate.Host.{Host}
use sqlgate.Targets.{resolve_target_url}
use sqlgate.Execute.Hash.{verify_query_hash}
use sqlgate.Execute.Engine.{ExecResult, mismatch_message}
use sqlgate.Workflow.Calls.{append_audit_event-Change, insert_execution-Change}
use sqlgate.Threads.Pipelines.{
  mark_executed_task, record_result_task, execute_on_task, execute_approved_task,
  execute_found_task, run_execute_task,
}
use sqlgate.Threads.History.{
  History, here, before, Ever, Holds, IsCleared, Event-of_Change, Follows, Ever-Follows,
}
use sqlgate.Threads.History.Kept.{Follows-Keeps}
use sqlgate.Threads.History.Calls.{update_status-Event, execute_postgres-Event}
use sqlgate.Threads.Safe.{Safe, Safe-bind}
use sqlgate.Threads.Safe.Pipelines.{Safe-with_request}

module _ (host : Host) where
  Safe-mark_executed :
      (h : History) (i : Uuid) (error : Option Text)
      → Ever (Holds i (λ r. r.status ≡ approved)) h
      → Safe host h (mark_executed_task host i error)
  Safe-mark_executed h i none ever =
      λ g f. (update_status-Event host g i executed [] (Ever-Follows host _ f ever), tt)
  Safe-mark_executed h i (some e) ever = tt

  Safe-record_result :
      (h : History) (r : Request) (i : Uuid) (email : Text) (result : ExecResult)
      → Ever (Holds i (λ r. r.status ≡ approved)) h
      → Safe host h (record_result_task host r i email result)
  unfolding record_result_task
  Safe-record_result h r i email result ever = λ g f. (
    Event-of_Change host g _ (insert_execution-Change host g.now i _ _ _ _),
    Safe-bind host (mark_executed_task host i result.error_message) _ _
        (Safe-mark_executed _ i result.error_message (before (Ever-Follows host _ f ever)))
        λ g' a f'. λ k f''.
          (Event-of_Change host k _ (append_audit_event-Change host k.now (some i) _ email _), tt),
  )

  -- What was read of the request still holds, but for its status.
  IsCleared-Follows :
      (h g : History) (i : Uuid) (r : Request) (url : Text)
      → Follows host h g
      → find i h.now.db.requests ≡ some r
      → r.status ≡ approved
      → verify_query_hash host r.query_text r.query_hash ≡ true
      → resolve_target_url host r.target_db (codes "EXECUTE") ≡ some url
      → IsCleared host url r.query_text g
  IsCleared-Follows h g i r url f found status verified resolved =
      let kept = Follows-Keeps host f i r found in
      let alike = kept.alike in
      let named : i ≡ kept.row.id = sym (id-find i h.now.db.requests r found) ∙ alike.id in
      record {
        request = kept.row;
        found = ap (λ j. find j g.now.db.requests) (sym named) ∙ kept.found;
        approval =
            Ever-Follows host _ f
              (here (r, ap (λ j. find j h.now.db.requests) (sym named) ∙ found, status));
        verified =
            ap₂ (verify_query_hash host) (sym alike.query_text) (sym alike.query_hash) ∙ verified;
        resolved =
            ap (λ d. resolve_target_url host d (codes "EXECUTE")) (sym alike.target_db) ∙ resolved;
        text = alike.query_text;
      }

  Safe-execute_on :
      (h : History) (r : Request) (i : Uuid) (email : Text)
      → find i h.now.db.requests ≡ some r
      → r.status ≡ approved
      → verify_query_hash host r.query_text r.query_hash ≡ true
      → Safe host h
          (execute_on_task host r i email (resolve_target_url host r.target_db (codes "EXECUTE")))
  unfolding execute_on_task
  Safe-execute_on h r i email found status verified =
      elim (Option-cases (resolve_target_url host r.target_db (codes "EXECUTE"))) [
        | inl missing ↦ rw (missing, execute_on_task) tt
        | inr (url, resolved) ↦ elim (Bool-cases (text_eq r.target_kind (codes "postgres"))) [
          | inl postgres ↦
              rw (resolved, postgres, execute_on_task)
                λ g f. (
                  execute_postgres-Event host g url r.query_text
                      (IsCleared-Follows h g i r url f found status verified resolved),
                  Safe-record_result _ r i email _
                      (before (Ever-Follows host _ f (here (r, found, status)))),
                )
          | inr other ↦ elim (Bool-cases (text_eq r.target_kind (codes "mysql"))) [
            | inl mysql ↦ rw (resolved, other, mysql, execute_on_task) tt
            | inr neither ↦ rw (resolved, other, neither, execute_on_task) tt
          ]
        ]
      ]

  approved_of_test : (r : Request) → is_approved r.status ≡ true → r.status ≡ approved
  approved_of_test r h = ground arith

  Safe-execute_found :
      (h : History) (i : Uuid) (email : Text) (r : Request)
      → find i h.now.db.requests ≡ some r
      → Safe host h (execute_found_task host i email r)
  unfolding execute_found_task execute_approved_task
  Safe-execute_found h i email r found = elim (Bool-cases (is_approved r.status)) [
    | inl test ↦ elim (Bool-cases (verify_query_hash host r.query_text r.query_hash)) [
      | inl verified ↦
          rw (test, execute_found_task, verified, execute_approved_task)
            (Safe-execute_on h r i email found (approved_of_test r test) verified)
      | inr mismatch ↦
          rw (test, execute_found_task, mismatch, execute_approved_task)
            λ g f. (
              Event-of_Change host g _ (
                  insert_execution-Change host g.now i r.query_hash false none
                    (some mismatch_message)),
              tt,
            )
    ]
    | inr test ↦ rw (test, execute_found_task) tt
  ]

  pub Safe-run_execute :
      (h : History) (i : Uuid) (email : Text) → Safe host h (run_execute_task host i email)
  unfolding run_execute_task
  Safe-run_execute h i email =
      Safe-with_request host h i "Database error: " (execute_found_task host i email)
        (λ g r found. Safe-execute_found g i email r found)
