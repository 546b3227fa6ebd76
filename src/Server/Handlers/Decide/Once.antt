-- ===== src/Server/Handlers/Decide/Once.antt =====
-- An execution that is asked for twice.
use sqlgate.Prelude.{
  ℕ, suc, ◌≡◌, refl, sym, ◌∙◌, ap, false, Option, none, some, List, arith, ◌==◌, if◌then◌else◌,
}
use sqlgate.Text.{Text}
use sqlgate.Db.{Uuid, Time, executed, Request, World, find, fine}
use sqlgate.Db.Requests.{set_status}
use sqlgate.Db.Requests.Lookup.{id-find, find-set_status, with_status}
use sqlgate.Db.Approvals.{is_approved}
use sqlgate.Host.{Host}
use sqlgate.Execute.Engine.{run_execute_pipeline}
use sqlgate.Execute.Engine.Outcomes.{run_execute_pipeline-executes}
use sqlgate.Execute.Engine.Ready.{IsReady}
use sqlgate.Server.Handlers.Decide.Outcomes.{sent-run_execute_pipeline}

executed_row :
    (i : Uuid) (now : Time) (o : Option Request) (r : Request)
    → ((x : Request) → o ≡ some x → x.id ≡ i)
    → elim o [
      | none ↦ none
      | some x ↦ if x.id == i then some (with_status executed now x) else some x
    ]
      ≡ some r
    → is_approved r.status ≡ false
executed_row i now none r named h = cc
executed_row i now (some x) r named h = ground (arith, named x refl)

not_approved_after :
    (i : Uuid) (now : Time) (rows : List Request) (r : Request)
    → find i (set_status executed now i rows) ≡ some r
    → is_approved r.status ≡ false
not_approved_after i now rows r found =
    executed_row i now (find i rows) r (λ x. id-find i rows x)
      (sym (find-set_status executed now i i rows) ∙ found)

module _ (host : Host) (i : Uuid) (r : Request) (email url : Text) (rows : ℕ) (w : World) where
  -- If a request is ready for execution, and neither its lookup nor the update of its status meets a
  -- fault, then whoever asks for its execution again, the pipeline sends nothing more.
  pub run_execute_pipeline-once :
      (other : Text)
      → IsReady host i r url rows w
      → host.server.fault (suc (suc w.calls)) ≡ fine
      → (run_execute_pipeline host i other (run_execute_pipeline host i email w).1).1.sent
        ≡ (run_execute_pipeline host i email w).1.sent
  run_execute_pipeline-once other ready updates =
      let outcome = run_execute_pipeline-executes host i r email url rows w ready updates in
      sent-run_execute_pipeline host other i (run_execute_pipeline host i email w).1 λ x found.
        not_approved_after i (host.server.now (suc (suc w.calls))) w.db.requests x
          (ap (find i) (sym outcome.requests_are) ∙ found)
