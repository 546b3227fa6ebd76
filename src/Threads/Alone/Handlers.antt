-- ===== src/Threads/Alone/Handlers.antt =====
-- The handlers, alone.
use sqlgate.Prelude.{
  ◌≡◌, refl, ◌∙◌, Bool, true, false, Option, none, some, Bool-cases, inl, inr, Result, ok, err,
}
use sqlgate.Text.{Text, text_eq}
use sqlgate.Db
use sqlgate.Db.{Uuid, World, DbResult, Exec}
use sqlgate.Host.{Host}
use sqlgate.Auth.{AuthenticatedUser}
use sqlgate.Http.Request.{Request}
use sqlgate.Http.Response.{Response}
use sqlgate.Server.Handlers.{
  Handled, on_pool, on_user, on_request_id, for_request, form_value, on_detail_id, show_request,
}
use sqlgate.Server.Handlers.Submit.{
  Submission, submission, check_submission, on_inserted, persist_submission, on_checked,
  submit_handler,
}
use sqlgate.Server.Handlers.Decide.{
  is_previewed, is_pending, request_approval, reload, store_approval, approve_request,
  store_rejection, reject_request, expire_and_approve, expire_and_execute,
}
use sqlgate.Threads.{Task, alone}
use sqlgate.Threads.Alone.Bind.{alone-bind}
use sqlgate.Threads.Alone.Pipelines.{alone-with_request, alone-run_preview, alone-run_execute}
use sqlgate.Threads.Handlers.{
  Answering, on_pool_task, on_user_task, on_request_id_task, for_request_task, show_request_task,
  on_detail_id_task, on_inserted_task, submission_task, on_checked_task, submit_task,
  request_approval_task, reload_task, store_approval_task, approve_task, store_rejection_task,
  reject_task, expire_and_approve_task, expire_and_execute_task,
}

module _ (host : Host) where
  pub alone-on_pool :
      (b : Bool) (t : Task Response) (m : Exec Response) (w : World)
      → alone t w ≡ m w
      → alone (on_pool_task b t) w ≡ on_pool b m w
  alone-on_pool true t m w h = alone-bind t _ w ∙ rw h refl
  alone-on_pool false t m w h = refl

  pub alone-on_user :
      (o : Option AuthenticatedUser) (t : AuthenticatedUser → Answering)
      (m : AuthenticatedUser → Handled) (w : World)
      → ((u : AuthenticatedUser) → alone (t u) w ≡ m u w)
      → alone (on_user_task o t) w ≡ on_user o m w
  alone-on_user none t m w h = refl
  alone-on_user (some u) t m w h = h u

  alone-on_request_id :
      (o : Option Uuid) (t : Uuid → Answering) (m : Uuid → Handled) (w : World)
      → ((i : Uuid) → alone (t i) w ≡ m i w)
      → alone (on_request_id_task o t) w ≡ on_request_id o m w
  alone-on_request_id none t m w h = refl
  alone-on_request_id (some i) t m w h = h i

  pub alone-for_request :
      (req : Request) (t : Text → Uuid → Task Response) (m : Text → Uuid → Exec Response)
      (w : World)
      → ((email : Text) (i : Uuid) → alone (t email i) w ≡ m email i w)
      → alone (for_request_task host req t) w ≡ for_request host req m w
  alone-for_request req t m w h =
      alone-on_user req.authenticated_user
        (λ user.
          on_request_id_task (host.parse_uuid (form_value req "request_id" ""))
            λ i. on_pool_task host.has_pool (t user.email i))
        (λ user.
          on_request_id (host.parse_uuid (form_value req "request_id" ""))
            λ i. on_pool host.has_pool (m user.email i))
        w
        λ user.
          alone-on_request_id (host.parse_uuid (form_value req "request_id" ""))
            (λ i. on_pool_task host.has_pool (t user.email i))
            (λ i. on_pool host.has_pool (m user.email i)) w
            λ i. alone-on_pool host.has_pool (t user.email i) (m user.email i) w (h user.email i)

  alone-show_request :
      (req : Request) (i : Uuid) (r : Db.Request) (w : World)
      → alone (show_request_task host req i r) w ≡ show_request host req i r w
  unfolding show_request_task show_request
  alone-show_request req i r w = refl

  pub alone-on_detail_id :
      (req : Request) (o : Option Uuid) (w : World)
      → alone (on_detail_id_task host req o) w ≡ on_detail_id host req o w
  alone-on_detail_id req none w = refl
  alone-on_detail_id req (some i) w =
      alone-with_request host i "DB error: " (show_request_task host req i)
        (show_request host req i) w (alone-show_request req i)

  alone-on_inserted :
      (s : Submission) (email : Text) (o : DbResult Uuid) (w : World)
      → alone (on_inserted_task host s email o) w ≡ on_inserted host s email o w
  unfolding on_inserted_task on_inserted
  alone-on_inserted s email (err e) w = refl
  alone-on_inserted s email (ok i) w = alone-run_preview host i _ _ _ _ email _

  alone-submission :
      (s : Submission) (email : Text) (w : World)
      → alone (submission_task host s email) w ≡ persist_submission host s email w
  unfolding submission_task persist_submission
  alone-submission s email w = alone-on_inserted s email _ _

  alone-on_checked :
      (s : Submission) (email : Text) (o : Result (Unit {0}) Text) (w : World)
      → alone (on_checked_task host s email o) w ≡ on_checked host s email o w
  unfolding on_checked_task on_checked
  alone-on_checked s email (err message) w = refl
  alone-on_checked s email (ok u) w =
      alone-on_pool host.has_pool (submission_task host s email) (persist_submission host s email) w
        (alone-submission s email w)

  pub alone-submit :
      (req : Request) (w : World) → alone (submit_task host req) w ≡ submit_handler host req w
  unfolding submit_task submit_handler
  alone-submit req w =
      alone-on_user req.authenticated_user
        (λ user.
          on_checked_task host (submission req) user.email (check_submission host (submission req)))
        (λ user.
          on_checked host (submission req) user.email (check_submission host (submission req)))
        w
        λ user.
          alone-on_checked (submission req) user.email (check_submission host (submission req)) w

  module _ (email : Text) (i : Uuid) where
    pub alone-request_approval :
        (r : Db.Request) (w : World)
        → alone (request_approval_task host email i r) w ≡ request_approval host email i r w
    unfolding request_approval_task request_approval
    alone-request_approval r w = elim (Bool-cases (is_previewed r.status)) [
      | inl test ↦ rw (request_approval_task, request_approval, test) refl
      | inr test ↦ rw (request_approval_task, request_approval, test) refl
    ]

    pub alone-approve :
        (r : Db.Request) (w : World)
        → alone (approve_task host email i r) w ≡ approve_request host email i r w
    unfolding approve_task approve_request store_approval_task store_approval reload_task reload
    alone-approve r w = elim (Bool-cases (text_eq r.requester_email email)) [
      | inl own ↦ rw (approve_task, approve_request, own) refl
      | inr other ↦ elim (Bool-cases (is_pending r.status)) [
        | inl test ↦ rw (approve_task, approve_request, other, test) refl
        | inr test ↦ rw (approve_task, approve_request, other, test) refl
      ]
    ]

    pub alone-reject :
        (r : Db.Request) (w : World)
        → alone (reject_task host email i r) w ≡ reject_request host email i r w
    unfolding reject_task reject_request store_rejection_task store_rejection reload_task reload
    alone-reject r w = elim (Bool-cases (text_eq r.requester_email email)) [
      | inl own ↦ rw (reject_task, reject_request, own) refl
      | inr other ↦ elim (Bool-cases (is_pending r.status)) [
        | inl test ↦ rw (reject_task, reject_request, other, test) refl
        | inr test ↦ rw (reject_task, reject_request, other, test) refl
      ]
    ]

    pub alone-expire_and_approve :
        (w : World)
        → alone (expire_and_approve_task host email i) w ≡ expire_and_approve host email i w
    alone-expire_and_approve w =
        alone-with_request host i "Database error: " (approve_task host email i)
          (approve_request host email i) _ alone-approve

    pub alone-expire_and_execute :
        (w : World)
        → alone (expire_and_execute_task host email i) w ≡ expire_and_execute host email i w
    alone-expire_and_execute w = alone-run_execute host i email _
