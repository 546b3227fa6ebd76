-- ===== src/Threads/Bounded/Handlers.antt =====
-- The acts of the handlers and of a whole connection (src/main.rs).
use sqlgate.Prelude.{ℕ, [], Option, none, some, Bool, true, false, ok, err, Result}
use sqlgate.Text.{Text, codes, text_eq, strip_prefix}
use sqlgate.Map
use sqlgate.Map.{Map, or_default}
use sqlgate.Db.{Uuid, DbResult}
use sqlgate.Host.{Host}
use sqlgate.Auth.{AuthenticatedUser, is_public_path}
use sqlgate.Http.Request.{Request, ParseError, Stream, parse}
use sqlgate.Http.Response.{Response, write}
use sqlgate.Http.Router.{route}
use sqlgate.Server.Handlers.{form_value}
use sqlgate.Server.Handlers.Submit.{Submission, submission, check_submission}
use sqlgate.Server.Handlers.Decide.{is_previewed, is_pending}
use sqlgate.Server.Connection.{
  Handler, root, health, submit_form, approvals, history, detail, submit, request_approval, approve,
  reject, execute, routes, identity, or_500,
}
use sqlgate.Threads.{Task}
use sqlgate.Threads.Handlers.{
  Answering, on_pool_task, on_user_task, for_request_task, on_request_id_task, approvals_list_task,
  history_list_task, show_request_task, on_detail_id_task, on_inserted_task, submission_task,
  on_checked_task, submit_task, request_approval_task, reload_task, store_approval_task,
  approve_task, store_rejection_task, reject_task, ask_task, expire_and_approve_task, refuse_task,
  expire_and_execute_task,
}
use sqlgate.Threads.Connections.{
  handler_task, on_route_task, on_static_task, dispatch_task, on_identity_task, answer_task,
  on_parsed_task, connection_task,
}
use sqlgate.Threads.Bounded.{Bounded, Bounded-more, Bounded-map, Bounded-if}
use sqlgate.Threads.Bounded.Pipelines.{
  Bounded-with_request, Bounded-run_preview, Bounded-run_execute,
}

Bounded-on_pool :
    (n : ℕ) (b : Bool) (t : Task Response) → Bounded n t → Bounded n (on_pool_task b t)
Bounded-on_pool n true t b = Bounded-map n t some b
Bounded-on_pool n false t b = tt

Bounded-on_user :
    (n : ℕ) (o : Option AuthenticatedUser) (k : AuthenticatedUser → Answering)
    → ((user : AuthenticatedUser) → Bounded n (k user))
    → Bounded n (on_user_task o k)
Bounded-on_user n none k b = tt
Bounded-on_user n (some user) k b = b user

module _ (host : Host) where
  Bounded-on_request_id :
      (n : ℕ) (o : Option Uuid) (k : Uuid → Answering)
      → ((i : Uuid) → Bounded n (k i))
      → Bounded n (on_request_id_task o k)
  Bounded-on_request_id n none k b = tt
  Bounded-on_request_id n (some i) k b = b i

  Bounded-for_request :
      (n : ℕ) (req : Request) (k : Text → Uuid → Task Response)
      → ((email : Text) (i : Uuid) → Bounded n (k email i))
      → Bounded n (for_request_task host req k)
  Bounded-for_request n req k b = Bounded-on_user n req.authenticated_user _ λ user.
      Bounded-on_request_id n (host.parse_uuid (form_value req "request_id" "")) _
        λ i. Bounded-on_pool n host.has_pool (k user.email i) (b user.email i)

  Bounded-on_detail_id :
      (req : Request) (o : Option Uuid) → Bounded 3 (on_detail_id_task host req o)
  unfolding show_request_task
  Bounded-on_detail_id req none = tt
  Bounded-on_detail_id req (some i) =
      Bounded-with_request host 2 i "DB error: " (show_request_task host req i) λ r w v. tt

  Bounded-on_inserted :
      (s : Submission) (email : Text) (o : DbResult Uuid)
      → Bounded 5 (on_inserted_task host s email o)
  unfolding on_inserted_task
  Bounded-on_inserted s email (err e) = tt
  Bounded-on_inserted s email (ok i) =
      λ w. Bounded-run_preview host i s.query_text s.target_kind s.target_db s.target_topology email

  Bounded-on_checked :
      (s : Submission) (email : Text) (o : Result (Unit {0}) Text)
      → Bounded 6 (on_checked_task host s email o)
  unfolding on_checked_task submission_task
  Bounded-on_checked s email (err message) = tt
  Bounded-on_checked s email (ok _) =
      Bounded-on_pool 6 host.has_pool (submission_task host s email)
        λ w. Bounded-on_inserted s email _

  Bounded-submit : (req : Request) → Bounded 6 (submit_task host req)
  unfolding submit_task
  Bounded-submit req = Bounded-on_user 6 req.authenticated_user _ λ user.
      Bounded-on_checked (submission req) user.email (check_submission host (submission req))

  Bounded-ask : (email : Text) (i : Uuid) → Bounded 3 (ask_task host email i)
  unfolding request_approval_task
  Bounded-ask email i =
      Bounded-with_request host 2 i "Database error: " (request_approval_task host email i)
        λ r. Bounded-if 2 (is_previewed r.status) _ _ (λ w v. tt) tt

  Bounded-approve : (email : Text) (i : Uuid) → Bounded 8 (expire_and_approve_task host email i)
  unfolding approve_task store_approval_task reload_task
  Bounded-approve email i = λ w.
      Bounded-with_request host 6 i "Database error: " (approve_task host email i) λ r.
        Bounded-if 6 (text_eq r.requester_email email) _ _ tt
          (Bounded-if 6 (is_pending r.status) _ _ (λ a b c d e f. tt) tt)

  Bounded-refuse : (email : Text) (i : Uuid) → Bounded 6 (refuse_task host email i)
  unfolding reject_task store_rejection_task reload_task
  Bounded-refuse email i =
      Bounded-with_request host 5 i "Database error: " (reject_task host email i) λ r.
        Bounded-if 5 (text_eq r.requester_email email) _ _ tt
          (Bounded-if 5 (is_pending r.status) _ _ (λ a b c d e. tt) tt)

  Bounded-execute : (email : Text) (i : Uuid) → Bounded 6 (expire_and_execute_task host email i)
  Bounded-execute email i = λ w. Bounded-run_execute host i email

  Bounded-handler : (k : Handler) (req : Request) → Bounded 8 (handler_task host k req)
  unfolding handler_task
  Bounded-handler root req = λ w. tt
  Bounded-handler health req = λ w. tt
  Bounded-handler submit_form req = λ w. tt
  Bounded-handler approvals req =
      Bounded-on_pool 8 host.has_pool (approvals_list_task host req) λ a b c. tt
  Bounded-handler history req =
      Bounded-on_pool 8 host.has_pool (history_list_task host req) λ a b. tt
  Bounded-handler detail req =
      let o = host.parse_uuid (or_default [] (Map.get (codes "id") req.params)) in
      Bounded-on_pool 8 host.has_pool (on_detail_id_task host req o)
        (Bounded-more 5 3 (on_detail_id_task host req o) (Bounded-on_detail_id req o))
  Bounded-handler submit req = Bounded-more 2 6 (submit_task host req) (Bounded-submit req)
  Bounded-handler request_approval req =
      Bounded-more 5 3 (for_request_task host req (ask_task host))
        (Bounded-for_request 3 req (ask_task host) Bounded-ask)
  Bounded-handler approve req =
      Bounded-for_request 8 req (expire_and_approve_task host) Bounded-approve
  Bounded-handler reject req =
      Bounded-more 2 6 (for_request_task host req (refuse_task host))
        (Bounded-for_request 6 req (refuse_task host) Bounded-refuse)
  Bounded-handler execute req =
      Bounded-more 2 6 (for_request_task host req (expire_and_execute_task host))
        (Bounded-for_request 6 req (expire_and_execute_task host) Bounded-execute)

  Bounded-on_route :
      (req : Request) (o : Option (Handler × Map)) → Bounded 8 (on_route_task host req o)
  Bounded-on_route req none = tt
  Bounded-on_route req (some (k, params)) = Bounded-handler k (record req { params = params })

  Bounded-on_static : (req : Request) (o : Option Text) → Bounded 8 (on_static_task host req o)
  Bounded-on_static req none =
      Bounded-on_route req (route host.tables (routes host.has_pool) req.method req.path)
  Bounded-on_static req (some file) = tt

  Bounded-dispatch : (req : Request) → Bounded 8 (dispatch_task host req)
  unfolding dispatch_task
  Bounded-dispatch req = Bounded-on_static req (strip_prefix req.path (codes "/static/"))

  Bounded-on_identity :
      (req : Request) (o : Result AuthenticatedUser Response)
      → Bounded 8 (on_identity_task host req o)
  Bounded-on_identity req (err response) = tt
  Bounded-on_identity req (ok user) =
      Bounded-dispatch (record req { authenticated_user = some user })

  Bounded-answer : (req : Request) → Bounded 8 (answer_task host req)
  unfolding answer_task
  Bounded-answer req =
      Bounded-if 8 (is_public_path req.path) _ _ (Bounded-dispatch req)
        (Bounded-on_identity req (identity host req))

  Bounded-on_parsed : (o : Result Request ParseError) → Bounded 8 (on_parsed_task host o)
  Bounded-on_parsed (err e) = tt
  Bounded-on_parsed (ok req) =
      Bounded-map 8 (answer_task host req) (λ r. write (or_500 r)) (Bounded-answer req)

  pub Bounded-connection :
      (can_time : Bool) (stream : Stream) → Bounded 8 (connection_task host can_time stream)
  unfolding connection_task
  Bounded-connection can_time stream = Bounded-on_parsed (parse host.tables can_time stream)
