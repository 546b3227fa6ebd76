-- ===== src/Server/Connection/Guarded.antt =====
-- What a request can do that carries no identity.
use sqlgate.Prelude.{
  ◌≡◌, ◌≢◌, ◌⊎◌, inl, inr, Option-cases, refl, Bool, true, false, Option, none, some, [], ◌∷◌,
  arith, Bool-cases, Result-cases, err,
}
use sqlgate.Text.{Text, CaseTables, codes, to_lowercase, starts_with, strip_prefix, text_eq}
use sqlgate.Text.Equality.{eq_of_text_eq}
use sqlgate.Map
use sqlgate.Map.{Map}
use sqlgate.Auth.{check_email, authenticate, is_public_path}
use sqlgate.Auth.Laws.{authenticate_iff}
use sqlgate.Db.{World}
use sqlgate.Host.{Host}
use sqlgate.Http.Response.{Response, internal_error}
use sqlgate.Http.Request.{Request}
use sqlgate.Http.Router.{Method, get, post, put, delete, first_match, parse_method, route}
use sqlgate.Server.Handlers.{health_handler}
use sqlgate.Server.Connection.{
  Handler, health, secret_header, secret_value, identity, answer_request, dispatch, routes,
  on_route, run_handler, call_handler,
}

-- The answers that `authenticate` gives to those whom it refuses.
abbrev pub IsRefusal : Response → Type 0
IsRefusal r = (r.status ≡ 401) ⊎ (r.status ≡ 500)

authenticate-IsRefusal :
    (tables : CaseTables) (headers : Map) (header value : Text) (r : Response)
    → authenticate tables headers header value ≡ err r
    → IsRefusal r
unfolding authenticate check_email internal_error
authenticate-IsRefusal tables headers header value r h = ground arith

-- What an answer without an identity is: a refusal, with nothing changed.
pub record IsTurnedAway (host : Host) (req : Request) (w : World) : Type 0 where
  pub response : Response
  pub refusal : IsRefusal response
  pub answer : answer_request host req w ≡ (some response, w)

-- On a path that is not public, a request whose header does not hold the tunnel's secret is refused
-- with status 401 or 500, and neither the tables nor the targets are touched.
pub answer_request-IsTurnedAway :
    (host : Host) (req : Request) (w : World)
    → is_public_path req.path ≡ false
    → Map.get (to_lowercase host.tables (secret_header host)) req.headers ≢ some (secret_value host)
    → IsTurnedAway host req w
unfolding answer_request
answer_request-IsTurnedAway host req w private wrong = elim (Result-cases (identity host req)) [
  | inl (user, known) ↦ absurd (
      wrong
        ((authenticate_iff host.tables req.headers (secret_header host) (secret_value host) user).0
          known).secret)
  | inr (r, refused) ↦ record {
    response = r;
    refusal =
        authenticate-IsRefusal host.tables req.headers (secret_header host) (secret_value host) r
          refused;
    answer = rw (private, refused, answer_request) refl;
  }
]

strip_prefix-some : (s p : Text) → starts_with s p ≡ true → (t : Text) × (strip_prefix s p ≡ some t)
unfolding strip_prefix starts_with
strip_prefix-some s [] h = (s, refl)
strip_prefix-some [] (d ∷ p) h = cc
strip_prefix-some (c ∷ s) (d ∷ p) h = ground (arith, strip_prefix-some s p)

-- What `/health` is routed to.
health_route : Method → Option (Handler × Map)
health_route get = some (health, [])
health_route _ = none

health_match :
    (m : Method) (has_db : Bool) → first_match m (codes "/health") (routes has_db) ≡ health_route m
unfolding first_match routes health_route
health_match get true = refl
health_match get false = refl
health_match post true = refl
health_match post false = refl
health_match put true = refl
health_match put false = refl
health_match delete true = refl
health_match delete false = refl

on_health_route :
    (host : Host) (req : Request) (w : World) (m : Method)
    → (on_route host req (health_route m) w).1 ≡ w
unfolding health_route run_handler health_handler
on_health_route host req w get = refl
on_health_route host req w post = refl
on_health_route host req w put = refl
on_health_route host req w delete = refl

health_found :
    (m : Method) (has_db : Bool) (path : Text)
    → path ≡ codes "/health"
    → first_match m path (routes has_db) ≡ health_route m
health_found m has_db path here = rw here (health_match m has_db)

call_health :
    (host : Host) (req : Request) (w : World)
    → req.path ≡ codes "/health"
    → (call_handler host req w).1 ≡ w
unfolding call_handler route
call_health host req w here = elim (Option-cases (parse_method host.tables req.method)) [
  | inl unknown ↦ rw (call_handler, route, unknown) refl
  | inr (m, known) ↦
      rw (call_handler, route, known, health_found m host.has_pool req.path here)
        (on_health_route host req w m)
]

health_prefix : (path : Text) → path ≡ codes "/health" → strip_prefix path (codes "/static/") ≡ none
unfolding strip_prefix
health_prefix path here = rw here refl

public_cases :
    (path : Text)
    → is_public_path path ≡ true
    → (path ≡ codes "/health")
      ⊎ ((file : Text) × (strip_prefix path (codes "/static/") ≡ some file))
unfolding is_public_path
public_cases path public = elim (Bool-cases (text_eq path (codes "/health"))) [
  | inl same ↦ inl (eq_of_text_eq path (codes "/health") same)
  | inr other ↦ inr (strip_prefix-some path (codes "/static/") (ground arith))
]

-- The answer to a request on a public path, for which no identity is asked, leaves the tables and
-- the record of sent statements as they are, and makes no call of the database.
pub answer_request-public :
    (host : Host) (req : Request) (w : World)
    → is_public_path req.path ≡ true
    → (answer_request host req w).1 ≡ w
unfolding answer_request dispatch
answer_request-public host req w public = elim (public_cases req.path public) [
  | inl here ↦
      rw (answer_request, public, dispatch, health_prefix req.path here)
        (call_health host req w here)
  | inr (file, static) ↦ rw (answer_request, public, dispatch, static) refl
]
