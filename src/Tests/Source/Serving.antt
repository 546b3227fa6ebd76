-- ===== src/Tests/Source/Serving.antt =====
-- The tests of the server in src/main.rs. Their router has at most the route of /health, which these
-- tests ask for on the routes of `main`.
use Prim.Native.String.{String}
use sqlgate.Prelude.{
  ◌≡◌, refl, ℕ, zero, suc, Bool, true, false, not, ◌&&◌, List, [], ◌∷◌, ◌++◌, length, ◌==◌,
}
use sqlgate.Text.{Bytes, codes, contains, is_empty, strip_prefix}
use sqlgate.Map
use sqlgate.Auth.{is_public_path}
use sqlgate.Http.Response.{write, ok_text}
use sqlgate.Http.Router.{route}
use sqlgate.Server.Connection.{routes}
use sqlgate.Server.Handlers.{health_handler}
use sqlgate.Threads.Connections.{connection_task, handler_task, dispatch_task, answer_task}
use sqlgate.Db.{submitted, World}
use sqlgate.Http.Request.{Stream, parse}
use sqlgate.Threads.{Task, done, act}
use sqlgate.Threads.Server.{Move, check, accept, turn, run_server, fresh}
use sqlgate.Tests.{some_host, world_with}

abbrev sends : String → Stream
sends raw = record { bytes = codes raw; closed = false }

abbrev health_request : Stream
health_request = sends "GET /health HTTP/1.1\r\nHost: localhost\r\n\r\n"

abbrev world : World
world = world_with submitted []

-- What the clients read.
abbrev answers : (Bytes → Bool) → List (Task Bytes) → Bool
answers p [] = true
answers p (done bytes ∷ ts) = p bytes && answers p ts
answers p (act e n ∷ ts) = false

abbrev served : List Move → List (Task Bytes)
served ms = (run_server some_host ms (fresh world)).threads

abbrev test_server_health_endpoint : Bool
test_server_health_endpoint =
    answers (λ bytes. contains bytes (codes "200 OK") && contains bytes (codes "\r\n\r\nok"))
      (served (check ∷ accept true health_request ∷ turn 0 ∷ []))

abbrev test_fuzz_malformed_requests : Bool
test_fuzz_malformed_requests =
    answers (λ bytes. not (is_empty bytes))
      (served (
        check
        ∷ accept true (sends "NOT HTTP\r\n\r\n")
        ∷ check
        ∷ accept true (sends "GET\r\n\r\n")
        ∷ check
        ∷ accept true (sends "GET / HTTP/9.9\r\n\r\n")
        ∷ check
        ∷ accept true (sends "POST / HTTP/1.1\r\nContent-Length: 999999\r\n\r\n")
        ∷ []))

abbrev accepted : ℕ → List Move
accepted zero = []
accepted (suc n) = check ∷ accept true health_request ∷ accepted n

-- The threads have their turns from the last to the first.
abbrev turned : ℕ → List Move
turned zero = []
turned (suc n) = turn n ∷ turned n

abbrev test_concurrent_health_requests : Bool
test_concurrent_health_requests =
    let threads = served (accepted 50 ++ turned 50) in
    (length threads == 50) && answers (λ bytes. contains bytes (codes "200")) threads

server_tests :
    test_server_health_endpoint ∷ test_fuzz_malformed_requests ∷ test_concurrent_health_requests
      ∷ []
    ≡ true ∷ true ∷ true ∷ []
unfolding run_server contains connection_task parse Map.get answer_task is_public_path dispatch_task
    strip_prefix route routes handler_task write health_handler ok_text
server_tests = refl
