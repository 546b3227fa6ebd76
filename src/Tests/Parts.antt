-- ===== src/Tests/Parts.antt =====
-- The theorems on the parts of the program.
use sqlgate.Prelude.{
  ◌≤◌, ◌≡◌, ◌≢◌, ◌↔◌, ◌⊎◌, refl, true, false, none, some, [], ◌∷◌, ◌++◌, All, ok, arith, length,
}
use sqlgate.Text.{codes, text_eq, to_lowercase, to_uppercase}
use sqlgate.Map
use sqlgate.Db.{submitted, approved, World}
use sqlgate.Db.Requests.{list_requests}
use sqlgate.Db.Requests.Listing.{IsListing, list_requests-IsListing}
use sqlgate.Auth.{AuthenticatedUser, is_public_path, authenticate}
use sqlgate.Auth.Laws.{IsIdentified, authenticate_iff}
use sqlgate.Execute.Hash.{constant_time_eq}
use sqlgate.Execute.Hash.Xor.{constant_time_eq_iff}
use sqlgate.Http.Query.{percent_decode}
use sqlgate.Http.Query.Roundtrip.{percent_encode, percent_decode-percent_encode}
use sqlgate.Http.Request.{Request, Stream, read_headers, no_headers, parse}
use sqlgate.Http.Request.Bounds.{read_headers-fuel, parse-body_le}
use sqlgate.Http.Router.{get, post, first_match}
use sqlgate.Http.Router.Matching.{IsFirst, first_match-IsFirst}
use sqlgate.Preview.Validator.{strip_from, validate_query, max_query_len}
use sqlgate.Preview.Validator.Comments.{strip_from-fuel}
use sqlgate.Preview.Validator.Allowed.{IsAllowed, validate_query-IsAllowed}
use sqlgate.Server.Connection.{secret_header, secret_value, detail, answer_request, routes}
use sqlgate.Server.Connection.Guarded.{
  IsTurnedAway, answer_request-IsTurnedAway, answer_request-public,
}
use sqlgate.StaticFiles.{serve}
use sqlgate.StaticFiles.Traversal.{IsConfined, serve-IsConfined}
use sqlgate.Targets.{resolve_target_url}
use sqlgate.Targets.Resolution.{IsConfigured, resolve_target_url-IsConfigured}
use sqlgate.Templates.{html_escape}
use sqlgate.Templates.Escaping.{IsInert, html_escape-IsInert}
use sqlgate.Tests.{some_tables, some_host, request_in, world_with, plain_request}

abbrev world : World
world = world_with submitted []

-- A post with no header, and a request for a style sheet.
abbrev stranger : Request
stranger = plain_request "POST" "/execute"

abbrev style : Request
style = plain_request "GET" "/static/style.css"

stranger_private : is_public_path stranger.path ≡ false
unfolding is_public_path
stranger_private = refl

style_public : is_public_path style.path ≡ true
unfolding is_public_path
style_public = refl

stranger_unknown :
    Map.get (to_lowercase some_host.tables (secret_header some_host)) stranger.headers
    ≢ some (secret_value some_host)
unfolding Map.get
stranger_unknown same = cc

answer_request-IsTurnedAway_example : IsTurnedAway some_host stranger world
answer_request-IsTurnedAway_example =
    answer_request-IsTurnedAway some_host stranger world stranger_private stranger_unknown

answer_request-public_example : (answer_request some_host style world).1 ≡ world
answer_request-public_example = answer_request-public some_host style world style_public

abbrev headers : Map.Map
headers =
    (codes "x-cf-tunnel-secret", codes "secret")
    ∷ (codes "cf-access-authenticated-user-email", codes "ada@example.org")
    ∷ []

abbrev ada : AuthenticatedUser
ada = record { email = codes "ada@example.org" }

authenticate_iff_example :
    (authenticate some_tables headers (codes "X-CF-Tunnel-Secret") (codes "secret") ≡ ok ada)
    ↔ IsIdentified some_tables headers (codes "X-CF-Tunnel-Secret") (codes "secret") ada
authenticate_iff_example =
    authenticate_iff some_tables headers (codes "X-CF-Tunnel-Secret") (codes "secret") ada

constant_time_eq_iff_example :
    (constant_time_eq (codes "ab12") (codes "ab13") ≡ true) ↔ (codes "ab12" ≡ codes "ab13")
constant_time_eq_iff_example = constant_time_eq_iff (codes "ab12") (codes "ab13")

validate_query-IsAllowed_example :
    (validate_query some_tables (codes "/* all */ select 1;") max_query_len ≡ ok tt)
    ↔ IsAllowed some_tables (codes "/* all */ select 1;") max_query_len
validate_query-IsAllowed_example =
    validate_query-IsAllowed some_tables (codes "/* all */ select 1;") max_query_len

strip_from-fuel_example : strip_from 9 (codes "1 -- x") ≡ strip_from 6 (codes "1 -- x")
strip_from-fuel_example = strip_from-fuel 9 6 (codes "1 -- x") (omega arith) (omega arith)

abbrev stream : Stream
stream = record {
  bytes = codes "post /submit?a=1 HTTP/1.1\nContent-Length: 7\n\nquery=1";
  closed = false;
}

abbrev read : Request
read = record {
  method = codes "POST";
  path = codes "/submit";
  headers = (codes "content-length", codes "7") ∷ [];
  body = codes "query=1";
  query = (codes "a", codes "1") ∷ [];
  params = [];
  authenticated_user = none;
}

parsed : parse some_tables true stream ≡ ok read
unfolding parse
parsed = refl

parse-body_le_example : length read.body ≤ 1048576
parse-body_le_example = parse-body_le some_tables true stream read parsed

abbrev rest : Stream
rest = record { bytes = codes "Host: a\n\n"; closed = false }

read_headers-fuel_example :
    read_headers some_tables 30 no_headers rest ≡ read_headers some_tables 10 no_headers rest
read_headers-fuel_example =
    read_headers-fuel some_tables 30 10 no_headers rest (omega arith) (omega arith)

percent_decode-percent_encode_example :
    percent_decode (percent_encode (0xc3 ∷ 0xa9 ∷ [])) ≡ 0xc3 ∷ 0xa9 ∷ []
percent_decode-percent_encode_example =
    percent_decode-percent_encode (0xc3 ∷ 0xa9 ∷ []) (omega arith, (omega arith, tt))

abbrev listed_world : World
listed_world =
    let w = world_with approved [] in
    record w {
      db = record w.db {
        requests = request_in approved ∷ request_in submitted ∷ request_in approved ∷ [];
      };
    }

list_requests-IsListing_example :
    IsListing
      (some (codes "approved"))
      1
      1
      listed_world.db.requests
      (list_requests some_host.server (some (codes "approved")) 1 1 listed_world).0
list_requests-IsListing_example =
    list_requests-IsListing some_host.server (some (codes "approved")) 1 1 listed_world refl

routed :
    first_match get (codes "/requests/7") (routes true)
    ≡ some (detail, (codes "id", codes "7") ∷ [])
unfolding first_match routes
routed = refl

first_match-IsFirst_example :
    IsFirst get (codes "/requests/7") (routes true) detail ((codes "id", codes "7") ∷ [])
first_match-IsFirst_example =
    first_match-IsFirst get (codes "/requests/7") (routes true) detail
      ((codes "id", codes "7") ∷ []) routed

not_routed : first_match post (codes "/requests/7") (routes true) ≡ none
unfolding first_match routes
not_routed = refl

served : (serve some_host (codes "style.css")).status ≡ 200
unfolding serve
served = refl

serve-IsConfined_example : IsConfined some_host (codes "style.css")
serve-IsConfined_example = serve-IsConfined some_host (codes "style.css") served

resolved : resolve_target_url some_host (codes "app") (codes "EXECUTE") ≡ some (codes "writer")
unfolding resolve_target_url text_eq
resolved = refl

resolve_target_url-IsConfigured_example :
    IsConfigured some_host (codes "writer") (
      codes "TARGET_" ++ (to_uppercase some_tables (codes "app") ++ (codes "_" ++ codes "EXECUTE")))
    ⊎ IsConfigured some_host
        (codes "writer")
        (codes "TARGET_" ++ (codes "app" ++ (codes "_" ++ codes "EXECUTE")))
resolve_target_url-IsConfigured_example =
    resolve_target_url-IsConfigured some_host (codes "app") (codes "EXECUTE") (codes "writer")
      resolved

html_escape-IsInert_example : All IsInert (html_escape (codes "<a b=\"&\">"))
html_escape-IsInert_example = html_escape-IsInert (codes "<a b=\"&\">")
