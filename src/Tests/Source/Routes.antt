-- ===== src/Tests/Source/Routes.antt =====
-- The tests of src/http/router.rs and src/static_files.rs.
use Prim.Native.String.{String}
use sqlgate.Prelude.{
  ◌≡◌, refl, ℕ, Bool, true, false, ◌&&◌, Option, none, some, List, [], ◌∷◌, ◌==◌, if◌then◌else◌,
}
use sqlgate.Text.{Text, codes, text_eq}
use sqlgate.Text.Utf8.{utf8}
use sqlgate.Map
use sqlgate.Map.{Map}
use sqlgate.Host.{Host}
use sqlgate.Http.Response.{Response}
use sqlgate.Http.Router.{Router, get, add, route}
use sqlgate.StaticFiles.{serve}
use sqlgate.Tests.{some_host, some_tables}
use sqlgate.Tests.Source.{is_some_with, is_text}

-- src/http/router.rs
abbrev health_only : Option (Router (Unit {0}))
health_only = add [] get (codes "/health") tt

-- The answer of the router that has one route.
abbrev routed : (pattern method path : String) → Option (Unit {0} × Map)
routed pattern method path = elim (add [] get (codes pattern) tt) [
  | none ↦ none
  | some router ↦ route some_tables router (codes method) (codes path)
]

abbrev is_unmatched : Option (Unit {0} × Map) → Bool
is_unmatched none = true
is_unmatched (some _) = false

abbrev has_param : Map → String → String → Bool
has_param params name value = is_text (Map.get (codes name) params) (codes value)

abbrev is_empty_map : Map → Bool
is_empty_map [] = true
is_empty_map (_ ∷ _) = false

abbrev test_exact_match : Bool
test_exact_match = is_some_with (λ m. is_empty_map m.1) (routed "/health" "GET" "/health")

abbrev test_path_param : Bool
test_path_param =
    is_some_with (λ m. has_param m.1 "id" "42") (routed "/requests/:id" "GET" "/requests/42")

abbrev test_multi_segment_param : Bool
test_multi_segment_param =
    is_some_with (λ m. has_param m.1 "name" "mydb" && has_param m.1 "tbl" "users")
      (routed "/db/:name/table/:tbl" "GET" "/db/mydb/table/users")

abbrev test_no_match_404 : Bool
test_no_match_404 = is_unmatched (routed "/health" "GET" "/nonexistent")

abbrev test_method_mismatch : Bool
test_method_mismatch = is_unmatched (routed "/health" "POST" "/health")

abbrev test_trailing_slash_mismatch : Bool
test_trailing_slash_mismatch = is_unmatched (routed "/health" "GET" "/health/")

-- `none` is the panic.
abbrev is_panic : Option (Router (Unit {0})) → Bool
is_panic none = true
is_panic (some _) = false

abbrev test_duplicate_param_panics : Bool
test_duplicate_param_panics = is_panic (add [] get (codes "/a/:x/b/:x") tt)

abbrev test_root_path : Bool
test_root_path = is_some_with (λ m. true) (routed "/" "GET" "/")

router_tests :
    test_exact_match ∷ test_path_param ∷ test_multi_segment_param ∷ test_no_match_404
      ∷ test_method_mismatch ∷ test_trailing_slash_mismatch ∷ test_duplicate_param_panics
      ∷ test_root_path ∷ []
    ≡ true ∷ true ∷ true ∷ true ∷ true ∷ true ∷ true ∷ true ∷ []
unfolding add route Map.get text_eq
router_tests = refl

-- src/static_files.rs
-- A file system with one file.
abbrev host_with_file : Text → Text → Host
host_with_file path content = record some_host {
  is_file = λ p. text_eq p path;
  read_file = λ p. if text_eq p path then some (utf8 content) else none;
}

abbrev no_files : Host
no_files = record some_host { is_file = λ p. false; read_file = λ p. none }

abbrev has_status : Response → ℕ → Bool
has_status r status = r.status == status

abbrev test_path_traversal_rejected : Bool
test_path_traversal_rejected = has_status (serve no_files (codes "../../etc/passwd")) 400

abbrev test_path_traversal_double_dot_in_middle : Bool
test_path_traversal_double_dot_in_middle =
    has_status (serve no_files (codes "css/../../etc/passwd")) 400

abbrev test_nonexistent_file_returns_404 : Bool
test_nonexistent_file_returns_404 = has_status (serve no_files (codes "nonexistent.css")) 404

-- The header of a name, as the test looks it up.
abbrev header : Text → List (Text × Text) → Option Text
header name [] = none
header name ((k, v) ∷ rest) = if text_eq k name then some v else header name rest

abbrev test_serves_existing_file : Bool
test_serves_existing_file =
    let resp =
      serve (host_with_file (codes "static/test_serve.txt") (codes "hello static"))
        (codes "test_serve.txt") in
    has_status resp 200
    && (text_eq resp.body (utf8 (codes "hello static"))
        && is_text (header (codes "Content-Type") resp.headers) (codes "text/plain; charset=utf-8"))

abbrev test_cache_control_header_present : Bool
test_cache_control_header_present =
    let resp = serve (host_with_file (codes "static/test_cache.txt") []) (codes "test_cache.txt") in
    is_text (header (codes "Cache-Control") resp.headers) (codes "public, max-age=3600")

static_tests :
    test_path_traversal_rejected ∷ test_path_traversal_double_dot_in_middle
      ∷ test_nonexistent_file_returns_404 ∷ test_serves_existing_file
      ∷ test_cache_control_header_present ∷ []
    ≡ true ∷ true ∷ true ∷ true ∷ true ∷ []
unfolding serve text_eq utf8
static_tests = refl
