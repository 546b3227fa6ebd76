-- ===== src/Tests/Source/Requests.antt =====
-- The tests of src/http/request.rs.
use sqlgate.Prelude.{◌≡◌, refl, Bool, true, false, ◌&&◌, [], ◌∷◌, ◌++◌, length, Result}
use sqlgate.Text.{Text, codes, text_eq, is_empty}
use sqlgate.Text.Number.{decimal}
use sqlgate.Map
use sqlgate.Http.Request.{
  Request, ParseError, malformed_request_line, chunked_not_supported, content_length_mismatch,
  unsupported_version, parse, parse_form,
}
use sqlgate.Tests.{some_tables}
use sqlgate.Tests.Source.{is_ok_with, is_err_with, is_text}

-- `parse_bytes`: the peer sends the bytes and closes.
abbrev parse_bytes : Text → Result Request ParseError
parse_bytes raw = parse some_tables true (record { bytes = raw; closed = true })

abbrev is_malformed_request_line : ParseError → Bool
is_malformed_request_line (malformed_request_line _) = true
is_malformed_request_line _ = false

abbrev is_chunked : ParseError → Bool
is_chunked chunked_not_supported = true
is_chunked _ = false

abbrev is_mismatch : ParseError → Bool
is_mismatch (content_length_mismatch _ _) = true
is_mismatch _ = false

abbrev is_version : ParseError → Bool
is_version (unsupported_version _) = true
is_version _ = false

abbrev test_parse_valid_get : Bool
test_parse_valid_get =
    is_ok_with
      (λ req.
        text_eq req.method (codes "GET")
        && (text_eq req.path (codes "/path")
            && (is_text (Map.get (codes "key") req.query) (codes "val")
                && (is_text (Map.get (codes "host") req.headers) (codes "localhost")
                    && is_empty req.body))))
      (parse_bytes (codes "GET /path?key=val HTTP/1.1\r\nHost: localhost\r\n\r\n"))

abbrev hello : Text
hello = codes "{\"hello\":\"world\"}"

abbrev test_parse_post_with_body : Bool
test_parse_post_with_body =
    is_ok_with
      (λ req.
        text_eq req.method (codes "POST")
        && (text_eq req.path (codes "/api") && text_eq req.body hello))
      (parse_bytes (
        codes "POST /api HTTP/1.1\r\nHost: localhost\r\nContent-Length: "
        ++ (decimal (length hello)
            ++ (codes "\r\nContent-Type: application/json\r\n\r\n" ++ hello))))

abbrev test_malformed_request_line_no_panic : Bool
test_malformed_request_line_no_panic =
    is_err_with is_malformed_request_line (parse_bytes (codes "GARBAGE\r\n\r\n"))

abbrev test_chunked_rejected : Bool
test_chunked_rejected = is_err_with is_chunked (
    parse_bytes
      (codes "POST /api HTTP/1.1\r\nHost: localhost\r\nTransfer-Encoding: chunked\r\n\r\n"))

abbrev test_content_length_mismatch : Bool
test_content_length_mismatch = is_err_with is_mismatch (
    parse_bytes (codes "POST /api HTTP/1.1\r\nHost: localhost\r\nContent-Length: 100\r\n\r\nshort"))

abbrev test_percent_decode_query : Bool
test_percent_decode_query =
    is_ok_with
      (λ req.
        is_text (Map.get (codes "q") req.query) (codes "hello world")
        && is_text (Map.get (codes "page") req.query) (codes "1"))
      (parse_bytes (codes "GET /search?q=hello%20world&page=1 HTTP/1.1\r\nHost: localhost\r\n\r\n"))

abbrev form_body : Text
form_body = codes "username=adev&role=admin"

abbrev test_form_body_parsing : Bool
test_form_body_parsing =
    is_ok_with
      (λ req.
        is_text (Map.get (codes "username") (parse_form req)) (codes "adev")
        && is_text (Map.get (codes "role") (parse_form req)) (codes "admin"))
      (parse_bytes (
        codes "POST /login HTTP/1.1\r\nHost: localhost\r\nContent-Length: "
        ++ (decimal (length form_body)
            ++ (codes "\r\nContent-Type: application/x-www-form-urlencoded\r\n\r\n" ++ form_body))))

abbrev test_duplicate_content_length_rejected : Bool
test_duplicate_content_length_rejected = is_err_with is_malformed_request_line (
    parse_bytes (codes "POST /api HTTP/1.1\r\nContent-Length: 5\r\nContent-Length: 5\r\n\r\nhello"))

abbrev test_http_1_0_accepted : Bool
test_http_1_0_accepted =
    is_ok_with (λ req. text_eq req.method (codes "GET"))
      (parse_bytes (codes "GET / HTTP/1.0\r\n\r\n"))

abbrev test_http_2_rejected : Bool
test_http_2_rejected = is_err_with is_version (parse_bytes (codes "GET / HTTP/2.0\r\n\r\n"))

request_tests :
    test_parse_valid_get ∷ test_parse_post_with_body ∷ test_malformed_request_line_no_panic
      ∷ test_chunked_rejected ∷ test_content_length_mismatch ∷ test_percent_decode_query
      ∷ test_form_body_parsing ∷ test_duplicate_content_length_rejected ∷ test_http_1_0_accepted
      ∷ test_http_2_rejected ∷ []
    ≡ true ∷ true ∷ true ∷ true ∷ true ∷ true ∷ true ∷ true ∷ true ∷ true ∷ []
unfolding parse parse_form text_eq decimal Map.get
request_tests = refl
