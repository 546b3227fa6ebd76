-- ===== src/Http/Request.antt =====
-- src/http/request.rs: reading a request from a connection.
pub mod Bounds
pub mod Lines
pub mod Printing
pub mod Headers
pub mod Roundtrip
use sqlgate.Prelude.{
  ℕ, zero, suc, ◌+◌, Bool, true, false, not, ◌&&◌, ◌||◌, Option, none, some, List, [], ◌∷◌, ltb,
  ◌==◌, if◌then◌else◌, length, take, drop, Result, ok, err,
}
use sqlgate.Text.{
  Text, Bytes, CaseTables, codes, is_empty, text_eq, trim, trim_end_matches, split_once, splitn,
  to_uppercase, to_lowercase, contains,
}
use sqlgate.Text.Utf8.{from_utf8, from_utf8_lossy}
use sqlgate.Text.Number.{parse_u64}
use sqlgate.Map.{Map, insert, contains_key}
use sqlgate.Auth.{AuthenticatedUser}
use sqlgate.Http.Query.{split_query, parse_query_string}

pub record Request : Type 0 where
  pub method : Text
  pub path : Text
  pub headers : Map
  pub body : Bytes
  pub query : Map
  pub params : Map
  pub authenticated_user : Option AuthenticatedUser

pub data ParseError : Type 0 where
  read_timeout : ParseError
  malformed_request_line : Text → ParseError
  unsupported_version : Text → ParseError
  chunked_not_supported : ParseError
  content_length_mismatch : (declared actual : ℕ) → ParseError
  too_large : ParseError

-- The bytes that a connection will deliver, and whether the peer then closes it or a read fails, by
-- the timeout or another error.
pub record Stream : Type 0 where
  pub bytes : Bytes
  pub closed : Bool

-- A line with its line feed, what is behind it, and whether there was a line feed.
unfoldable pub take_line : Bytes → Bytes × Bytes × Bool
take_line [] = ([], [], false)
take_line (b ∷ s) =
    let (line, rest, found) = take_line s in
    if b == b'\n' then (b ∷ [], s, true) else (b ∷ line, rest, found)

-- `read_line`: `none` is an I/O error, which bytes that are no UTF-8 are too. The number is that of
-- the bytes read, 0 at the end.
unfoldable pub read_line : Stream → Option (Text × ℕ × Stream)
unfolding take_line from_utf8
read_line s =
    let (line, rest, found) = take_line s.bytes in
    if found || s.closed
    then elim (from_utf8 line) [
      | none ↦ none
      | some text ↦ some (text, length line, record s { bytes = rest })
    ]
    else none

abbrev pub is_line_end : ℕ → Bool
is_line_end c = c == b'\r' || c == b'\n'

abbrev pub is_some {ℓ} : {A : Type ℓ} → Option A → Bool
is_some none = false
is_some (some _) = true

-- What the header loop changes.
pub record Heading : Type 0 where
  pub headers : Map
  pub content_length : Option ℕ
  pub header_bytes : ℕ

-- The match on the name of a header, before it is inserted.
unfoldable pub check_header :
    CaseTables → Heading → (line name value : Text) → Result (Option ℕ) ParseError
unfolding text_eq parse_u64 to_lowercase contains
check_header tables h line name value =
    if text_eq name (codes "content-length")
    then (if is_some h.content_length
        then err (malformed_request_line (codes "duplicate Content-Length"))
        else elim (parse_u64 value) [
          | none ↦ err (malformed_request_line line)
          | some n ↦ ok (some n)
        ])
    else if text_eq name (codes "host")
    then (if contains_key (codes "host") h.headers
        then err (malformed_request_line (codes "duplicate Host"))
        else ok h.content_length)
    else if text_eq name (codes "transfer-encoding")
        && contains (to_lowercase tables value) (codes "chunked")
    then err chunked_not_supported
    else ok h.content_length

-- One line of the header block; a line with no colon is passed over.
unfoldable pub add_header : CaseTables → Heading → Text → Result Heading ParseError
unfolding check_header split_once trim insert
add_header tables h line = elim (split_once b':' line) [
  | none ↦ ok h
  | some (left, right) ↦
      elim (check_header tables h line (to_lowercase tables (trim left)) (trim right)) [
        | err e ↦ err e
        | ok n ↦ ok (record h {
          headers = insert (to_lowercase tables (trim left)) (trim right) h.headers;
          content_length = n;
        })
      ]
]

-- The header loop. Each round but the last reads a byte at least: more fuel than bytes is enough.
unfoldable pub read_headers :
    CaseTables → ℕ → Heading → Stream → Result (Heading × Stream) ParseError
unfolding read_line add_header trim_end_matches
read_headers tables zero h s = err read_timeout
read_headers tables (suc fuel) h s = elim (read_line s) [
  | none ↦ err read_timeout
  | some (raw, n, s') ↦
      if n == 0
      then ok (h, s')
      else if ltb 65536 (h.header_bytes + n)
      then err too_large
      else if is_empty (trim_end_matches is_line_end raw)
      then ok (record h { header_bytes = h.header_bytes + n }, s')
      else elim (add_header tables (record h { header_bytes = h.header_bytes + n })
          (trim_end_matches is_line_end raw)) [
            | err e ↦ err e
            | ok h' ↦ read_headers tables fuel h' s'
          ]
]

-- Part 4: `read_exact` fails if fewer bytes arrive.
unfoldable pub read_body : Option ℕ → Stream → Result Bytes ParseError
read_body none s = ok []
read_body (some len) s =
    if ltb 1048576 len
    then err too_large
    else if ltb (length s.bytes) len
    then err (content_length_mismatch len 0)
    else ok (take len s.bytes)

abbrev pub no_headers : Heading
no_headers = record { headers = []; content_length = none; header_bytes = 0 }

-- Parts 2 to 4, on the three parts of the request line.
unfoldable pub parse_rest :
    CaseTables → (method target version : Text) → Stream → Result Request ParseError
unfolding text_eq split_query read_headers read_body to_uppercase
parse_rest tables method target version s =
    if not (text_eq version (codes "HTTP/1.1")) && not (text_eq version (codes "HTTP/1.0"))
    then err (unsupported_version version)
    else elim (read_headers tables (suc (length s.bytes)) no_headers s) [
      | err e ↦ err e
      | ok (h, s') ↦ elim (read_body h.content_length s') [
        | err e ↦ err e
        | ok body ↦ ok (record {
          method = to_uppercase tables method;
          path = (split_query target).0;
          headers = h.headers;
          body = body;
          query = (split_query target).1;
          params = [];
          authenticated_user = none;
        })
      ]
    ]

unfoldable pub parse_parts : CaseTables → Text → List Text → Stream → Result Request ParseError
unfolding parse_rest
parse_parts tables line (method ∷ target ∷ version ∷ []) s =
    parse_rest tables method target version s
parse_parts tables line _ s = err (malformed_request_line line)

-- `can_time` says whether the read timeout could be set.
unfoldable pub parse : CaseTables → (can_time : Bool) → Stream → Result Request ParseError
unfolding read_line parse_parts splitn trim_end_matches
parse tables can_time s =
    if can_time
    then elim (read_line s) [
      | none ↦ err read_timeout
      | some (raw, n, s') ↦
          if n == 0
          then err (malformed_request_line (codes "empty"))
          else if ltb 8192 n
          then err too_large
          else (let line = trim_end_matches is_line_end raw in
              parse_parts tables line (splitn 3 b' ' line) s')
    ]
    else err read_timeout

unfoldable pub parse_form : Request → Map
unfolding parse_query_string from_utf8_lossy
parse_form r = parse_query_string (from_utf8_lossy r.body)
