-- ===== src/Http/Request/Roundtrip.antt =====
-- `parse` reads a request back that was printed.
use sqlgate.Prelude.{
  ◌&&◌, ℕ, suc, ◌+◌, ◌≤◌, ◌≡◌, refl, ◌∙◌, ap, ap₂, Bool, true, false, not, none, some, List, [],
  ◌∷◌, ◌++◌, all, arith, length, take, ◌==◌, ok, ltb,
}
use sqlgate.Text.{
  trim_end_matches, Text, Bytes, CaseTables, codes, text_eq, to_lowercase, to_uppercase, splitn,
}
use sqlgate.Text.Number.{parse_u64}
use sqlgate.Map.{Map, insert}
use sqlgate.Http.Query.{split_query}
use sqlgate.Http.Request.{
  is_line_end, read_line, Stream, Heading, read_headers, read_body, no_headers, parse_rest,
  parse_parts, parse,
}
use sqlgate.Http.Request.Lines.{
  is_plain, ended, read_line-ended, trim-ended, length-ended, splitn-three,
}
use sqlgate.Http.Request.Printing.{
  Field, field_text, IsField, AreOrdinary, printed_fields, size_of, stored, add_header-length,
}
use sqlgate.Http.Request.Headers.{behind_headers, with_header, IsRead-printed, long_enough}

take_all : (b : Bytes) → take (length b) b ≡ b
take_all [] = refl
take_all (c ∷ b) = ap (λ t. c ∷ t) (take_all b)

abbrev pub request_line : Text → Text → Text
request_line method target = method ++ (b' ' ∷ (target ++ (b' ' ∷ codes "HTTP/1.1")))

-- A method in capitals and a target without spaces, a length that is that of the body, and further
-- headers that the reader accepts, all within its limits.
pub record IsMessage (tables : CaseTables) (method target : Text) (size : Field)
    (fields : List Field) (body : Bytes) : Type 0 where
  pub plain : all is_plain (request_line method target) ≡ true
  pub short : length (request_line method target) + 2 ≤ 8192
  pub in_capitals : to_uppercase tables method ≡ method
  pub method_parts : all (λ c. not (c == b' ')) method ≡ true
  pub target_parts : all (λ c. not (c == b' ')) target ≡ true
  pub size_field : IsField size
  pub size_name : to_lowercase tables size.name ≡ codes "content-length"
  pub size_value : parse_u64 size.value ≡ some (length body)
  pub ordinary : AreOrdinary tables (insert (codes "content-length") size.value []) fields
  pub few : size_of (size ∷ fields) ≤ 65536
  pub limited : length body ≤ 1048576

-- What the header loop gives for the headers of a message.
record IsReadMessage (tables : CaseTables) (size : Field) (fields : List Field) (body : Bytes)
    (closed : Bool) (s : Stream) : Type 0 where
  heading : Heading
  read :
      read_headers tables (suc (length s.bytes)) no_headers s
      ≡ ok (heading, record { bytes = body; closed = closed })
  headers : heading.headers ≡ stored tables fields (insert (codes "content-length") size.value [])
  content_length : heading.content_length ≡ some (length body)

read_message :
    (tables : CaseTables) (method target : Text) (size : Field) (fields : List Field) (body : Bytes)
    (closed : Bool)
    → IsMessage tables method target size fields body
    → IsReadMessage tables size fields body closed
        (record { bytes = printed_fields (size ∷ fields) body; closed = closed })
read_message tables method target size fields body closed m =
    let h₁ : Heading = record no_headers {
      header_bytes = 0 + length (ended (field_text size) []);
    } in
    let h' : Heading = record h₁ {
      headers = insert (codes "content-length") size.value [];
      content_length = some (length body);
    } in
    let enough = long_enough (size ∷ fields) body in
    let count = length-ended (field_text size) in
    let read =
      IsRead-printed tables body closed fields (length (printed_fields (size ∷ fields) body)) h'
        (omega (arith, enough)) (omega (arith, count, m.few)) m.ordinary in
    record {
      heading = read.heading;
      read =
          with_header tables body closed (length (printed_fields (size ∷ fields) body)) no_headers
            h' size fields m.size_field (omega (arith, m.few))
            (add_header-length tables h₁ size (length body) m.size_field m.size_name refl
              m.size_value)
          ∙ read.read;
      headers = read.headers;
      content_length = read.content_length;
    }

module _ (tables : CaseTables) where
  -- The parts of a request behind its line.
  rest_of :
      (method target version : Text) (s s' : Stream) (h : Heading) (body : Bytes)
      → (not (text_eq version (codes "HTTP/1.1")) && not (text_eq version (codes "HTTP/1.0")))
        ≡ false
      → read_headers tables (suc (length s.bytes)) no_headers s ≡ ok (h, s')
      → read_body h.content_length s' ≡ ok body
      → parse_rest tables method target version s
        ≡ ok (record {
          method = to_uppercase tables method;
          path = (split_query target).0;
          headers = h.headers;
          body = body;
          query = (split_query target).1;
          params = [];
          authenticated_user = none;
        })
  unfolding parse_rest
  rest_of method target version s s' h body known e b = rw (parse_rest, known, e, b) refl

  whole :
      (s s' : Stream) (raw : Text) (n : ℕ) (method target version : Text)
      → read_line s ≡ some (raw, n, s')
      → (n == 0) ≡ false
      → ltb 8192 n ≡ false
      → splitn 3 b' ' (trim_end_matches is_line_end raw) ≡ method ∷ target ∷ version ∷ []
      → parse tables true s ≡ parse_rest tables method target version s'
  unfolding parse parse_parts
  whole s s' raw n method target version e nonzero short parts =
      rw (parse, e, nonzero, short)
        (ap (λ ps. parse_parts tables (trim_end_matches is_line_end raw) ps s') parts)

  read_body-whole :
      (body : Bytes) (closed : Bool)
      → length body ≤ 1048576
      → read_body (some (length body)) (record { bytes = body; closed = closed }) ≡ ok body
  unfolding read_body
  read_body-whole body closed limited =
      let small : ltb 1048576 (length body) ≡ false = ground (arith, limited) in
      let there : ltb (length body) (length body) ≡ false = ground arith in
      rw (read_body, small, there, take_all body) refl

  module _ (method target : Text) (size : Field) (fields : List Field) (body : Bytes)
      (closed : Bool) where
    -- A request that is printed with a request line, a length of its body, further headers and the
    -- body, all within the limits of the reader, is read as it was: with its method, its target split
    -- at the question mark, each header under its name in small letters, and its body.
    pub parse-printed :
        IsMessage tables method target size fields body
        → parse tables true (record {
          bytes = ended (request_line method target) (printed_fields (size ∷ fields) body);
          closed = closed;
        })
          ≡ ok (record {
            method = method;
            path = (split_query target).0;
            headers = stored tables fields (insert (codes "content-length") size.value []);
            body = body;
            query = (split_query target).1;
            params = [];
            authenticated_user = none;
          })
    unfolding text_eq
    parse-printed m =
        let s' : Stream = record { bytes = printed_fields (size ∷ fields) body; closed = closed } in
        let line : Text = request_line method target in
        let read = read_message tables method target size fields body closed m in
        whole (record { bytes = ended line s'.bytes; closed = closed }) s' (ended line [])
          (length (ended line [])) method target (codes "HTTP/1.1")
          (read_line-ended line s'.bytes closed m.plain) (ground (arith, length-ended line))
          (ground (arith, length-ended line, m.short))
          (ap (splitn 3 b' ') (trim-ended line m.plain)
            ∙ splitn-three b' ' method target (codes "HTTP/1.1") m.method_parts m.target_parts)
        ∙ (rest_of method target (codes "HTTP/1.1") s' (behind_headers tables body closed)
              read.heading body refl read.read
              (ap (λ c. read_body c (behind_headers tables body closed)) read.content_length
                ∙ read_body-whole body closed m.limited)
            ∙ ap₂
                (λ (a : Text) (b : Map). ok (record {
                  method = a;
                  path = (split_query target).0;
                  headers = b;
                  body = body;
                  query = (split_query target).1;
                  params = [];
                  authenticated_user = none;
                }))
                m.in_capitals read.headers)
