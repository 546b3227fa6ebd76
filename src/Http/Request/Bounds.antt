-- ===== src/Http/Request/Bounds.antt =====
-- The bounds on what a connection can make the reader do.
use sqlgate.Prelude.{
  ℕ, zero, suc, ◌+◌, ◌≤◌, ◌<◌, ◌≡◌, refl, Bool, Option, none, some, List, [], ◌∷◌, arith, length,
  length-take-le, inl, inr, Option-cases, Bool-cases, Result-cases, ok, ◌==◌,
}
use sqlgate.Text.{Text, Bytes, CaseTables, trim_end_matches, splitn}
use sqlgate.Http.Request.{
  Request, Stream, take_line, is_line_end, no_headers, read_line, Heading, read_headers, read_body,
  parse_rest, parse_parts, parse, add_header,
}

take_line_shorter : (s : Bytes) → length (take_line s).1 + length (take_line s).0 ≡ length s
unfolding take_line
take_line_shorter [] = refl
take_line_shorter (b ∷ s) = ground (arith, take_line_shorter s)

-- A line that is read takes its bytes off the stream.
read_line_shorter :
    (s t : Stream) (raw : Text) (n : ℕ)
    → read_line s ≡ some (raw, n, t)
    → length t.bytes + n ≡ length s.bytes
unfolding read_line
read_line_shorter s t raw n h = ground (arith, take_line_shorter s.bytes)

-- With any fuel above the number of bytes that are left, the header loop has the same result: the
-- fuel that it is given is enough.
pub read_headers-fuel :
    (tables : CaseTables) (fuel more : ℕ) (h : Heading) (s : Stream)
    → length s.bytes < fuel
    → length s.bytes < more
    → read_headers tables fuel h s ≡ read_headers tables more h s
unfolding read_headers
read_headers-fuel tables zero more h s p q = elim p [ ]
read_headers-fuel tables (suc fuel) zero h s p q = elim q [ ]
read_headers-fuel tables (suc fuel) (suc more) h s p q = elim (Option-cases (read_line s)) [
  | inl fails ↦ rw (fails, read_headers) refl
  | inr ((raw, n, t), reads) ↦ elim (Bool-cases (n == 0)) [
    | inl end ↦ rw (reads, read_headers, end) refl
    | inr going ↦
        elim (Result-cases (
          add_header tables (record h { header_bytes = h.header_bytes + n })
            (trim_end_matches is_line_end raw))) [
              | inl (h2, adds) ↦
                  let shorter = read_line_shorter s t raw n reads in
                  let again =
                    read_headers-fuel tables fuel more h2 t (ground arith) (ground arith) in
                  rw (reads, read_headers, going, adds, again) refl
              | inr (e, fails) ↦ rw (reads, read_headers, going, fails) refl
            ]
  ]
]

read_body_le :
    (n : Option ℕ) (s : Stream) (body : Bytes) → read_body n s ≡ ok body → length body ≤ 1048576
unfolding read_body
read_body_le none s body h = ground arith
read_body_le (some n) s body h = ground (arith, length-take-le n s.bytes)

parse_rest_le :
    (tables : CaseTables) (method target version : Text) (s : Stream) (r : Request)
    → parse_rest tables method target version s ≡ ok r
    → length r.body ≤ 1048576
unfolding parse_rest
parse_rest_le tables method target version s r h =
    elim (Result-cases (read_headers tables (suc (length s.bytes)) no_headers s)) [
      | inl ((g, t), reads) ↦ elim (Result-cases (read_body g.content_length t)) [
        | inl (body, has) ↦ ground (arith, read_body_le g.content_length t body has)
        | inr (e, fails) ↦ ground arith
      ]
      | inr (e, fails) ↦ ground arith
    ]

parse_parts_le :
    (tables : CaseTables) (line : Text) (parts : List Text) (s : Stream) (r : Request)
    → parse_parts tables line parts s ≡ ok r
    → length r.body ≤ 1048576
unfolding parse_parts
parse_parts_le tables line [] s r h = ground arith
parse_parts_le tables line (a ∷ []) s r h = ground arith
parse_parts_le tables line (a ∷ b ∷ []) s r h = ground arith
parse_parts_le tables line (a ∷ b ∷ c ∷ []) s r h = parse_rest_le tables a b c s r h
parse_parts_le tables line (a ∷ b ∷ c ∷ d ∷ ps) s r h = ground arith

-- The body of a request that is read has at most 2^20 bytes.
pub parse-body_le :
    (tables : CaseTables) (can_time : Bool) (s : Stream) (r : Request)
    → parse tables can_time s ≡ ok r
    → length r.body ≤ 1048576
unfolding parse
parse-body_le tables can_time s r h = elim (Option-cases (read_line s)) [
  | inl fails ↦ ground arith
  | inr ((raw, n, t), reads) ↦ ground (
    arith,
    parse_parts_le tables (trim_end_matches is_line_end raw)
        (splitn 3 b' ' (trim_end_matches is_line_end raw)) t r,
  )
]
