-- ===== src/Http/Request/Headers.antt =====
-- Printed headers are read back.
use sqlgate.Prelude.{
  ℕ, zero, suc, ◌+◌, ◌≤◌, ◌<◌, ◌≡◌, refl, ◌∙◌, ap, Bool, List, [], ◌∷◌, arith, length,
  length-append, ok,
}
use sqlgate.Text.{trim_end_matches, Bytes, CaseTables, to_lowercase, is_empty}
use sqlgate.Map.{insert}
use sqlgate.Http.Request.{is_line_end, Stream, Heading, add_header, read_headers}
use sqlgate.Http.Request.Lines.{ended, read_line-ended, trim-ended, length-ended}
use sqlgate.Http.Request.Printing.{
  Field, field_text, IsField, AreOrdinary, printed_fields, size_of, stored, add_header-ordinary,
  round_last, round_header,
}

module _ (tables : CaseTables) (body : Bytes) (closed : Bool) where
  abbrev pub behind_headers : Stream
  behind_headers = record { bytes = body; closed = closed }

  -- What the header loop gives for printed headers.
  pub record IsRead (fuel : ℕ) (h : Heading) (fs : List Field) : Type 0 where
    pub heading : Heading
    pub read :
        read_headers tables fuel h (record { bytes = printed_fields fs body; closed = closed })
        ≡ ok (heading, behind_headers)
    pub headers : heading.headers ≡ stored tables fs h.headers
    pub content_length : heading.content_length ≡ h.content_length

  -- A header in front, that `add_header` accepts.
  pub with_header :
      (fuel : ℕ) (h h' : Heading) (f : Field) (fs : List Field)
      → IsField f
      → h.header_bytes + size_of (f ∷ fs) ≤ 65536
      → add_header tables
          (record h { header_bytes = h.header_bytes + length (ended (field_text f) []) })
          (field_text f)
        ≡ ok h'
      → read_headers tables
          (suc fuel)
          h
          (record { bytes = printed_fields (f ∷ fs) body; closed = closed })
        ≡ read_headers tables fuel h' (record { bytes = printed_fields fs body; closed = closed })
  with_header fuel h h' f fs o fits added =
      let line = field_text f in
      let count : length (ended line []) ≡ length line + 2 = length-ended line in
      let trimmed : trim_end_matches is_line_end (ended line []) ≡ line = trim-ended line o.plain in
      round_header tables fuel h h' _ (record { bytes = printed_fields fs body; closed = closed })
        (ended line []) (length (ended line []))
        (read_line-ended line (printed_fields fs body) closed o.plain) (ground (arith, count))
        (ground (arith, count, fits)) (ap is_empty trimmed ∙ o.nonempty)
        (ap
            (λ t.
              add_header tables
                (record h { header_bytes = h.header_bytes + length (ended line []) }) t)
            trimmed
          ∙ added)

  pub IsRead-printed :
      (fs : List Field) (fuel : ℕ) (h : Heading)
      → length fs < fuel
      → h.header_bytes + size_of fs ≤ 65536
      → AreOrdinary tables h.headers fs
      → IsRead fuel h fs
  unfolding trim_end_matches
  IsRead-printed fs zero h lt fits os = let never : ⊥ = omega arith in elim never [ ]
  IsRead-printed [] (suc fuel) h lt fits os = record {
    heading = record h { header_bytes = h.header_bytes + 2 };
    read =
        round_last tables fuel h (record { bytes = ended [] body; closed = closed }) behind_headers
          (ended [] []) 2 (read_line-ended [] body closed refl) refl (ground (arith, fits)) refl;
    headers = refl;
    content_length = refl;
  }
  IsRead-printed (f ∷ fs) (suc fuel) h lt fits (o, os) =
      let h₁ = record h { header_bytes = h.header_bytes + length (ended (field_text f) []) } in
      let h' = record h₁ { headers = insert (to_lowercase tables f.name) f.value h.headers } in
      let count = length-ended (field_text f) in
      let rest = IsRead-printed fs fuel h' (omega arith) (omega (arith, count, fits)) os in
      record {
        heading = rest.heading;
        read =
            with_header fuel h h' f fs o.field fits (add_header-ordinary tables h₁ f o) ∙ rest.read;
        headers = rest.headers;
        content_length = rest.content_length;
      }

pub long_enough : (fs : List Field) (body : Bytes) → length fs < length (printed_fields fs body)
long_enough [] body = ground arith
long_enough (f ∷ fs) body =
    let rest = long_enough fs body in
    let count = length-append (field_text f) (b'\r' ∷ b'\n' ∷ printed_fields fs body) in
    omega (arith, rest, count)
