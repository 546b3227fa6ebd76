-- ===== src/Http/Request/Printing.antt =====
-- Requests as a client prints them, and what `parse` makes of them.
use sqlgate.Prelude.{
  ◌&&◌, Bool-cases, inl, inr, ℕ, suc, ◌+◌, ◌≡◌, refl, sym, ◌∙◌, ap, true, false, not, none, some,
  List, [], ◌∷◌, ◌++◌, all, length, ◌==◌, ok, err, Result, ltb,
}
use sqlgate.Text.{
  contains, trim_end_matches, Text, Bytes, CaseTables, codes, text_eq, trim, to_lowercase, is_empty,
}
use sqlgate.Text.Number.{parse_u64}
use sqlgate.Map.{Map, insert, contains_key}
use sqlgate.Http.Request.{
  ParseError, is_line_end, read_line, Stream, Heading, check_header, add_header, read_headers,
}
use sqlgate.Http.Request.Lines.{is_plain, ended, split_once-first}

-- A header with a colon and a space between its name and its value.
pub record Field : Type 0 where
  pub name : Text
  pub value : Text

abbrev pub field_text : Field → Text
field_text f = f.name ++ b':' ∷ b' ' ∷ f.value

pub record IsField (f : Field) : Type 0 where
  pub plain : all is_plain (field_text f) ≡ true
  pub nonempty : is_empty (field_text f) ≡ false
  pub no_colon : all (λ c. not (c == b':')) f.name ≡ true
  pub name_trimmed : trim f.name ≡ f.name
  pub value_trimmed : trim (b' ' ∷ f.value) ≡ f.value

-- One that the reader accepts behind others: no length, no second host, no chunks.
pub record IsOrdinary (tables : CaseTables) (before : Map) (f : Field) : Type 0 where
  pub field : IsField f
  pub no_length : text_eq (to_lowercase tables f.name) (codes "content-length") ≡ false
  pub one_host :
      (text_eq (to_lowercase tables f.name) (codes "host") && contains_key (codes "host") before)
      ≡ false
  pub no_chunks :
      (text_eq (to_lowercase tables f.name) (codes "transfer-encoding")
        && contains (to_lowercase tables f.value) (codes "chunked"))
      ≡ false

abbrev pub AreOrdinary : CaseTables → Map → List Field → Type 0
AreOrdinary tables before [] = Unit
AreOrdinary tables before (f ∷ fs) =
    IsOrdinary tables before f
    × AreOrdinary tables (insert (to_lowercase tables f.name) f.value before) fs

-- The headers, the blank line and the body.
abbrev pub printed_fields : List Field → Bytes → Bytes
printed_fields [] body = ended [] body
printed_fields (f ∷ fs) body = ended (field_text f) (printed_fields fs body)

abbrev pub size_of : List Field → ℕ
size_of [] = 2
size_of (f ∷ fs) = length (field_text f) + 2 + size_of fs

abbrev pub stored : CaseTables → List Field → Map → Map
stored tables [] m = m
stored tables (f ∷ fs) m = stored tables fs (insert (to_lowercase tables f.name) f.value m)

module _ (tables : CaseTables) where
  check_header-ordinary :
      (h : Heading) (line : Text) (f : Field)
      → IsOrdinary tables h.headers f
      → check_header tables h line (to_lowercase tables f.name) f.value ≡ ok h.content_length
  unfolding check_header
  check_header-ordinary h line f o =
      elim (Bool-cases (text_eq (to_lowercase tables f.name) (codes "host"))) [
        | inl host ↦
            let first : contains_key (codes "host") h.headers ≡ false =
              ap (λ b. b && contains_key (codes "host") h.headers) (sym host) ∙ o.one_host in
            rw (check_header, o.no_length, host, first) refl
        | inr other ↦ rw (check_header, o.no_length, other, o.no_chunks) refl
      ]

  pub add_header-ordinary :
      (h : Heading) (f : Field)
      → IsOrdinary tables h.headers f
      → add_header tables h (field_text f)
        ≡ ok (record h { headers = insert (to_lowercase tables f.name) f.value h.headers })
  unfolding add_header
  add_header-ordinary h f o =
      rw
        (
          add_header,
          split_once-first b':' f.name (b' ' ∷ f.value) o.field.no_colon,
          o.field.name_trimmed,
          o.field.value_trimmed,
          check_header-ordinary h (field_text f) f o,
        )
        (rw (o.field.name_trimmed, o.field.value_trimmed) refl)

  pub add_header-length :
      (h : Heading) (f : Field) (n : ℕ)
      → IsField f
      → to_lowercase tables f.name ≡ codes "content-length"
      → h.content_length ≡ none
      → parse_u64 f.value ≡ some n
      → add_header tables h (field_text f)
        ≡ ok (record h {
          headers = insert (codes "content-length") f.value h.headers;
          content_length = some n;
        })
  unfolding add_header check_header text_eq
  add_header-length h f n o name fresh number =
      rw
        (
          add_header,
          split_once-first b':' f.name (b' ' ∷ f.value) o.no_colon,
          o.name_trimmed,
          o.value_trimmed,
          name,
          check_header,
          fresh,
          number,
        )
        (rw (o.name_trimmed, name, o.value_trimmed) refl)

  -- The round of the header loop on a blank line, and on a header.
  pub round_last :
      (fuel : ℕ) (h : Heading) (s s' : Stream) (raw : Text) (n : ℕ)
      → read_line s ≡ some (raw, n, s')
      → (n == 0) ≡ false
      → ltb 65536 (h.header_bytes + n) ≡ false
      → is_empty (trim_end_matches is_line_end raw) ≡ true
      → read_headers tables (suc fuel) h s ≡ ok (record h { header_bytes = h.header_bytes + n }, s')
  unfolding read_headers
  round_last fuel h s s' raw n e nonzero small blank =
      rw (read_headers, e, nonzero, small, blank) refl

  pub round_header :
      (fuel : ℕ) (h h' : Heading) (s s' : Stream) (raw : Text) (n : ℕ)
      → read_line s ≡ some (raw, n, s')
      → (n == 0) ≡ false
      → ltb 65536 (h.header_bytes + n) ≡ false
      → is_empty (trim_end_matches is_line_end raw) ≡ false
      → add_header tables
          (record h { header_bytes = h.header_bytes + n })
          (trim_end_matches is_line_end raw)
        ≡ ok h'
      → read_headers tables (suc fuel) h s ≡ read_headers tables fuel h' s'
  unfolding read_headers
  round_header fuel h h' s s' raw n e nonzero small nonempty added =
      rw (read_headers, e, nonzero, small, nonempty)
        (ap
          (λ (o : Result Heading ParseError). elim o [
            | err x ↦ err x
            | ok g ↦ read_headers tables fuel g s'
          ])
          added)
