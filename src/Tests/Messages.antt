-- ===== src/Tests/Messages.antt =====
-- The round trip of requests, on a form that is posted.
use sqlgate.Prelude.{◌≡◌, refl, true, false, none, [], ◌∷◌, ok, arith}
use sqlgate.Text.{Bytes, codes, text_eq, trim, to_lowercase, to_uppercase, contains}
use sqlgate.Text.Number.{parse_u64}
use sqlgate.Map.{insert, get}
use sqlgate.Http.Query.{split_query}
use sqlgate.Http.Request.{parse}
use sqlgate.Http.Request.Lines.{ended}
use sqlgate.Http.Request.Printing.{Field, printed_fields, stored}
use sqlgate.Http.Request.Roundtrip.{request_line, IsMessage, parse-printed}
use sqlgate.Tests.{some_tables}

abbrev size : Field
size = record { name = codes "Content-Length"; value = codes "7" }

abbrev host : Field
host = record { name = codes "Host"; value = codes "localhost:8080" }

abbrev accept : Field
accept = record { name = codes "Accept"; value = codes "text/html, */*" }

abbrev body : Bytes
body = codes "query=1"

form-IsMessage :
    IsMessage some_tables (codes "POST") (codes "/submit?a=1") size (host ∷ accept ∷ []) body
unfolding text_eq trim to_lowercase to_uppercase parse_u64 contains insert get
form-IsMessage = record {
  plain = refl;
  short = omega arith;
  in_capitals = refl;
  method_parts = refl;
  target_parts = refl;
  size_field = record {
    plain = refl;
    nonempty = refl;
    no_colon = refl;
    name_trimmed = refl;
    value_trimmed = refl;
  };
  size_name = refl;
  size_value = refl;
  ordinary = (
    record {
      field = record {
        plain = refl;
        nonempty = refl;
        no_colon = refl;
        name_trimmed = refl;
        value_trimmed = refl;
      };
      no_length = refl;
      one_host = refl;
      no_chunks = refl;
    },
    (
      record {
        field = record {
          plain = refl;
          nonempty = refl;
          no_colon = refl;
          name_trimmed = refl;
          value_trimmed = refl;
        };
        no_length = refl;
        one_host = refl;
        no_chunks = refl;
      },
      tt,
    ),
  );
  few = omega arith;
  limited = omega arith;
}

parse-printed_example :
    parse some_tables true (record {
      bytes =
          ended
            (request_line (codes "POST") (codes "/submit?a=1"))
            (printed_fields (size ∷ host ∷ accept ∷ []) body);
      closed = false;
    })
    ≡ ok (record {
      method = codes "POST";
      path = (split_query (codes "/submit?a=1")).0;
      headers =
          stored some_tables (host ∷ accept ∷ []) (insert (codes "content-length") (codes "7") []);
      body = body;
      query = (split_query (codes "/submit?a=1")).1;
      params = [];
      authenticated_user = none;
    })
parse-printed_example =
    parse-printed some_tables (codes "POST") (codes "/submit?a=1") size (host ∷ accept ∷ []) body
      false form-IsMessage
