-- ===== src/Http/Response.antt =====
-- src/http/response.rs
use sqlgate.Prelude.{ℕ, List, [], ◌∷◌, ◌++◌, ◌==◌, if◌then◌else◌, length}
use sqlgate.Text.{Text, Bytes, codes}
use sqlgate.Text.Utf8.{utf8}
use sqlgate.Text.Number.{decimal}

pub record Response : Type 0 where
  pub status : ℕ
  pub headers : List (Text × Text)
  pub body : Bytes

abbrev typed : Text → List (Text × Text)
typed kind = (codes "Content-Type", kind) ∷ []

abbrev pub plain_text : Text
plain_text = codes "text/plain; charset=utf-8"

unfoldable pub ok_html : Text → Response
ok_html body = record {
  status = 200;
  headers = typed (codes "text/html; charset=utf-8");
  body = utf8 body;
}

unfoldable pub ok_json : Text → Response
ok_json body = record { status = 200; headers = typed (codes "application/json"); body = utf8 body }

unfoldable pub ok_text : Text → Response
ok_text body = record { status = 200; headers = typed plain_text; body = utf8 body }

unfoldable pub not_found : Response
not_found = record { status = 404; headers = []; body = [] }

abbrev pub plain : ℕ → Text → Response
plain status message = record { status = status; headers = typed plain_text; body = utf8 message }

unfoldable pub internal_error : Text → Response
internal_error message = plain 500 message

unfoldable pub bad_request : Text → Response
bad_request message = plain 400 message

unfoldable pub not_implemented : Text → Response
not_implemented message = plain 501 message

unfoldable pub redirect : Text → Response
redirect url = record { status = 303; headers = (codes "Location", url) ∷ []; body = [] }

unfoldable pub with_header : Response → Text → Text → Response
with_header r name value = record r { headers = r.headers ++ (name, value) ∷ [] }

unfoldable pub with_hx_trigger : Response → Text → Response
with_hx_trigger r event = record r { headers = r.headers ++ (codes "HX-Trigger", event) ∷ [] }

unfoldable pub with_hx_redirect : Response → Text → Response
with_hx_redirect r url = record r { headers = r.headers ++ (codes "HX-Redirect", url) ∷ [] }

unfoldable pub with_hx_reswap : Response → Text → Response
with_hx_reswap r strategy = record r { headers = r.headers ++ (codes "HX-Reswap", strategy) ∷ [] }

unfoldable pub status_phrase : ℕ → Text
status_phrase code =
    if code == 200
    then codes "OK"
    else if code == 303
    then codes "See Other"
    else if code == 400
    then codes "Bad Request"
    else if code == 404
    then codes "Not Found"
    else if code == 500
    then codes "Internal Server Error"
    else if code == 501
    then codes "Not Implemented"
    else codes "Unknown"

abbrev pub crlf : Text
crlf = b'\r' ∷ b'\n' ∷ []

unfoldable pub header_lines : List (Text × Text) → Text
header_lines [] = []
header_lines ((name, value) ∷ hs) = name ++ (codes ": " ++ (value ++ (crlf ++ header_lines hs)))

-- What `write` puts in front of the body, and the whole of what it writes to a stream that takes it.
unfoldable pub head : Response → Text
unfolding status_phrase header_lines decimal
head r =
    codes "HTTP/1.1 "
    ++ (decimal r.status
        ++ (codes " "
            ++ (status_phrase r.status
                ++ (crlf
                    ++ (header_lines r.headers
                        ++ (codes "Content-Length: "
                            ++ (decimal (length r.body) ++ (crlf ++ crlf))))))))

unfoldable pub write : Response → Bytes
unfolding head
write r = utf8 (head r) ++ r.body
