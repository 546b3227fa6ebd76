-- ===== src/Server/Handlers/Bodies.antt =====
-- The pages that are built from the body of a fragment.
use sqlgate.Prelude.{◌≡◌, All}
use sqlgate.Text.{Text}
use sqlgate.Text.Utf8.Roundtrip.{IsScalar, from_utf8_lossy-utf8}
use sqlgate.Http.Response.{ok_html}
use sqlgate.Server.Handlers.{extract_body}

-- A text of scalar values comes back from the bytes of the response that is built of it.
pub extract_body-ok_html : (t : Text) → All IsScalar t → extract_body (ok_html t) ≡ t
unfolding extract_body ok_html
extract_body-ok_html t h = from_utf8_lossy-utf8 t h
