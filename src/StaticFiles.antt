-- ===== src/StaticFiles.antt =====
-- src/static_files.rs
pub mod Traversal
use sqlgate.Prelude.{ℕ, Bool, ◌||◌, Option, none, some, List, [], ◌∷◌, ◌++◌, ◌==◌, if◌then◌else◌}
use sqlgate.Text.{Text, codes, text_eq, split, starts_with, contains}
use sqlgate.Host.{Host}
use sqlgate.Http.Response.{Response, bad_request, not_found}

-- `rsplit('.').next()`: what is behind the last dot, or the whole.
abbrev last_part : List Text → Text
last_part [] = []
last_part (p ∷ []) = p
last_part (_ ∷ p ∷ ps) = last_part (p ∷ ps)

unfoldable pub mime_type : Text → Text
unfolding split text_eq
mime_type path =
    let ext = last_part (split b'.' path) in
    if text_eq ext (codes "css")
    then codes "text/css; charset=utf-8"
    else if text_eq ext (codes "js") || text_eq ext (codes "mjs")
    then codes "application/javascript; charset=utf-8"
    else if text_eq ext (codes "html")
    then codes "text/html; charset=utf-8"
    else if text_eq ext (codes "svg")
    then codes "image/svg+xml"
    else if text_eq ext (codes "png")
    then codes "image/png"
    else if text_eq ext (codes "jpg") || text_eq ext (codes "jpeg")
    then codes "image/jpeg"
    else if text_eq ext (codes "gif")
    then codes "image/gif"
    else if text_eq ext (codes "ico")
    then codes "image/x-icon"
    else if text_eq ext (codes "woff")
    then codes "font/woff"
    else if text_eq ext (codes "woff2")
    then codes "font/woff2"
    else if text_eq ext (codes "json")
    then codes "application/json"
    else if text_eq ext (codes "txt")
    then codes "text/plain; charset=utf-8"
    else codes "application/octet-stream"

-- `Path::new("static").join(file_path)`; the join with an absolute path is that path.
unfoldable pub disk_path : Text → Text
unfolding starts_with
disk_path p = if starts_with p (codes "/") then p else codes "static/" ++ p

unfoldable pub is_rejected : Text → Bool
unfolding contains starts_with
is_rejected p = contains p (codes "..") || starts_with p (codes "/") || contains p (codes "\\")

unfoldable pub serve : Host → Text → Response
unfolding is_rejected disk_path mime_type bad_request not_found
serve host p =
    if is_rejected p
    then bad_request (codes "invalid path")
    else if host.is_file (disk_path p)
    then elim (host.read_file (disk_path p)) [
      | none ↦ not_found
      | some body ↦ record {
        status = 200;
        headers =
            (codes "Content-Type", mime_type p)
            ∷ (codes "Cache-Control", codes "public, max-age=3600")
            ∷ [];
        body = body;
      }
    ]
    else not_found
