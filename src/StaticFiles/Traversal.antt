-- ===== src/StaticFiles/Traversal.antt =====
-- Which files can be reached.
use sqlgate.Prelude.{◌≡◌, true, false, some, ◌++◌, arith}
use sqlgate.Text.{Text, codes, starts_with, contains}
use sqlgate.Host.{Host}
use sqlgate.Http.Response.{bad_request, not_found}
use sqlgate.StaticFiles.{disk_path, is_rejected, serve}

-- A file that is served stands under `static`, by a path that goes nowhere up.
pub record IsConfined (host : Host) (p : Text) : Type 0 where
  pub relative : starts_with p (codes "/") ≡ false
  pub no_parent : contains p (codes "..") ≡ false
  pub no_backslash : contains p (codes "\\") ≡ false
  pub exists : host.is_file (codes "static/" ++ p) ≡ true
  pub content : host.read_file (codes "static/" ++ p) ≡ some (serve host p).body

-- An answer of status 200 is the content of a file under `static`, whose path below it has no `..`
-- and no backslash and does not begin with a slash.
pub serve-IsConfined : (host : Host) (p : Text) → (serve host p).status ≡ 200 → IsConfined host p
unfolding serve is_rejected disk_path bad_request not_found
serve-IsConfined host p h = ground arith
