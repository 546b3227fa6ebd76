-- ===== src/Fetch.antt =====
-- The lookup of a request by which the handlers of src/main.rs and the execution pipeline begin:
-- `match db::requests::get_request(…)`, with the two early returns.
use Prim.Native.String.{String}
use sqlgate.Prelude.{Option, none, some, ◌++◌, ok, err}
use sqlgate.Text.{codes}
use sqlgate.Db.{Uuid, Request, DbError, show_error, DbResult, Exec, pure, ◌>>=◌}
use sqlgate.Db.Requests.{get_request}
use sqlgate.Host.{Host}
use sqlgate.Http.Response.{Response}
use sqlgate.Templates.{submit_error}

abbrev pub failure : String → DbError → Response
failure what e = submit_error (codes what ++ show_error e)

unfoldable pub on_found :
    String → (Request → Exec Response) → DbResult (Option Request) → Exec Response
on_found what k (err e) = pure (failure what e)
on_found what k (ok none) = pure (submit_error (codes "Request not found"))
on_found what k (ok (some r)) = k r

abbrev pub with_request : Host → Uuid → (what : String) → (Request → Exec Response) → Exec Response
with_request host i what k = do found ← get_request host.server i; on_found what k found
