-- ===== src/Tests.antt =====
-- A small host, tables and connections, on which the children try the theorems.
pub mod Workflow
pub mod Execution
pub mod Parts
pub mod Threads
pub mod Races
pub mod Messages
pub mod Escape
pub mod Source
use Prim.Native.String.{String}
use sqlgate.Prelude.{
  ℕ, Bool, true, Option, none, some, List, [], ◌∷◌, ◌++◌, ◌==◌, false, if◌then◌else◌, ok,
}
use sqlgate.Text.{Text, Bytes, CaseTables, codes, text_eq}
use sqlgate.Text.Number.{decimal, parse_u64}
use sqlgate.Text.Utf8.{utf8}
use sqlgate.Map.{Map, or_default}
use sqlgate.Auth.{AuthenticatedUser}
use sqlgate.Db.{
  Status, submitted, pending_approval, approved, Decision, approve, Request, Approval, Db, DbError,
  pool, Fault, fine, before, World, Server,
}
use sqlgate.Host.{Target, Host}
use sqlgate.Http.Request
use sqlgate.Http.Request.{Stream}

abbrev pub some_tables : CaseTables
some_tables = record { upper = λ s. s; lower = λ s. s }

-- A target that accepts every statement, and returns no rows.
abbrev pub some_target : Target
some_target = record {
  connect = λ at url. none;
  batch_execute = λ at url statement. none;
  execute = λ at url statement. ok 3;
  query = λ at url statement. ok [];
}

abbrev pub variables : Map
variables =
    (codes "CF_TUNNEL_SECRET_VALUE", codes "secret")
    ∷ (codes "TARGET_APP_PREVIEW", codes "reader")
    ∷ (codes "TARGET_APP_EXECUTE", codes "writer")
    ∷ []

abbrev pub lookup : Map → Text → Option Text
lookup [] k = none
lookup ((j, v) ∷ m) k = if text_eq j k then some v else lookup m k

-- A host on a database that meets the faults given.
abbrev pub host_with : (ℕ → Fault) → Host
host_with faults = record {
  server = record { fault = faults; new_id = λ n. n; now = λ n. n; message = λ code. code };
  target = some_target;
  tables = some_tables;
  has_pool = true;
  var = lookup variables;
  parse_uuid = parse_u64;
  show_uuid = decimal;
  sha256_hex = λ bytes. bytes;
  show_json = λ j. [];
  system_time = λ n. n;
  elapsed_ms = λ n. 1;
  is_file = λ path. true;
  read_file = λ path. some (codes "body");
}

abbrev pub some_host : Host
some_host = host_with (λ n. fine)

abbrev pub lost : DbError
lost = pool (codes "timed out")

-- The call of a number fails before its statement runs.
abbrev pub fails_at : ℕ → ℕ → Fault
fails_at k n = if k == n then before lost else fine

abbrev pub request_in : Status → Request
request_in status = record {
  id = 70;
  query_text = codes "SELECT 1";
  query_hash = codes "SELECT 1";
  target_kind = codes "postgres";
  target_db = codes "app";
  target_topology = codes "primary";
  requester_email = codes "ada@example.org";
  status = status;
  created_at = 0;
  updated_at = 0;
}

abbrev pub some_approval : Approval
some_approval = record {
  id = 71;
  request_id = 70;
  approver_email = codes "bob@example.org";
  decision = approve;
  expires_at = some 3;
  created_at = 1;
}

-- One request in a status, with the decisions given, after ten calls.
abbrev pub world_with : Status → List Approval → World
world_with status approvals = record {
  db = record {
    requests = request_in status ∷ [];
    previews = [];
    approvals = approvals;
    executions = [];
    audit_log = [];
  };
  calls = 10;
  sent = [];
}

-- A form that is posted by a user.
abbrev pub posted : (path user body content_length : String) → Stream
posted path user body content_length = record {
  bytes = utf8 (
      codes "POST "
      ++ (codes path
          ++ (codes " HTTP/1.1\nX-CF-Tunnel-Secret: secret\nCf-Access-Authenticated-User-Email: "
              ++ (codes user
                  ++ (codes "\nContent-Length: "
                      ++ (codes content_length ++ (codes "\n\n" ++ codes body)))))));
  closed = false;
}

abbrev pub plain_request : (method path : String) → Request.Request
plain_request method path = record {
  method = codes method;
  path = codes path;
  headers = [];
  body = [];
  query = [];
  params = [];
  authenticated_user = none;
}
