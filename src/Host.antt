-- ===== src/Host.antt =====
-- What surrounds the program: the operating system, the libraries that the source only calls, and
-- the target databases. Each is a parameter of the model; where its answer may differ from one call
-- to the next it is a function of the moment, the number of database calls made so far.
use sqlgate.Prelude.{ℕ, Bool, Option, List, ℤ, Result}
use sqlgate.Text.{Text, Bytes, CaseTables}
use sqlgate.Json.{Json}
use sqlgate.Db.{Uuid, Time, Server}

-- `postgres::Error` as the preview reads it.
pub record QueryError : Type 0 where
  pub text : Text
  pub code : Option Text
  pub server_message : Option Text

-- A cell of a result row: the name of its column's type, and what `try_get` answers at each type.
pub record Cell : Type 0 where
  pub type_name : Text
  pub as_i64 : Option ℤ
  pub as_f64 : Option Json
  pub as_bool : Option Bool
  pub as_string : Option Text

pub record ResultRow : Type 0 where
  pub columns : List Text
  pub cells : List Cell

-- A target database at a moment and a URL. `none` is success where the answer is an error's text.
pub record Target : Type 0 where
  pub connect : ℕ → Text → Option Text
  pub batch_execute : ℕ → Text → Text → Option Text
  pub execute : ℕ → Text → Text → Result ℕ Text
  pub query : ℕ → Text → Text → Result (List ResultRow) QueryError

pub record Host : Type 0 where
  pub server : Server
  pub target : Target
  pub tables : CaseTables
  pub has_pool : Bool
  pub var : Text → Option Text
  pub parse_uuid : Text → Option Uuid
  pub show_uuid : Uuid → Text
  pub sha256_hex : Bytes → Text
  pub show_json : Json → Text
  pub system_time : ℕ → Time
  pub elapsed_ms : ℕ → ℕ
  pub is_file : Text → Bool
  pub read_file : Text → Option Bytes
