-- ===== src/Tests/Unit/Machine.antt =====
-- An empty temporary folder, with the JSON texts of the unit tests of src/handler.rs: each stands with
-- the value that serde_json reads in it.
use sqlite_server_rs.Prelude.{
  ℕ, pos, Bool, true, false, none, some, List, [], ◌∷◌, Text, bytes, text_eq, Result, ok, err, drop,
  is_some, if◌then◌else◌, ◌==◌,
}
use sqlite_server_rs.Rust.FilePath.{join}
use sqlite_server_rs.Rust.Ip.{v4}
use sqlite_server_rs.Store.{Deps, sqlite_failure}
use sqlite_server_rs.Config.{Config}
use sqlite_server_rs.Session.{Session, new}
use sqlite_server_rs.Handler.{handle_request}
use sqlite_server_rs.Tests.Values.{
  Value, string, number, float, field, empty_object, json, value_eq,
}
use sqlite_server_rs.Tests.Machine.{deps, folder}

abbrev pub object_1 : Text → Value → Value
object_1 key v = field key v empty_object

abbrev pub object_2 : Text → Value → Text → Value → Value
object_2 k v l w = field k v (field l w empty_object)

abbrev pub object_3 : Text → Value → Text → Value → Text → Value → Value
object_3 k v l w m x = field k v (field l w (field m x empty_object))

-- a request of a database with a statement
abbrev pub query_of : Text → Text → Value
query_of db sql =
    object_3 (bytes "cmd") (string (bytes "QUERY")) (bytes "db") (string db) (bytes "query")
      (string sql)

abbrev pub cmd_of : Text → Value
cmd_of cmd = object_1 (bytes "cmd") (string cmd)

abbrev texts : List (Text × Value)
texts =
    (bytes "{\"cmd\":\"LIST\"}", cmd_of (bytes "LIST"))
    ∷ (bytes "{\"cmd\":\"list\"}", cmd_of (bytes "list"))
    ∷ (bytes "{\"cmd\":\"LiSt\"}", cmd_of (bytes "LiSt"))
    ∷ (bytes "{\"cmd\":\"FROB\"}", cmd_of (bytes "FROB"))
    ∷ (bytes "{\"db\":\"a.db\"}", object_1 (bytes "db") (string (bytes "a.db")))
    ∷ (bytes "{\"auth\":\"nope\"}", object_1 (bytes "auth") (string (bytes "nope")))
    ∷ (bytes "{\"auth\":\"s3cret\"}", object_1 (bytes "auth") (string (bytes "s3cret")))
    ∷ (
      bytes "{\"cmd\":\"QUERY\",\"db\":\"a.db\",\"query\":\"CREATE TABLE z(i INTEGER)\"}",
      query_of (bytes "a.db") (bytes "CREATE TABLE z(i INTEGER)"),
    )
    ∷ (
      bytes "{\"cmd\":\"DELETE_DB\",\"db\":\"a.db\"}",
      object_2 (bytes "cmd") (string (bytes "DELETE_DB")) (bytes "db") (string (bytes "a.db")),
    )
    ∷ (
      bytes "{\"cmd\":\"QUERY\",\"query\":\"SELECT 1\"}",
      object_2 (bytes "cmd") (string (bytes "QUERY")) (bytes "query") (string (bytes "SELECT 1")),
    )
    ∷ (
      bytes "{\"cmd\":\"QUERY\",\"db\":\"../x\",\"query\":\"SELECT 1\"}",
      query_of (bytes "../x") (bytes "SELECT 1"),
    )
    ∷ (
      bytes "{\"cmd\":\"QUERY\",\"db\":\"a.db\"}",
      object_2 (bytes "cmd") (string (bytes "QUERY")) (bytes "db") (string (bytes "a.db")),
    )
    ∷ (
      bytes "{\"cmd\":\"QUERY\",\"db\":\"a.db\",\"query\":\"   \"}",
      query_of (bytes "a.db") (bytes "   "),
    )
    ∷ (
      bytes "{\"cmd\":\"QUERY\",\"db\":\"a.db\",\"query\":\"SELECT * FROM ghosts\"}",
      query_of (bytes "a.db") (bytes "SELECT * FROM ghosts"),
    )
    ∷ []

abbrev find : List (Text × Value) → Text → Result Value Text
find [] s = err (bytes "expected value")
find ((text, v) ∷ entries) s = let later = find entries s in if text_eq text s then ok v else later

abbrev exists_in : List Text → Text → Bool
exists_in [] path = false
exists_in (name ∷ names) path =
    let later = exists_in names path in if text_eq (join folder name) path then true else later

-- SQLite makes the file of a database that it opens; there is no table `ghosts`
abbrev pub unit : Deps
unit = record deps {
  json = record json { from_str = find texts };
  from_f64 = λ f. if f == 0 then none else some (float (bytes "2.5"));
  repair_keys = λ s. if text_eq s (bytes "{cmd:\"LIST\"}") then bytes "{\"cmd\":\"LIST\"}" else s;
  open_database = λ path w. (ok path, if exists_in w path then w else drop 4 path ∷ w);
  prepare = λ conn sql w. (
    if text_eq sql (bytes "SELECT * FROM ghosts")
        then err (sqlite_failure 1 (some (bytes "no such table: ghosts")) (bytes "SQL logic error"))
        else ok sql,
    w,
  );
}

abbrev pub config_with : Text → Config
config_with auth = record {
  listen_addr = record { ip = v4 (127 ∷ 0 ∷ 0 ∷ 1 ∷ []); port = 0 };
  workers = 1;
  databases_folder = folder;
  client_max_packet_size = 16777216;
  busy_timeout_ms = 5000;
  auth = auth;
  ip_whitelist = [];
}

-- `handler_in(&dir)`
abbrev pub handler : Session unit
handler = new unit (config_with []) []

-- the replies to requests in turn
abbrev pub asked : Session unit → List Text → List Value
asked s [] = []
asked s (req ∷ reqs) = let (reply, s') = handle_request unit req s in reply ∷ asked s' reqs

-- `r[key]` against an integer, and against a string
abbrev pub number_at : Value → Text → ℕ → Bool
number_at r key n = elim (unit.get r key) [ none ↦ false | some v ↦ value_eq v (number (pos n)) ]

abbrev pub string_at : Value → Text → Text → Bool
string_at r key s = elim (unit.get r key) [ none ↦ false | some v ↦ value_eq v (string s) ]

abbrev pub has : Value → Text → Bool
has r key = is_some (unit.get r key)
