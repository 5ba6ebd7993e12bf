-- ===== src/Tests/Machine.antt =====
-- A stand-in for rusqlite and the file system: the world is the list of the files in the folder
-- "/db", every query gives one row, and a query of "bad" cannot be prepared.
use sqlite_server_rs.Prelude.{
  ℕ, zero, suc, pos, Bool, false, ◌||◌, none, some, List, [], ◌∷◌, map, Text, bytes, Result, ok,
  err, text_eq, if◌then◌else◌,
}
use sqlite_server_rs.Rust.FilePath.{join}
use sqlite_server_rs.Rust.Ip.{v4}
use sqlite_server_rs.Store.{Deps, SqlError, other, ValueRef, integer, text, done, row}
use sqlite_server_rs.Config.{Config}
use sqlite_server_rs.Session.{Session, new}
use sqlite_server_rs.Tests.Values.{json}

abbrev pub folder : Text
folder = bytes "/db"

abbrev stands : List Text → Text → Bool
stands [] path = false
stands (name ∷ names) path = text_eq (join folder name) path || stands names path

abbrev without : List Text → Text → List Text
without [] path = []
without (name ∷ names) path =
    let rest = without names path in if text_eq (join folder name) path then rest else name ∷ rest

abbrev column : List (ValueRef ℕ) → ℕ → Result (ValueRef ℕ) SqlError
column [] i = err (other (bytes "no column"))
column (v ∷ vs) zero = ok v
column (v ∷ vs) (suc i) = column vs i

abbrev pub one_row : List (ValueRef ℕ)
one_row = integer (pos 7) ∷ text (bytes "seven") ∷ []

abbrev pub deps : Deps
deps = record {
  json = json;
  World = List Text;
  Connection = Text;
  Statement = Text;
  Row = List (ValueRef ℕ);
  Float = ℕ;
  from_f64 = λ f. none;
  repair_keys = λ s. s;
  open_database = λ path w. (ok path, w);
  execute_batch = λ conn sql w. (ok tt, w);
  prepare =
      λ conn sql w. (if text_eq sql (bytes "bad") then err (other (bytes "syntax")) else ok sql, w);
  column_names = λ stmt. bytes "n" ∷ bytes "t" ∷ [];
  query = λ stmt w. (ok (row one_row w (done w)), w);
  get_ref = column;
  exists = stands;
  canonicalize = λ w path. if text_eq path folder || stands w path then some path else none;
  read_dir = λ w path. some (none ∷ map some w);
  is_file = λ w path. some (stands w path);
  remove_file = λ path w. (stands w path, without w path);
}

abbrev pub world : List Text
world = bytes "sales" ∷ bytes "sales-wal" ∷ []

-- a server with a password, for packets of up to 64 bytes
abbrev pub guarded : Config
guarded = record {
  listen_addr = record { ip = v4 (127 ∷ 0 ∷ 0 ∷ 1 ∷ []); port = 3333 };
  workers = 2;
  databases_folder = folder;
  client_max_packet_size = 64;
  busy_timeout_ms = 5000;
  auth = bytes "pw";
  ip_whitelist = [];
}

abbrev pub fresh : Session deps
fresh = new deps guarded world
