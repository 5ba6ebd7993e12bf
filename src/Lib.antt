-- ===== src/Lib.antt =====
-- sqlite-server-rs: a server that gives access to SQLite databases over TCP, with JSON requests. This
-- library models the server and its Rust client, alone and together.
--
-- A connection reads messages, each a length of four bytes and that many bytes of JSON
-- (src/connection.rs), hands each to its `RequestHandler` (src/handler.rs) and writes the reply in the
-- same form. `run` (src/server.rs) accepts the connections whose peer the whitelist of the
-- configuration (src/config.rs) lets in, and limits how many requests are handled at one time.
--
-- The files, and the code they are about:
--
--   Cidr: `Cidr`, `masked_eq` and `canonicalize` of src/config.rs. Octets are numbers below 256, and a
--     panic of a slice or an index is `none`. Below it: the bits of an address (Cidr/Bits), what
--     `canonicalize` keeps, what `contains` decides, what `Cidr::parse` accepts, and the text that
--     `Display` writes (Cidr/Display).
--   Config: the rest of src/config.rs. The files, the current directory, the resolver and the cores are
--     the parameter `Host`, and clap fills `Args`. A cast `as u16`, `as u32` or `as usize` is written
--     out as a remainder. Config/File has the keys of the configuration file, Config/Logged the text
--     of the whitelist that is printed at the start.
--   DatabaseName: `is_safe_database_name` and `is_sqlite_sidecar_file` of src/handler.rs.
--   Session: the fields of `RequestHandler` with the world outside, and `?` on them. A method takes a
--     session and returns its result with the session after it.
--   Query: `run_query`, `get_connection`, `value_ref_to_json` and `map_sqlite_err` of src/handler.rs.
--   Handler: `parse_request`, `handle_request` and the commands of src/handler.rs. Handler/Listing
--     forgets the order of the folder's entries, which the operating system gives in any order.
--   Hex: `to_hex` of src/handler.rs, and `decode_blob_literal` of examples/rust/client.rs.
--   Frame: the framing of src/connection.rs, and `recv` of examples/rust/client.rs.
--   Connection: `handle` of src/connection.rs. The client's bytes up to the end of its stream are a
--     list, and a function says which responses can be written.
--   Server: `run` of src/server.rs, as a step relation on the tasks of the connections. Server/Shared has
--     the handlers of the connections, each with its cache and its authentication, over one world;
--     below it, the passwords (Isolation), and the caches, also while databases are deleted (Caches,
--     Deletion).
--   Program: `main` of src/main.rs and the loop of `run` as functions of what happens at the listener,
--     with what they print, the peers that get a task and the exit status.
--   Build: build.rs.
--   Client: examples/rust/client.rs. `Param`, `serialize_sql_value` and `bind` (Client/Binding, with
--     how SQLite reads quotes and comments, and what each placeholder stands for, as what they are held
--     against),
--     `Row` and `QueryResult` (Client/Row, Client/Response), and the methods of `Sqlite` (Client/Calls)
--     on a stream whose operations are a parameter. Client/Calls/Loopback gives that stream with the
--     modelled server on its other side, and Login, Query and Files beside it the methods at that
--     server. Client/Demo is the demo.
--   Dict: `HashMap` with string keys, as an association list.
--   Rust: what the program uses of Rust's standard library: texts, decimal numbers, lossy UTF-8, Unix
--     paths, and the reading and printing of IP addresses (Rust/IpParse and Rust/IpDisplay, after
--     core::net). A text is its bytes.
--   Json, Store, and the records of Client: the interfaces of serde_json, of rusqlite, of the regex
--     crate and of the file system. They are parameters, with the laws that a theorem uses as its
--     hypothesis. Handler/Fenced gives the same machine, where the calls that open a database
--     and that remove a file fail for a path that is not, by its components, directly in a folder.
--   Prelude: the names that the modules share, and lemmas on lists, bytes and tests.
--   Tests: the theorems at concrete inputs, and the unit tests of src/config.rs and src/handler.rs as
--     Boolean functions on the model (Tests/Unit).
--
-- Bounds and fuel: the loop of `handle` runs on fuel, one more than the bytes of the stream, and each
-- round reads four bytes at least. `decimal` and `trim` run on fuel that the number and the text give.
-- The loops over rows, columns, octets and entries are recursion on a list; a statement that never
-- ends is outside the model. The extended code of an SQLite error is taken as its 32 bits.
--
-- Not modelled: tokio (the runtime, partial reads and writes, how a signal is caught), clap's reading of
-- the command line, name resolution, git, the opening of the client's connection, examples/python, the
-- protocol tests in tests, and three unit tests on what SQLite stores. Two connections may work on one
-- database at the same time: the requests of several connections come in any order, but each is one
-- step, and what SQLite does with locks is part of the parameter.
mod Prelude
pub mod Build
pub mod Cidr
pub mod Rust
pub mod Json
pub mod Config
pub mod Dict
pub mod Hex
pub mod Store
pub mod Session
pub mod DatabaseName
pub mod Program
pub mod Query
pub mod Handler
pub mod Frame
pub mod Connection
pub mod Server
pub mod Client
mod Tests
