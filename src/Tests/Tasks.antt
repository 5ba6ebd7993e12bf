-- ===== src/Tests/Tasks.antt =====
-- The tasks of the server.
use sqlite_server_rs.Prelude.{
  inr, ℕ, ◌≡◌, refl, true, false, not, ◌||◌, ◌&&◌, List, [], ◌∷◌, Text, bytes, is_empty, some, ok,
  get_elem?,
}
use sqlite_server_rs.Rust.Ip.{IpAddr, v4}
use sqlite_server_rs.Config.{is_ip_allowed}
use sqlite_server_rs.Server.{
  waiting, ServerState, set_phase, accepted, message, Reach, initial, then_step,
}
use sqlite_server_rs.Server.Limiter.{IsLimited, Reach-IsLimited}
use sqlite_server_rs.Json.{str_field}
use sqlite_server_rs.Rust.Str.{split, split_once, trim, eq_ignore_ascii_case}
use sqlite_server_rs.Handler.{parse_request, carries_password, handle_request, dispatch}
use sqlite_server_rs.Handler.Auth.{carried, any_carried}
use sqlite_server_rs.Server.Shared.{Handler, new_handler, Shared, handle_all, session_of}
use sqlite_server_rs.Server.Shared.Isolation.{
  IsAuth, requests_of, all_requests, own_password_only, outsiders_change_nothing,
}
use sqlite_server_rs.Server.Shared.Deletion.{Deletes, Leaves, deleted_stays_cached}
use sqlite_server_rs.Query.{get_connection, run_query, row_fields}
use sqlite_server_rs.Dict.{lookup, insert}
use sqlite_server_rs.Server.Shared.Caches.{get_connection-IsTuned}
use sqlite_server_rs.Query.Cache.{IsTuned}
use sqlite_server_rs.Rust.FilePath.{join, components, strip_components}
use sqlite_server_rs.Rust.Utf8.{from_utf8_lossy}
use sqlite_server_rs.DatabaseName.{is_safe_database_name}
use sqlite_server_rs.Tests.Values.{Value, string, field, empty_object}
use sqlite_server_rs.Tests.Machine.{deps, folder, world, guarded}

abbrev client : IpAddr
client = v4 (10 ∷ 0 ∷ 0 ∷ 1 ∷ [])

-- one client has connected and sent a request
abbrev one_waits : ServerState
one_waits = record { permits = 2; tasks = (client, waiting) ∷ []; accepting = true }

one_waits-Reach : Reach guarded one_waits
unfolding is_ip_allowed set_phase
one_waits-Reach =
    then_step (then_step initial (accepted client refl refl)) (message 0 (client, refl))

Reach-IsLimited_example : IsLimited guarded one_waits
Reach-IsLimited_example = Reach-IsLimited guarded one_waits one_waits-Reach

abbrev handler : Handler deps
handler = new_handler deps

-- two connections to a server with a password
abbrev two_connected : Shared deps
two_connected = record { handlers = handler ∷ handler ∷ []; world = world }

-- the first one gives the password, then each sends a request
abbrev schedule : List (ℕ × Text)
schedule = (0, bytes "auth=pw") ∷ (1, bytes "cmd=LIST") ∷ (0, bytes "cmd=LIST") ∷ []

second_starts : IsAuth deps guarded two_connected 1 false
second_starts = record { handler = handler; stands = refl; answer = refl }

own_password_only_example : IsAuth deps guarded (handle_all deps guarded schedule two_connected) 1 (
    false
    || (not (is_empty guarded.auth) && any_carried deps guarded.auth (requests_of 1 schedule)))
own_password_only_example =
    own_password_only deps guarded 1 schedule false two_connected second_starts

abbrev outsiders : List (ℕ × Text)
outsiders = (1, bytes "cmd=LIST") ∷ (0, bytes "auth=no") ∷ (1, bytes "cmd=DELETE_DB;db=sales") ∷ []

none_gives_it : any_carried deps guarded.auth (all_requests outsiders) ≡ false
unfolding any_carried all_requests carried parse_request carries_password str_field split split_once
none_gives_it = refl

outsiders_change_nothing_example : handle_all deps guarded outsiders two_connected ≡ two_connected
outsiders_change_nothing_example =
    outsiders_change_nothing deps guarded outsiders two_connected refl (refl, (refl, tt))
      none_gives_it

-- two connections that use "sales"; the second one deletes it
abbrev connected : Handler deps
connected = record { databases = (bytes "sales", bytes "/db/sales") ∷ []; authenticated = true }

abbrev both_connected : Shared deps
both_connected = record { handlers = connected ∷ connected ∷ []; world = world }

abbrev deletion_request : Value
deletion_request =
    field (bytes "cmd") (string (bytes "DELETE_DB"))
      (field (bytes "db") (string (bytes "sales")) empty_object)

deletion :
    Deletes deps guarded both_connected 1 connected (bytes "cmd=DELETE_DB;db=sales") (bytes "sales")
unfolding str_field split split_once is_safe_database_name components join strip_components
deletion = record {
  request = deletion_request;
  stands = refl;
  unlocked = inr refl;
  from_str = refl;
  auth = refl;
  cmd = refl;
  names_db = refl;
  safe = refl;
  removed = refl;
}

sales_cached : lookup (bytes "sales") connected.databases ≡ some (bytes "/db/sales")
unfolding lookup
sales_cached = refl

-- then the second one lists the databases
abbrev listing : List (ℕ × Text)
listing = (1, bytes "cmd=LIST") ∷ []

first_waits : requests_of 0 listing ≡ []
unfolding requests_of
first_waits = refl

deleted_stays_cached_example :
    Leaves deps guarded both_connected 1
      (bytes "cmd=DELETE_DB;db=sales")
      (bytes "sales")
      0
      connected
      (bytes "/db/sales")
      listing
deleted_stays_cached_example =
    deleted_stays_cached deps guarded both_connected 1 connected (bytes "cmd=DELETE_DB;db=sales")
      (bytes "sales") deletion 0 connected (bytes "/db/sales") refl refl sales_cached listing
      first_waits

-- the first connection gives the password and asks for "sales"; the second one only connects
abbrev entered : List (ℕ × Text)
entered =
    (0, bytes "auth=pw") ∷ (1, bytes "cmd=LIST") ∷ (0, bytes "cmd=QUERY;db=sales;query=SELECT") ∷ []

abbrev entered_handler : Handler deps
entered_handler = record {
  databases = (bytes "sales", join folder (bytes "sales")) ∷ [];
  authenticated = true;
}

entered_stands :
    get_elem? (handle_all deps guarded entered two_connected).handlers 0 ≡ some entered_handler
unfolding get_connection handle_all handle_request parse_request carries_password str_field split
    split_once run_query trim lookup join row_fields dispatch eq_ignore_ascii_case
    is_safe_database_name components strip_components from_utf8_lossy insert
entered_stands = refl

sales_got :
    (get_connection deps (bytes "sales") (session_of deps guarded entered_handler world)).0
    ≡ ok (join folder (bytes "sales"))
unfolding get_connection lookup join
sales_got = refl

get_connection-IsTuned_example : IsTuned deps guarded (bytes "sales") (join folder (bytes "sales"))
get_connection-IsTuned_example =
    get_connection-IsTuned deps guarded 2 world world entered 0 entered_handler (bytes "sales")
      (join folder (bytes "sales")) entered_stands sales_got
