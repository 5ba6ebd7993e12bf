-- ===== src/Tests/Requests.antt =====
-- Requests and the replies to them.
use mathlib.Core.Path.{subst}
use sqlite_server_rs.Prelude.{
  All, filter_map, ok, ◌≡◌, refl, ◌↔◌, true, false, not, ◌&&◌, some, none, Option, List, [], ◌∷◌,
  map, Text, bytes, is_empty,
}
use mathlib.Core.List.{Memᴰ, Permᴰ}
use mathlib.Core.Quot
use sqlite_server_rs.Json.{str_field}
use sqlite_server_rs.Rust.FilePath.{is_absolute, join, components, strip_components}
use sqlite_server_rs.Rust.Str.{split, split_once}
use sqlite_server_rs.DatabaseName.{is_safe_database_name}
use sqlite_server_rs.Handler.{parse_request, carries_password, list_names}
use sqlite_server_rs.Handler.Auth.{
  after, replies, carried, any_carried, AllRefused, authenticated_exactly, locked_requests,
}
use sqlite_server_rs.Handler.Unnamed.{NamesNone, ReadsNone, after-ReadsNone}
use sqlite_server_rs.Handler.Fenced.{fenced, moved}
use sqlite_server_rs.Handler.Fenced.Requests.{requests_fenced}
use sqlite_server_rs.Handler.Listing.{Bag, shown_name, list_names-shown}
use sqlite_server_rs.Handler.Replies.{IsListed, list_names_iff}
use sqlite_server_rs.Tests.Values.{Value}
use sqlite_server_rs.Tests.Machine.{deps, folder, guarded, world, fresh}

abbrev list_request : Text
list_request = bytes "cmd=LIST"

abbrev requests : List Text
requests = bytes "!" ∷ list_request ∷ bytes "auth=no;cmd=LIST" ∷ []

authenticated_exactly_example :
    (after deps (bytes "auth=pw" ∷ requests) fresh).authenticated
    ≡ (not (is_empty guarded.auth) && any_carried deps guarded.auth (bytes "auth=pw" ∷ requests))
authenticated_exactly_example =
    authenticated_exactly deps guarded world (bytes "auth=pw" ∷ requests)

none_carried : any_carried deps guarded.auth requests ≡ false
unfolding any_carried carried parse_request carries_password str_field split split_once
none_carried = refl

locked_requests_example :
    AllRefused deps requests (replies deps requests fresh) × (after deps requests fresh ≡ fresh)
locked_requests_example = locked_requests deps requests fresh (refl, refl) none_carried

-- the password, a deletion that climbs out of the folder, and a listing
abbrev naming_none : List Text
naming_none = bytes "auth=pw" ∷ bytes "cmd=DELETE_DB;db=../sales;query=SELECT" ∷ list_request ∷ []

reads :
    (req : Text) (known : Value)
    → parse_request deps req ≡ ok known
    → NamesNone deps world folder known
    → ReadsNone deps world folder req
reads req known e h request read =
    let same : known ≡ request = cc (e, read) in subst (NamesNone deps world folder) same h

climbs : (db : Text) → bytes "../sales" ≡ db → is_safe_database_name deps world folder db ≡ false
unfolding is_safe_database_name components join strip_components
climbs db e = subst (λ name. is_safe_database_name deps world folder name ≡ false) e refl

naming_none-ReadsNone : All (ReadsNone deps world folder) naming_none
unfolding parse_request str_field split split_once
naming_none-ReadsNone = (
  reads (bytes "auth=pw") _ refl (λ db h. cc h),
  (
    reads (bytes "cmd=DELETE_DB;db=../sales;query=SELECT") _ refl (λ db h. climbs db (cc h)),
    (reads list_request _ refl (λ db h. cc h), tt),
  ),
)

after-ReadsNone_example :
    ((after deps naming_none fresh).world ≡ world) × ((after deps naming_none fresh).databases ≡ [])
after-ReadsNone_example = after-ReadsNone deps naming_none fresh naming_none-ReadsNone

list_names_iff_example :
    Memᴰ (bytes "sales") (list_names deps world folder (none ∷ map some world))
    ↔ IsListed deps world folder (none ∷ map some world) (bytes "sales")
list_names_iff_example = list_names_iff deps world folder (none ∷ map some world) (bytes "sales")

folder-is_absolute : is_absolute folder ≡ true
unfolding is_absolute
folder-is_absolute = refl

abbrev opening : List Text
opening =
    bytes "auth=pw"
    ∷ bytes "cmd=QUERY;db=sales;query=SELECT"
    ∷ bytes "cmd=QUERY;db=../x;query=SELECT"
    ∷ []

requests_fenced_example :
    (replies (fenced deps folder) opening (moved deps folder fresh) ≡ replies deps opening fresh)
    × (after (fenced deps folder) opening (moved deps folder fresh)
        ≡ moved deps folder (after deps opening fresh))
requests_fenced_example = requests_fenced deps folder folder-is_absolute opening fresh refl

-- the entries of a folder, in two orders
abbrev one_order : List (Option Text)
one_order = some (bytes "sales") ∷ some (bytes "sales-wal") ∷ []

abbrev other_order : List (Option Text)
other_order = some (bytes "sales-wal") ∷ some (bytes "sales") ∷ []

list_names-shown_example :
    ◌≡◌ {A = Bag Text}
      (Quot.mk (list_names deps world folder one_order))
      (Quot.mk (filter_map (shown_name deps world folder) other_order))
list_names-shown_example =
    list_names-shown deps world folder one_order other_order (Quot.sound (Permᴰ.swap refl refl))
