-- ===== src/Tests/Networks.antt =====
-- Networks and whitelists.
use sqlite_server_rs.Prelude.{
  ◌++◌, ◌≡◌, refl, ◌↔◌, ◌⊎◌, Bool, true, some, List, [], ◌∷◌, bytes, ok, arith, All, replicate,
}
use sqlite_server_rs.Rust.Ip.{IpAddr, v4, v6, IsAddr, octets}
use sqlite_server_rs.Rust.Str.{split, trim, split_once, parse_u8}
use sqlite_server_rs.Rust.IpParse.{parse_ip}
use sqlite_server_rs.Rust.IpParse.Bounds.{parse_ip-IsAddr}
use sqlite_server_rs.Cidr.{Cidr, canonicalize, mask, mask_from, contains, parse}
use sqlite_server_rs.Cidr.Bits.{SamePrefix}
use sqlite_server_rs.Cidr.Contains.{IsCidr, SameFamily}
use sqlite_server_rs.Cidr.Parse.{Names, with_prefix, network_of, contains-parse}
use sqlite_server_rs.Config.{Config, is_ip_allowed, parse_whitelist_csv}
use sqlite_server_rs.Config.Whitelist.{InsideOne, is_ip_allowed_decides, parse_whitelist_csv-IsCidr}
use sqlite_server_rs.Tests.Machine.{guarded}

abbrev host : IpAddr
host = v4 (10 ∷ 1 ∷ 2 ∷ 3 ∷ [])

abbrev peer : IpAddr
peer = v4 (10 ∷ 99 ∷ 0 ∷ 1 ∷ [])

host-IsAddr : IsAddr host
host-IsAddr = (refl, (omega arith, (omega arith, (omega arith, (omega arith, tt)))))

peer-IsAddr : IsAddr peer
peer-IsAddr = (refl, (omega arith, (omega arith, (omega arith, (omega arith, tt)))))

entry-Names : Names (bytes "10.1.2.3/12") host 12
unfolding split_once parse_ip parse_u8
entry-Names = with_prefix (bytes "10.1.2.3") (bytes "12") refl refl refl (omega arith)

abbrev net : Cidr
net = network_of host 12

-- a whitelist of two networks, written with blanks
abbrev listed : List Cidr
listed =
    record { network = v4 (10 ∷ 0 ∷ 0 ∷ 0 ∷ []); prefix = 8 }
    ∷ record { network = v6 (replicate 15 0 ++ 1 ∷ []); prefix = 128 }
    ∷ []

whitelist_read : parse_whitelist_csv (bytes " 10.1.2.3/8, ::1 ,") ≡ ok listed
unfolding parse_whitelist_csv split trim parse split_once parse_ip parse_u8 canonicalize mask
    mask_from
whitelist_read = refl

abbrev filtered : Config
filtered = record guarded { ip_whitelist = listed }

contains-parse_example :
    (c : Cidr) × (r : Bool) × (parse (bytes "10.1.2.3/12") ≡ ok c)
    × (contains c peer ≡ some r)
    × ((r ≡ true) ↔ (SameFamily host peer × SamePrefix (octets host) (octets peer) 12))
contains-parse_example = contains-parse (bytes "10.1.2.3/12") host peer 12 entry-Names peer-IsAddr

parsed_host : parse_ip (bytes "10.1.2.3") ≡ some host
unfolding parse_ip
parsed_host = refl

parse_ip-IsAddr_example : IsAddr host
parse_ip-IsAddr_example = parse_ip-IsAddr (bytes "10.1.2.3") host parsed_host

listed-IsCidr : All IsCidr listed
listed-IsCidr = parse_whitelist_csv-IsCidr (bytes " 10.1.2.3/8, ::1 ,") listed whitelist_read

is_ip_allowed_decides_example :
    (r : Bool) × (is_ip_allowed filtered peer ≡ some r)
    × ((r ≡ true) ↔ ((listed ≡ []) ⊎ InsideOne peer listed))
is_ip_allowed_decides_example = is_ip_allowed_decides filtered peer listed-IsCidr peer-IsAddr
