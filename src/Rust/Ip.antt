-- ===== src/Rust/Ip.antt =====
-- `std::net::IpAddr`, by its octets: four of a V4 address, sixteen of a V6 address.
use sqlite_server_rs.Prelude.{ℕ, ◌≡◌, List, length, IsBytes}

pub data IpAddr : Type 0 where
  v4 v6 : List ℕ → IpAddr

-- An address has four or sixteen octets.
abbrev pub IsAddr : IpAddr → Type 0
IsAddr (v4 a) = (length a ≡ 4) × IsBytes a
IsAddr (v6 a) = (length a ≡ 16) × IsBytes a

-- `IpAddr::octets`
abbrev pub octets : IpAddr → List ℕ
octets (v4 a) = a
octets (v6 a) = a
