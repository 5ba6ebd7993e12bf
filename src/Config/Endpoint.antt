-- ===== src/Config/Endpoint.antt =====
-- src/config.rs: the address that `resolve_endpoint` chooses.
use mathlib.Core.List.Memᴰ
use mathlib.Core.List.{Memᴰ}
use sqlite_server_rs.Prelude.{
  ℕ, ◌≡◌, refl, sym, ap, ◌∙◌, true, some, List, [], ◌∷◌, Text, Bool-cases, inl, inr,
}
use sqlite_server_rs.Config.{SocketAddr, Host, is_ipv4, find_ipv4, resolve_endpoint}

-- Where an address is IPv4, an IPv4 address of the list is found.
find_ipv4_found :
    (addrs : List SocketAddr) (addr : SocketAddr)
    → Memᴰ addr addrs
    → is_ipv4 addr ≡ true
    → (a : SocketAddr) × (find_ipv4 addrs ≡ some a) × (is_ipv4 a ≡ true) × Memᴰ a addrs
unfolding find_ipv4
find_ipv4_found [] addr m v = elim m [ ]
find_ipv4_found (a ∷ addrs) addr m v = elim (Bool-cases (is_ipv4 a)) [
  | inl first ↦ (a, rw (first, find_ipv4) refl, first, Memᴰ.head refl)
  | inr other ↦ elim (Memᴰ.cases_cons m) [
    | inl same ↦ cc (other, v, ap is_ipv4 same)
    | inr later ↦
        let (found, e, f, place) = find_ipv4_found addrs addr later v in
        (found, rw (other, find_ipv4) e, f, Memᴰ.tail place)
  ]
]

module _ (host : Host) where
  -- Where the name has an IPv4 address, the server listens on an IPv4 address of the name.
  pub resolve_endpoint-is_ipv4 :
      (ip : Text) (port : ℕ) (addrs : List SocketAddr) (addr : SocketAddr)
      → host.to_socket_addrs ip port ≡ some addrs
      → Memᴰ addr addrs
      → is_ipv4 addr ≡ true
      → (is_ipv4 (resolve_endpoint host ip port) ≡ true)
        × Memᴰ (resolve_endpoint host ip port) addrs
  unfolding resolve_endpoint
  resolve_endpoint-is_ipv4 ip port addrs addr given m v =
      let (a, e, f, place) = find_ipv4_found addrs addr m v in
      let same : a ≡ resolve_endpoint host ip port = rw (given, resolve_endpoint, e) refl in
      (ap is_ipv4 (sym same) ∙ f, rw (← same) place)
