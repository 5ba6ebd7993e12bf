-- ===== src/Config/Whitelist.antt =====
-- The whitelist of src/config.rs: its networks, and the test of a peer.
use mathlib.Core.Path.{subst}
use mathlib.Core.List.Memᴰ
use mathlib.Core.List.{Memᴰ}
use sqlite_server_rs.Prelude.{
  Result, bytes, ok_or, Option-cases, ◌≡◌, refl, ◌↔◌, ◌⊎◌, inl, inr, Bool, true, false, Option,
  some, List, [], ◌∷◌, Text, ok, collect, >>=-eq-ok, Bool-cases, All,
}
use sqlite_server_rs.Rust.Ip.{IpAddr, IsAddr, octets}
use sqlite_server_rs.Rust.Str.{split}
use sqlite_server_rs.Cidr.{Cidr, parse}
use sqlite_server_rs.Cidr.Bits.{SamePrefix}
use sqlite_server_rs.Cidr.Contains.{IsCidr, SameFamily, contains_decides}
use sqlite_server_rs.Cidr.Parse.{parse-IsCidr}
use sqlite_server_rs.Json.{Json}
use sqlite_server_rs.Config.{
  whitelist_item, parse_whitelist_json, Config, any_contains, is_ip_allowed, entries,
  parse_whitelist_csv,
}

-- `ip` lies in the network: it is of its family and agrees with it on the bits of the prefix.
abbrev pub Inside : IpAddr → Cidr → Type 0
Inside ip net = SameFamily net.network ip × SamePrefix (octets net.network) (octets ip) net.prefix

-- It lies in one of them.
abbrev pub InsideOne : IpAddr → List Cidr → Type 0
InsideOne ip nets = (net : Cidr) × Memᴰ net nets × Inside ip net

any_contains_decides :
    (nets : List Cidr) (ip : IpAddr)
    → All IsCidr nets
    → IsAddr ip
    → (r : Bool) × (any_contains nets ip ≡ some r) × ((r ≡ true) ↔ InsideOne ip nets)
unfolding any_contains
any_contains_decides [] ip wf hi = (false, refl, ((λ e. cc e), (λ one. elim one.1 [ ])))
any_contains_decides (net ∷ nets) ip wf hi =
    let (r, e, iff) = contains_decides net ip wf.0.addr wf.0.in_range hi in
    let (r', e', iff') = any_contains_decides nets ip wf.1 hi in
    elim (Bool-cases r) [
      | inl yes_here ↦ (
        true,
        rw (e, yes_here, any_contains),
        ((λ _. (net, Memᴰ.head refl, iff.0 yes_here)), (λ _. refl)),
      )
      | inr not_here ↦ (
        r',
        (rw (e, not_here, any_contains) e'),
        (
          λ t. let one = iff'.0 t in (one.0, Memᴰ.tail one.1, one.2),
          λ one. elim (Memᴰ.cases_cons one.1) [
            | inl same ↦ cc (not_here, iff.1 (rw (← same) one.2))
            | inr later ↦ iff'.1 (one.0, later, one.2)
          ],
        ),
      )
    ]

-- Where the networks of the whitelist are well formed, the test of a peer does not panic, and lets in
-- exactly the peers that lie in one of them, or every peer if the whitelist is empty.
pub is_ip_allowed_decides :
    (config : Config) (ip : IpAddr)
    → All IsCidr config.ip_whitelist
    → IsAddr ip
    → (r : Bool) × (is_ip_allowed config ip ≡ some r)
      × ((r ≡ true) ↔ ((config.ip_whitelist ≡ []) ⊎ InsideOne ip config.ip_whitelist))
unfolding is_ip_allowed
is_ip_allowed_decides config ip wf hi = by_list config.ip_whitelist wf
  where
    by_list :
        (nets : List Cidr)
        → All IsCidr nets
        → (r : Bool) × ((elim nets as (λ _. Option Bool) [
          | [] ↦ some true
          | net ∷ rest ↦ any_contains (net ∷ rest) ip
        ])
            ≡ some r)
          × ((r ≡ true) ↔ ((nets ≡ []) ⊎ InsideOne ip nets))
    by_list [] h = (true, refl, ((λ _. inl refl), (λ _. refl)))
    by_list (net ∷ rest) h =
        let (r, e, iff) = any_contains_decides (net ∷ rest) ip h hi in
        (r, e, ((λ t. inr (iff.0 t)), λ one. elim one [ inl p ↦ cc p | inr i ↦ iff.1 i ]))

-- What every result of a function has, the results of a list have.
pub collect-All {ℓ} :
    {A : Type ℓ} (f : A → Result Cidr Text) (items : List A) (nets : List Cidr)
    → ((item : A) (net : Cidr) → f item ≡ ok net → IsCidr net)
    → collect f items ≡ ok nets
    → All IsCidr nets
collect-All f [] nets each h = let e : [] ≡ nets = cc h in subst (All IsCidr) e tt
collect-All f (t ∷ items) nets each h =
    let (net, e, h1) = >>=-eq-ok (f t) _ h in
    let (rest, e', h2) = >>=-eq-ok (collect f items) _ h1 in
    let same : net ∷ rest ≡ nets = cc h2 in
    subst (All IsCidr) same (each t net e, collect-All f items rest each e')

-- Every network of a whitelist that is read from the command line is well formed.
pub parse_whitelist_csv-IsCidr :
    (s : Text) (nets : List Cidr) → parse_whitelist_csv s ≡ ok nets → All IsCidr nets
unfolding parse_whitelist_csv
parse_whitelist_csv-IsCidr s nets h = collect-All parse (entries (split 44 s)) nets parse-IsCidr h

module _ (j : Json) where
  item-IsCidr : (item : j.Value) (net : Cidr) → whitelist_item j item ≡ ok net → IsCidr net
  unfolding whitelist_item
  item-IsCidr item net h =
      let (s, e, h1) = >>=-eq-ok (ok_or (j.as_str item) _) parse h in parse-IsCidr s net h1

  -- Every network of a whitelist that is read from the configuration file is well formed.
  pub parse_whitelist_json-IsCidr :
      (json : j.Value) (nets : List Cidr) → parse_whitelist_json j json ≡ ok nets → All IsCidr nets
  unfolding parse_whitelist_json
  parse_whitelist_json-IsCidr json nets h =
      elim (Option-cases (j.get json (bytes "ip_whitelist"))) [
        | inl absent ↦
            let e : [] ≡ nets = cc (rw (absent, parse_whitelist_json) at h) in
            subst (All IsCidr) e tt
        | inr (value, given) ↦ elim (Option-cases (j.as_array value)) [
          | inl other ↦ cc (rw (given, parse_whitelist_json, other) at h)
          | inr (items, e) ↦
              collect-All (whitelist_item j) items nets item-IsCidr
                (rw (given, parse_whitelist_json, e) at h)
        ]
      ]
