-- ===== src/Config/File.antt =====
-- The keys of the configuration file of src/config.rs, and the configuration that they give.
pub mod Accepted
use sqlite_server_rs.Prelude.{
  ℕ, ◌%◌, ◌^◌, ◌≡◌, refl, sym, ap, ◌∙◌, ◌↔◌, ◌⊎◌, inl, inr, some, none, List, [], ◌∷◌, Text, bytes,
  Result, ok, err, ok_or, collect, >>=-eq-ok, Option-cases,
}
use sqlite_server_rs.Json.{Json}
use sqlite_server_rs.Cidr.{Cidr, parse as parse_cidr}
use sqlite_server_rs.Config.{
  Config, Host, default_busy_timeout_ms, require_str, require_u64, whitelist_item,
  parse_whitelist_json, optional_busy_timeout, optional_auth, resolve_endpoint,
  resolve_database_path, from_json,
}

module _ (j : Json) where
  -- a key with a string, or with a number that is not negative
  pub record StrAt (json : j.Value) (key s : Text) : Type 0 where
    pub value : j.Value
    pub given : j.get json key ≡ some value
    pub reads : j.as_str value ≡ some s

  pub record NumberAt (json : j.Value) (key : Text) (n : ℕ) : Type 0 where
    pub value : j.Value
    pub given : j.get json key ≡ some value
    pub reads : j.as_u64 value ≡ some n

  -- the items are strings, each the text of a network
  abbrev pub AllRead : List j.Value → List Cidr → Type 0
  AllRead [] [] = Unit
  AllRead (item ∷ items) (net ∷ nets) =
      ((s : Text) × (j.as_str item ≡ some s) × (parse_cidr s ≡ ok net)) × AllRead items nets
  AllRead _ _ = ⊥

  pub record NetworksAt (json : j.Value) (nets : List Cidr) : Type 0 where
    pub value : j.Value
    pub items : List j.Value
    pub given : j.get json (bytes "ip_whitelist") ≡ some value
    pub listed : j.as_array value ≡ some items
    pub reads : AllRead items nets

  pub require_str_iff :
      (json : j.Value) (key s : Text) → (require_str j json key ≡ ok s) ↔ StrAt json key s
  unfolding require_str
  require_str_iff json key s = (sound, λ g. rw (g.given, require_str, g.reads) refl)
    where
      sound : require_str j json key ≡ ok s → StrAt json key s
      sound h = elim (Option-cases (j.get json key)) [
        | inl absent ↦ cc (rw (absent, require_str) at h)
        | inr (v, given) ↦ elim (Option-cases (j.as_str v)) [
          | inl other ↦ cc (rw (given, require_str, other) at h)
          | inr (t, reads) ↦ record {
            value = v;
            given = given;
            reads = reads ∙ ap some (cc (rw (given, require_str, reads) at h));
          }
        ]
      ]

  pub require_u64_iff :
      (json : j.Value) (key : Text) (n : ℕ) → (require_u64 j json key ≡ ok n) ↔ NumberAt json key n
  unfolding require_u64
  require_u64_iff json key n = (sound, λ g. rw (g.given, require_u64, g.reads) refl)
    where
      sound : require_u64 j json key ≡ ok n → NumberAt json key n
      sound h = elim (Option-cases (j.get json key)) [
        | inl absent ↦ cc (rw (absent, require_u64) at h)
        | inr (v, given) ↦ elim (Option-cases (j.as_u64 v)) [
          | inl other ↦ cc (rw (given, require_u64, other) at h)
          | inr (t, reads) ↦ record {
            value = v;
            given = given;
            reads = reads ∙ ap some (cc (rw (given, require_u64, reads) at h));
          }
        ]
      ]

  pub optional_busy_timeout_iff :
      (json : j.Value) (n : ℕ)
      → (optional_busy_timeout j json ≡ ok n) ↔ (
          ((j.get json (bytes "busy_timeout_ms") ≡ none) × (n ≡ default_busy_timeout_ms))
          ⊎ NumberAt json (bytes "busy_timeout_ms") n)
  unfolding optional_busy_timeout
  optional_busy_timeout_iff json n = (
    λ h. elim (Option-cases (j.get json (bytes "busy_timeout_ms"))) [
      | inl absent ↦ inl (absent, cc (rw (absent, optional_busy_timeout) at h))
      | inr (v, given) ↦ elim (Option-cases (j.as_u64 v)) [
        | inl other ↦ cc (rw (given, optional_busy_timeout, other) at h)
        | inr (t, reads) ↦ inr (record {
          value = v;
          given = given;
          reads = reads ∙ ap some (cc (rw (given, optional_busy_timeout, reads) at h));
        })
      ]
    ],
    λ c. elim c [
      | inl (absent, e) ↦ rw (absent, optional_busy_timeout) (ap ok (sym e))
      | inr g ↦ rw (g.given, optional_busy_timeout, g.reads) refl
    ],
  )

  pub optional_auth_iff :
      (json : j.Value) (s : Text)
      → (optional_auth j json ≡ ok s)
        ↔ (((j.get json (bytes "auth") ≡ none) × (s ≡ [])) ⊎ StrAt json (bytes "auth") s)
  unfolding optional_auth
  optional_auth_iff json s = (
    λ h. elim (Option-cases (j.get json (bytes "auth"))) [
      | inl absent ↦ inl (absent, cc (rw (absent, optional_auth) at h))
      | inr (v, given) ↦ elim (Option-cases (j.as_str v)) [
        | inl other ↦ cc (rw (given, optional_auth, other) at h)
        | inr (t, reads) ↦ inr (record {
          value = v;
          given = given;
          reads = reads ∙ ap some (cc (rw (given, optional_auth, reads) at h));
        })
      ]
    ],
    λ c. elim c [
      | inl (absent, e) ↦ rw (absent, optional_auth) (ap ok (sym e))
      | inr g ↦ rw (g.given, optional_auth, g.reads) refl
    ],
  )

  whitelist_item_iff :
      (item : j.Value) (net : Cidr)
      → (whitelist_item j item ≡ ok net)
        ↔ ((s : Text) × (j.as_str item ≡ some s) × (parse_cidr s ≡ ok net))
  unfolding whitelist_item
  whitelist_item_iff item net = (
    λ h. elim (Option-cases (j.as_str item)) [
      | inl other ↦ cc (rw (other, whitelist_item) at h)
      | inr (s, e) ↦ (s, e, rw (e, whitelist_item) at h)
    ],
    λ (s, e, p). rw (e, whitelist_item) p,
  )

  collect_sound :
      (items : List j.Value) (nets : List Cidr)
      → collect (whitelist_item j) items ≡ ok nets
      → AllRead items nets
  collect_sound [] [] h = tt
  collect_sound [] (net ∷ nets) h = cc h
  collect_sound (item ∷ items) [] h =
      let (net, e, h1) = >>=-eq-ok (whitelist_item j item) _ h in
      let (rest, e', h2) = >>=-eq-ok (collect (whitelist_item j) items) _ h1 in cc h2
  collect_sound (item ∷ items) (net ∷ nets) h =
      let (first, e, h1) = >>=-eq-ok (whitelist_item j item) _ h in
      let (rest, e', h2) = >>=-eq-ok (collect (whitelist_item j) items) _ h1 in
      let same : first ≡ net = cc h2 in
      let same_rest : rest ≡ nets = cc h2 in
      (
        (whitelist_item_iff item net).0 (e ∙ ap ok same),
        collect_sound items nets (e' ∙ ap ok same_rest),
      )

  collect_complete :
      (items : List j.Value) (nets : List Cidr)
      → AllRead items nets
      → collect (whitelist_item j) items ≡ ok nets
  collect_complete [] [] h = refl
  collect_complete [] (net ∷ nets) h = absurd h
  collect_complete (item ∷ items) [] h = absurd h
  collect_complete (item ∷ items) (net ∷ nets) (this, h) =
      rw ((whitelist_item_iff item net).1 this, collect_complete items nets h) refl

  pub parse_whitelist_json_iff :
      (json : j.Value) (nets : List Cidr)
      → (parse_whitelist_json j json ≡ ok nets)
        ↔ (((j.get json (bytes "ip_whitelist") ≡ none) × (nets ≡ [])) ⊎ NetworksAt json nets)
  unfolding parse_whitelist_json
  parse_whitelist_json_iff json nets = (
    λ h. elim (Option-cases (j.get json (bytes "ip_whitelist"))) [
      | inl absent ↦ inl (absent, cc (rw (absent, parse_whitelist_json) at h))
      | inr (v, given) ↦ elim (Option-cases (j.as_array v)) [
        | inl other ↦ cc (rw (given, parse_whitelist_json, other) at h)
        | inr (items, listed) ↦ inr (record {
          value = v;
          items = items;
          given = given;
          listed = listed;
          reads = collect_sound items nets (rw (given, parse_whitelist_json, listed) at h);
        })
      ]
    ],
    λ c. elim c [
      | inl (absent, e) ↦ rw (absent, parse_whitelist_json) (ap ok (sym e))
      | inr g ↦ rw (g.given, parse_whitelist_json, g.listed) (collect_complete g.items nets g.reads)
    ],
  )
