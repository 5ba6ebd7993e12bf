-- ===== src/Dict.antt =====
-- `std::collections::HashMap` with string keys, as an association list. The program never iterates
-- over it, so the order of the entries has no meaning.
use sqlite_server_rs.Prelude.{
  ◌≡◌, Option, none, some, List, [], ◌∷◌, arith, Text, text_eq, text_eq_iff, if◌then◌else◌, All,
}

module _ {ℓ} {V : Type ℓ} where
  unfoldable pub lookup : Text → List (Text × V) → Option V
  lookup key [] = none
  lookup key ((k, v) ∷ entries) = if text_eq k key then some v else lookup key entries

  unfoldable pub remove : Text → List (Text × V) → List (Text × V)
  remove key [] = []
  remove key ((k, v) ∷ entries) =
      let rest = remove key entries in if text_eq k key then rest else (k, v) ∷ rest

  unfoldable pub insert : Text → V → List (Text × V) → List (Text × V)
  unfolding remove
  insert key v entries = (key, v) ∷ remove key entries

  pub lookup-remove :
      (key j : Text) (entries : List (Text × V))
      → lookup j (remove key entries) ≡ (if text_eq key j then none else lookup j entries)
  unfolding lookup remove
  lookup-remove key j [] = ground arith
  lookup-remove key j ((k, v) ∷ entries) =
      ground
        (arith, lookup-remove key j entries, text_eq_iff k key, text_eq_iff k j, text_eq_iff key j)

  pub lookup-insert :
      (key j : Text) (v : V) (entries : List (Text × V))
      → lookup j (insert key v entries) ≡ (if text_eq key j then some v else lookup j entries)
  unfolding lookup insert
  lookup-insert key j v entries = ground (arith, lookup-remove key j entries)

  pub All-remove {κ} :
      (P : Text → V → Type κ) (key : Text) (entries : List (Text × V))
      → All (λ e. P e.0 e.1) entries
      → All (λ e. P e.0 e.1) (remove key entries)
  unfolding remove
  All-remove P key [] h = tt
  All-remove P key ((k, v) ∷ entries) (p, h) = ground (arith, All-remove P key entries h)
