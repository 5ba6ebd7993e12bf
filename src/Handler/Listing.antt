-- ===== src/Handler/Listing.antt =====
-- `LIST` of src/handler.rs, where the order of the folder's entries is forgotten: the operating system
-- gives them in any order.
use mathlib.Core.List.Permᴰ
use mathlib.Core.List.{Permᴰ}
use mathlib.Core.Quot
use mathlib.Core.Quot.{Quot, Quot-set}
use sqlite_server_rs.Prelude.{
  ◌≡◌, refl, ap, ◌∙◌, inl, inr, Bool, true, false, not, Option, none, some, List, [], ◌∷◌, Text,
  bytes, Bool-cases, filter_map, ◌||◌, if◌then◌else◌,
}
use sqlite_server_rs.Rust.FilePath.{join}
use sqlite_server_rs.Rust.Str.{ends_with}
use sqlite_server_rs.Rust.Utf8.{from_utf8_lossy}
use sqlite_server_rs.DatabaseName.{is_sqlite_sidecar_file}
use sqlite_server_rs.Store.{Deps}
use sqlite_server_rs.Handler.{is_regular, list_names}

-- a list of which the order is forgotten
abbrev pub Bag : Type 0 → Type 0
Bag A = Quot (Permᴰ {A = A})

module _ (d : Deps) (world : d.World) (folder : Text) where
  -- an entry adds a name in front of the names of the others, or nothing
  data Adds (entry : Option Text) : Type 0 where
    nothing :
        ((entries : List (Option Text))
          → list_names d world folder (entry ∷ entries) ≡ list_names d world folder entries)
        → Adds entry
    one_name :
        (name : Text)
        → ((entries : List (Option Text))
            → list_names d world folder (entry ∷ entries)
              ≡ name ∷ list_names d world folder entries)
        → Adds entry

  adds : (entry : Option Text) → Adds entry
  unfolding list_names
  adds none = nothing (λ entries. refl)
  adds (some file) = elim (Bool-cases (is_regular d world (join folder file))) [
    | inr other ↦ nothing (λ entries. rw (other, list_names) refl)
    | inl regular ↦ elim (Bool-cases (is_sqlite_sidecar_file (from_utf8_lossy file))) [
      | inl sidecar ↦ nothing (λ entries. rw (regular, list_names, sidecar) refl)
      | inr shown ↦
          one_name (from_utf8_lossy file) (λ entries. rw (regular, list_names, shown) refl)
    ]
  ]

  Permᴰ-adds :
      (entry : Option Text) (xs ys : List (Option Text))
      → Adds entry
      → Permᴰ (list_names d world folder xs) (list_names d world folder ys)
      → Permᴰ (list_names d world folder (entry ∷ xs)) (list_names d world folder (entry ∷ ys))
  Permᴰ-adds entry xs ys (nothing same) p = rw (same xs, same ys) p
  Permᴰ-adds entry xs ys (one_name name front) p = rw (front xs, front ys) (Permᴰ.cons refl p)

  Permᴰ-swap :
      (a b : Option Text) (xs : List (Option Text))
      → Adds a
      → Adds b
      → Permᴰ (list_names d world folder (a ∷ b ∷ xs)) (list_names d world folder (b ∷ a ∷ xs))
  Permᴰ-swap a b xs (nothing f) (nothing g) = rw (f (b ∷ xs), g (a ∷ xs), f xs, g xs) (Permᴰ.refl _)
  Permᴰ-swap a b xs (nothing f) (one_name y g) =
      rw (f (b ∷ xs), g (a ∷ xs), f xs, g xs) (Permᴰ.refl _)
  Permᴰ-swap a b xs (one_name x f) (nothing g) =
      rw (f (b ∷ xs), g (a ∷ xs), f xs, g xs) (Permᴰ.refl _)
  Permᴰ-swap a b xs (one_name x f) (one_name y g) =
      rw (f (b ∷ xs), g (a ∷ xs), f xs, g xs) (Permᴰ.swap refl refl)

  -- The same entries in another order give the same names in another order.
  pub list_names-Permᴰ :
      (xs ys : List (Option Text))
      → Permᴰ xs ys
      → Permᴰ (list_names d world folder xs) (list_names d world folder ys)
  list_names-Permᴰ xs ys Permᴰ.nil = Permᴰ.refl _
  list_names-Permᴰ xs ys (Permᴰ.cons {b = b} {l₁ = l} {l₂ = r} e p) =
      rw e (Permᴰ-adds b l r (adds b) (list_names-Permᴰ l r p))
  list_names-Permᴰ xs ys (Permᴰ.swap {a' = a'} {b' = b'} {l = l} e e') =
      rw (e, e') (Permᴰ-swap b' a' l (adds b') (adds a'))
  list_names-Permᴰ xs ys (Permᴰ.trans {l₁ = l} {l₂ = m} {l₃ = r} p q) =
      Permᴰ.trans (list_names-Permᴰ l m p) (list_names-Permᴰ m r q)

  -- the names of a folder, both without an order
  abbrev pub listing : Bag (Option Text) → Bag Text
  listing =
      Quot.lift Quot-set (λ xs. Quot.mk (list_names d world folder xs))
        (λ xs ys p. Quot.sound (list_names-Permᴰ xs ys p))

  -- what `is_file` tells of an entry, if its metadata can be read, and its name: that is shown for a
  -- regular file with none of the endings of the files that SQLite keeps beside a database
  abbrev shown_of : Option Bool → Text → Option Text
  shown_of none name = none
  shown_of (some false) name = none
  shown_of (some true) name =
      if ends_with name (bytes "-journal")
        || ends_with name (bytes "-shm")
        || ends_with name (bytes "-wal")
      then none
      else some name

  abbrev pub shown_name : Option Text → Option Text
  shown_name none = none
  shown_name (some file) = shown_of (d.is_file world (join folder file)) (from_utf8_lossy file)

  add : Option Text → List Text → List Text
  add none names = names
  add (some name) names = name ∷ names

  list_names-shown_name :
      (file : Text) (entries : List (Option Text))
      → list_names d world folder (some file ∷ entries)
        ≡ add (shown_name (some file)) (list_names d world folder entries)
  unfolding list_names is_sqlite_sidecar_file add
  list_names-shown_name file entries =
      by_kind (d.is_file world (join folder file)) (from_utf8_lossy file)
        (list_names d world folder entries)
    where
      endings :
          (w h j : Bool) (name : Text) (rest : List Text)
          → (if not (w || h || j) then name ∷ rest else rest)
            ≡ add (if j || h || w then none else some name) rest
      endings true true true name rest = refl
      endings true true false name rest = refl
      endings true false true name rest = refl
      endings true false false name rest = refl
      endings false true true name rest = refl
      endings false true false name rest = refl
      endings false false true name rest = refl
      endings false false false name rest = refl

      by_kind :
          (kind : Option Bool) (name : Text) (rest : List Text)
          → (if (elim kind as (λ _. Bool) [ none ↦ false | some regular ↦ regular ])
              then (if not (is_sqlite_sidecar_file name) then name ∷ rest else rest)
              else rest)
            ≡ add (shown_of kind name) rest
      by_kind none name rest = refl
      by_kind (some false) name rest = refl
      by_kind (some true) name rest =
          endings (ends_with name (bytes "-wal")) (ends_with name (bytes "-shm"))
            (ends_with name (bytes "-journal")) name rest

  list_names-filter_map :
      (entries : List (Option Text))
      → list_names d world folder entries ≡ filter_map shown_name entries
  unfolding list_names add
  list_names-filter_map [] = refl
  list_names-filter_map (none ∷ entries) = list_names-filter_map entries
  list_names-filter_map (some file ∷ entries) =
      list_names-shown_name file entries
      ∙ ap (add (shown_name (some file))) (list_names-filter_map entries)
      ∙ added (shown_name (some file)) refl
    where
      added :
          (shown : Option Text)
          → shown_name (some file) ≡ shown
          → add shown (filter_map shown_name entries) ≡ filter_map shown_name (some file ∷ entries)
      added none e = rw (e, filter_map) refl
      added (some name) e = rw (e, filter_map) refl

  -- However the operating system orders the entries of the folder, LIST shows the same names, each as
  -- often: those of the entries that are regular files and have none of the endings -journal, -wal and
  -- -shm.
  pub list_names-shown :
      (xs ys : List (Option Text))
      → ◌≡◌ {A = Bag (Option Text)} (Quot.mk xs) (Quot.mk ys)
      → ◌≡◌ {A = Bag Text}
          (Quot.mk (list_names d world folder xs))
          (Quot.mk (filter_map shown_name ys))
  list_names-shown xs ys e =
      ap listing e ∙ ap (λ (names : List Text). Quot.mk names) (list_names-filter_map ys)
