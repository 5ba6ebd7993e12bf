-- ===== src/Query/Fetch.antt =====
-- The rows of `run_query` of src/handler.rs.
use native.Mathlib.Nat.{add-zero}
use sqlite_server_rs.Prelude.{
  ℕ, zero, suc, ◌+◌, ◌≡◌, sym, ◌∙◌, ap, false, some, none, List, [], ◌∷◌, ◌++◌, map, append_assoc,
  append-nil, arith, Text, ok, Result-cases, text_eq, text_eq_iff, ◌↔◌, get_elem?, drop, All, inl,
  inr,
}
use sqlite_server_rs.Json.{last_value, JsonLaws}
use sqlite_server_rs.Store.{Deps, ValueRef, Rows, done, failed, row}
use sqlite_server_rs.Session.{Session}
use sqlite_server_rs.Query.{value_ref_to_json, row_fields, fetch}

module _ {ℓ} {V : Type ℓ} (name c : Text) (v : V) (later : List (Text × V)) where
  last_value-skip :
      last_value name later ≡ none
      → text_eq c name ≡ false
      → last_value name ((c, v) ∷ later) ≡ none
  last_value-skip h e = ground arith

  last_value-here :
      last_value name later ≡ none → c ≡ name → last_value name ((c, v) ∷ later) ≡ some v
  last_value-here h e = ground (arith, text_eq_iff c name)

  last_value-later :
      {w : V} → last_value name later ≡ some w → last_value name ((c, v) ∷ later) ≡ some w
  last_value-later h = ground arith

module _ (d : Deps) where
  open d use {Value, World, Row}

  abbrev pub Fields : Type 0
  Fields = List (Text × Value)

  -- Every row can be read and the statement ends without an error: the fields of each row, in the
  -- order of the rows, and the world at the end.
  pub data Fetched (columns : List Text) : Rows World Row → List Fields → World → Type 0 where
    at_end : (w : World) → Fetched columns (done w) [] w
    next :
        {r : Row} (w : World) {rest : Rows World Row} {fields : Fields} {later : List Fields}
        {end : World}
        → row_fields d r 0 columns ≡ ok fields
        → Fetched columns rest later end
        → Fetched columns (row r w rest) (fields ∷ later) end

  fetch_complete :
      {columns : List Text} {rows : Rows World Row} {fields : List Fields} {end : World}
      → Fetched columns rows fields end
      → (rows_data : List Value) (s : Session d)
      → fetch d columns rows_data rows s
        ≡ (ok (rows_data ++ map d.object fields), record s { world = end })
  unfolding fetch
  fetch_complete (at_end w) rows_data s = rw append-nil
  fetch_complete {columns} (next w {fields = fields} e h) rows_data s = rw e (
      fetch_complete h (rows_data ++ d.object fields ∷ []) (record s { world = w })
      ∙ rw append_assoc)

  fetch_sound :
      (columns : List Text) (rows : Rows World Row) (rows_data values : List Value)
      (s s' : Session d)
      → fetch d columns rows_data rows s ≡ (ok values, s')
      → (fields : List Fields) × (end : World) × Fetched columns rows fields end
  unfolding fetch
  fetch_sound columns (done w) rows_data values s s' h = ([], w, at_end w)
  fetch_sound columns (failed e w) rows_data values s s' h = cc
  fetch_sound columns (row r w rest) rows_data values s s' h =
      elim (Result-cases (row_fields d r 0 columns)) [
        | inl (fields, e) ↦
            let (later, end, f) =
              fetch_sound columns rest (rows_data ++ d.object fields ∷ []) values
                (record s { world = w }) s' (rw (e) at h) in
            (fields ∷ later, end, next w e f)
        | inr (failure, e) ↦ cc (rw e at h)
      ]

  -- The loop over the rows succeeds exactly when the statement ends without an error and every column
  -- of every row can be read. Its result has then an object for each row, in their order.
  pub fetch_iff :
      (columns : List Text) (rows : Rows World Row) (values : List Value) (s s' : Session d)
      → (fetch d columns [] rows s ≡ (ok values, s')) ↔ (
          (fields : List Fields) × (end : World) × Fetched columns rows fields end
          × (values ≡ map d.object fields)
          × (s' ≡ record s { world = end }))
  fetch_iff columns rows values s s' = (
    λ h.
        let (fields, end, f) = fetch_sound columns rows [] values s s' h in
        let same = sym (fetch_complete f [] s) ∙ h in (fields, end, f, cc same, cc same),
    λ (fields, end, f, v, e). fetch_complete f [] s ∙ cc (v, e),
  )

  -- no later column has this name
  abbrev pub IsLast : Text → List Text → Type 0
  IsLast name columns = All (λ c. text_eq c name ≡ false) columns

  row_fields-cons :
      (r : Row) (k : ℕ) (c : Text) (columns : List Text) (fields : Fields)
      → row_fields d r k (c ∷ columns) ≡ ok fields
      → (value : ValueRef d.Float) × (later : Fields) × (d.get_ref r k ≡ ok value)
        × (row_fields d r (k + 1) columns ≡ ok later)
        × (fields ≡ (c, value_ref_to_json d value) ∷ later)
  unfolding row_fields
  row_fields-cons r k c columns fields h = elim (Result-cases (d.get_ref r k)) [
    | inr (e, f) ↦ absurd (ground arith)
    | inl (value, f) ↦ elim (Result-cases (row_fields d r (k + 1) columns)) [
      | inr (e, g) ↦ absurd (ground arith)
      | inl (later, g) ↦ (value, later, f, g, ground arith)
    ]
  ]

  row_fields-absent :
      (r : Row) (k : ℕ) (columns : List Text) (fields : Fields) (name : Text)
      → row_fields d r k columns ≡ ok fields
      → IsLast name columns
      → last_value name fields ≡ none
  row_fields-absent r k [] fields name h l =
      let e : [] ≡ fields = unfold row_fields in cc h in rw (← e)
  row_fields-absent r k (c ∷ columns) fields name h l =
      let (value, later, f, g, e) = row_fields-cons r k c columns fields h in
      ap (last_value name) e
      ∙ last_value-skip name c (value_ref_to_json d value) later
          (row_fields-absent r (k + 1) columns later name g l.1) l.0

  -- The value of a column is in the row's object under its name, if no later column has that name:
  -- of columns with one name the last stays.
  row_fields-last :
      (r : Row) (k i : ℕ) (columns : List Text) (fields : Fields) (name : Text)
      → row_fields d r k columns ≡ ok fields
      → get_elem? columns i ≡ some name
      → IsLast name (drop (suc i) columns)
      → (value : ValueRef d.Float) × (d.get_ref r (k + i) ≡ ok value)
        × (last_value name fields ≡ some (value_ref_to_json d value))
  row_fields-last r k i [] fields name h g l = absurd (ground arith)
  row_fields-last r k zero (c ∷ columns) fields name h g l =
      let (value, later, f, rest, e) = row_fields-cons r k c columns fields h in
      let same : c ≡ name = ground arith in
      let absent = row_fields-absent r (k + 1) columns later name rest l in
      (
        value,
        ap (d.get_ref r) (add-zero k) ∙ f,
        ap (last_value name) e
            ∙ last_value-here name c (value_ref_to_json d value) later absent same,
      )
  row_fields-last r k (suc i) (c ∷ columns) fields name h g l =
      let (value, later, f, rest, e) = row_fields-cons r k c columns fields h in
      let (v, at, found) = row_fields-last r (k + 1) i columns later name rest g l in
      (
        v,
        ap (d.get_ref r) (omega arith) ∙ at,
        ap (last_value name) e ∙ last_value-later name c (value_ref_to_json d value) later found,
      )

  -- A client finds under a column's name, in the object of a row, the JSON form of the row's value at
  -- that column, if no later column has the name.
  pub row_object-get :
      (laws : JsonLaws d.json) (r : Row) (i : ℕ) (columns : List Text) (fields : Fields)
      (name : Text)
      → row_fields d r 0 columns ≡ ok fields
      → get_elem? columns i ≡ some name
      → IsLast name (drop (suc i) columns)
      → (value : ValueRef d.Float) × (d.get_ref r i ≡ ok value)
        × (d.get (d.object fields) name ≡ some (value_ref_to_json d value))
  row_object-get laws r i columns fields name h g l =
      let (value, at, found) = row_fields-last r 0 i columns fields name h g l in
      (value, ap (d.get_ref r) (omega arith) ∙ at, laws.get-object fields name ∙ found)
