-- ===== src/Handler/Replies.antt =====
-- The replies of the commands of src/handler.rs.
use mathlib.Core.Path.{ap₂, subst}
use mathlib.Core.List.Memᴰ
use mathlib.Core.List.{Memᴰ}
use sqlite_server_rs.Prelude.{
  ◌≡◌, refl, sym, ◌↔◌, inl, inr, true, false, ◌&&◌, ◌==◌, ==_iff, and-eq-true, Option, some, none,
  List, [], ◌∷◌, Text, bytes, Bool-cases,
}
use sqlite_server_rs.Rust.FilePath.{join}
use sqlite_server_rs.Rust.Str.{eq_ignore_ascii_case, to_ascii_lowercase}
use sqlite_server_rs.Rust.Utf8.{from_utf8_lossy}
use sqlite_server_rs.Store.{Deps}
use sqlite_server_rs.Session.{Session}
use sqlite_server_rs.DatabaseName.{is_sqlite_sidecar_file}
use sqlite_server_rs.Handler.{is_regular, list_names, dispatch}

-- The comparison is that of the texts in lower case.
eq_ignore-congr :
    (a b c : Text)
    → eq_ignore_ascii_case a b ≡ true
    → eq_ignore_ascii_case a c ≡ eq_ignore_ascii_case b c
unfolding eq_ignore_ascii_case
eq_ignore-congr [] [] c h = refl
eq_ignore-congr [] (y ∷ b) c h = cc
eq_ignore-congr (x ∷ a) [] c h = cc
eq_ignore-congr (x ∷ a) (y ∷ b) [] h = refl
eq_ignore-congr (x ∷ a) (y ∷ b) (z ∷ c) h =
    let parts = and-eq-true _ _ h in
    let e = (==_iff _ _).0 parts.0 in
    ap₂ (λ p q. p == to_ascii_lowercase z && q) e (eq_ignore-congr a b c parts.1)

module _ (d : Deps) where
  -- The reply to a request, and what it does, depend on its command only up to ASCII case.
  pub dispatch_ignores_case :
      (cmd cmd' req : Text) (request : d.Value) (s : Session d)
      → eq_ignore_ascii_case cmd cmd' ≡ true
      → dispatch d cmd req request s ≡ dispatch d cmd' req request s
  unfolding dispatch
  dispatch_ignores_case cmd cmd' req request s h = rw (
    eq_ignore-congr cmd cmd' (bytes "QUERY") h,
    eq_ignore-congr cmd cmd' (bytes "LIST") h,
    eq_ignore-congr cmd cmd' (bytes "DELETE_DB") h,
  )

  -- the entry of the folder that `LIST` shows under a name
  pub record IsListed (world : d.World) (folder : Text) (entries : List (Option Text)) (name : Text)
      : Type 0 where
    pub file_name : Text
    pub entry : Memᴰ (some file_name) entries
    pub regular : is_regular d world (join folder file_name) ≡ true
    pub shown : from_utf8_lossy file_name ≡ name
    pub no_sidecar : is_sqlite_sidecar_file name ≡ false

  IsListed-cons :
      {world : d.World} {folder : Text} {entries : List (Option Text)} {name : Text}
      (o : Option Text)
      → IsListed world folder entries name
      → IsListed world folder (o ∷ entries) name
  IsListed-cons o l = record {
    file_name = l.file_name;
    entry = Memᴰ.tail l.entry;
    regular = l.regular;
    shown = l.shown;
    no_sidecar = l.no_sidecar;
  }

  module _ (world : d.World) (folder : Text) where
    list_names_sound :
        (entries : List (Option Text)) (name : Text)
        → Memᴰ name (list_names d world folder entries)
        → IsListed world folder entries name
    unfolding list_names
    list_names_sound [] name m = elim m [ ]
    list_names_sound (none ∷ entries) name m = IsListed-cons none (list_names_sound entries name m)
    list_names_sound (some file ∷ entries) name m =
        elim (Bool-cases (is_regular d world (join folder file))) [
          | inr other ↦ IsListed-cons (some file) (list_names_sound entries name (rw other at m))
          | inl regular ↦ elim (Bool-cases (is_sqlite_sidecar_file (from_utf8_lossy file))) [
            | inl sidecar ↦
                IsListed-cons (some file)
                  (list_names_sound entries name (rw (regular, sidecar) at m))
            | inr plain ↦ elim (Memᴰ.cases_cons (rw (regular, plain) at m)) [
              | inl e ↦ record {
                file_name = file;
                entry = Memᴰ.head refl;
                regular = regular;
                shown = sym e;
                no_sidecar = rw e plain;
              }
              | inr later ↦ IsListed-cons (some file) (list_names_sound entries name later)
            ]
          ]
        ]

    list_names_complete :
        (entries : List (Option Text)) (file : Text)
        → Memᴰ (some file) entries
        → is_regular d world (join folder file) ≡ true
        → is_sqlite_sidecar_file (from_utf8_lossy file) ≡ false
        → Memᴰ (from_utf8_lossy file) (list_names d world folder entries)
    unfolding list_names
    list_names_complete [] file m r p = elim m [ ]
    list_names_complete (none ∷ entries) file m r p = elim (Memᴰ.cases_cons m) [
      | inl e ↦ cc e
      | inr later ↦ list_names_complete entries file later r p
    ]
    list_names_complete (some x ∷ entries) file m r p = elim (Memᴰ.cases_cons m) [
      | inl e ↦ let same : file ≡ x = cc e in rw (← same, r, p) (Memᴰ.head refl)
      | inr later ↦
          let ih = list_names_complete entries file later r p in
          elim (Bool-cases (is_regular d world (join folder x))) [
            | inr other ↦ rw other ih
            | inl regular ↦ elim (Bool-cases (is_sqlite_sidecar_file (from_utf8_lossy x))) [
              | inl sidecar ↦ rw (regular, sidecar) ih
              | inr plain ↦ rw (regular, plain) (Memᴰ.tail ih)
            ]
          ]
    ]

    -- `LIST` shows a name exactly when an entry of the folder that could be read is a regular file,
    -- its name as text is that name, and the name is not that of a sidecar file.
    pub list_names_iff :
        (entries : List (Option Text)) (name : Text)
        → Memᴰ name (list_names d world folder entries) ↔ IsListed world folder entries name
    list_names_iff entries name = (
      list_names_sound entries name,
      λ l.
          subst (λ n. Memᴰ n (list_names d world folder entries)) l.shown
            (list_names_complete entries l.file_name l.entry l.regular (rw l.shown l.no_sidecar)),
    )
