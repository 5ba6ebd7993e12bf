-- ===== src/Config/Logged.antt =====
-- The text of the whitelist that `ip_whitelist_repr` of src/config.rs writes, and `parse_whitelist_csv`.
use sqlite_server_rs.Prelude.{
  ℕ, ◌≡◌, ◌≢◌, refl, ap, ◌∙◌, false, List, [], ◌∷◌, ◌++◌, map, Text, bytes, ◌==◌, is_empty, ok,
  collect, All, arith,
}
use sqlite_server_rs.Rust.Str.{split, trim, longer_head}
use sqlite_server_rs.Rust.Str.Split.{split-append, split-whole}
use sqlite_server_rs.Rust.Str.Visible.{IsVisible, trim-space, trim-visible}
use sqlite_server_rs.Cidr.{Cidr, parse as parse_cidr, to_string}
use sqlite_server_rs.Cidr.Contains.{IsCidr}
use sqlite_server_rs.Cidr.Display.{IsPrinted, parse-to_string, to_string-IsPrinted}
use sqlite_server_rs.Config.{Config, display_all, entries, ip_whitelist_repr, parse_whitelist_csv}

-- the text of a network: visible, without a comma, and not empty
record IsEntry (s : Text) : Type 0 where
  visible : All IsVisible s
  no_comma : All (λ x. (x == b',') ≡ false) s
  not_empty : is_empty s ≡ false

All-printed : (s : Text) → All IsPrinted s → All IsVisible s × All (λ x. (x == b',') ≡ false) s
All-printed [] h = (tt, tt)
All-printed (x ∷ s) ((low, high), h) =
    let (v, c) = All-printed s h in (((omega arith, omega arith), v), (ground arith, c))

append-is_empty : (s t : Text) (x : ℕ) → is_empty (s ++ (x ∷ t)) ≡ false
append-is_empty [] t x = refl
append-is_empty (y ∷ s) t x = refl

to_string-IsEntry : (c : Cidr) → IsCidr c → IsEntry (to_string c)
unfolding to_string
to_string-IsEntry c h =
    let (v, k) = All-printed (to_string c) (to_string-IsPrinted c h) in
    record { visible = v; no_comma = k; not_empty = append-is_empty _ _ _ }

entries-entry : (s : Text) (rest : List Text) → IsEntry s → entries (s ∷ rest) ≡ s ∷ entries rest
unfolding entries
entries-entry s rest h = rw (trim-visible s h.visible, entries, h.not_empty) refl

-- A space at the start of the first entry does not matter.
entries-space : (pieces : List Text) → entries (longer_head 32 pieces) ≡ entries pieces
unfolding entries trim
entries-space [] = refl
entries-space (p ∷ pieces) = rw (trim-space p, entries) refl

entries-display_all :
    (net : Cidr) (nets : List Cidr)
    → All IsCidr (net ∷ nets)
    → entries (split b',' (display_all (net ∷ nets))) ≡ map to_string (net ∷ nets)
unfolding display_all entries split
entries-display_all net [] h =
    let e = to_string-IsEntry net h.0 in
    ap entries (split-whole b',' (to_string net) e.no_comma) ∙ entries-entry (to_string net) [] e
entries-display_all net (next ∷ nets) h =
    let e = to_string-IsEntry net h.0 in
    let later : Text = display_all (next ∷ nets) in
    let cut : split b',' (to_string net ++ (b',' ∷ 32 ∷ later))
        ≡ to_string net ∷ longer_head 32 (split b',' later) =
      split-append b',' (to_string net) (32 ∷ later)
      ∙ ap (λ (front : List Text). front ++ longer_head 32 (split b',' later))
          (split-whole b',' (to_string net) e.no_comma) in
    ap entries cut
    ∙ entries-entry (to_string net) (longer_head 32 (split b',' later)) e
    ∙ ap (λ ts. to_string net ∷ ts)
        (entries-space (split b',' later) ∙ entries-display_all next nets h.1)

collect-to_string :
    (nets : List Cidr) → All IsCidr nets → collect parse_cidr (map to_string nets) ≡ ok nets
collect-to_string [] h = refl
collect-to_string (net ∷ nets) (this, h) =
    rw (parse-to_string net this, collect-to_string nets h) refl

-- A whitelist of well-formed networks that is not empty is logged as a text that `--ip-whitelist` takes for
-- the same whitelist.
pub parse_whitelist_csv-ip_whitelist_repr :
    (config : Config)
    → config.ip_whitelist ≢ []
    → All IsCidr config.ip_whitelist
    → parse_whitelist_csv (ip_whitelist_repr config) ≡ ok config.ip_whitelist
unfolding parse_whitelist_csv ip_whitelist_repr
parse_whitelist_csv-ip_whitelist_repr config some_net h = by_list config.ip_whitelist some_net h
  where
    by_list :
        (nets : List Cidr)
        → nets ≢ []
        → All IsCidr nets
        → collect parse_cidr (
            entries (
              split b',' (elim nets as (λ _. Text) [
                | [] ↦ bytes "(any)"
                | net ∷ rest ↦ display_all (net ∷ rest)
              ])))
          ≡ ok nets
    by_list [] none_ none_all = absurd (none_ refl)
    by_list (net ∷ nets) _ all =
        ap (collect parse_cidr) (entries-display_all net nets all)
        ∙ collect-to_string (net ∷ nets) all
