-- ===== src/Client/Binding/Quotes.antt =====
-- The single quotes of a statement, by their number.
use sqlite_server_rs.Prelude.{
  ◌≡◌, refl, Bool, not, ◌||◌, [], ◌∷◌, ◌++◌, Text, ◌==◌, if◌then◌else◌, arith,
}
use sqlite_server_rs.Client.{HasNoQuote}

-- whether the end of a text stands in quotes, if its start does
unfoldable pub in_quotes : Bool → Text → Bool
in_quotes q [] = q
in_quotes q (x ∷ s) = in_quotes (if x == b'\'' then not q else q) s

-- the characters of a text that stand outside of its single quotes
unfoldable pub outside : Bool → Text → Text
outside q [] = []
outside q (x ∷ s) =
    let rest = outside (if x == b'\'' then not q else q) s in
    if x == b'\'' || q then rest else x ∷ rest

pub in_quotes-append : (q : Bool) (s t : Text) → in_quotes q (s ++ t) ≡ in_quotes (in_quotes q s) t
unfolding in_quotes
in_quotes-append q [] t = refl
in_quotes-append q (x ∷ s) t = in_quotes-append (if x == b'\'' then not q else q) s t

pub outside-append :
    (q : Bool) (s t : Text) → outside q (s ++ t) ≡ outside q s ++ outside (in_quotes q s) t
unfolding outside in_quotes
outside-append q [] t = refl
outside-append q (x ∷ s) t = ground (arith, outside-append (if x == b'\'' then not q else q) s t)

pub in_quotes-no_quote : (q : Bool) (s : Text) → HasNoQuote s → in_quotes q s ≡ q
unfolding in_quotes
in_quotes-no_quote q [] h = refl
in_quotes-no_quote q (x ∷ s) h = rw h.0 (in_quotes-no_quote q s h.1)
