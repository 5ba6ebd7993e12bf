-- ===== src/Tests/Demo.antt =====
-- The demo of the client, on a stream with answers that are written in advance.
use sqlite_server_rs.Prelude.{
  ◌≡◌, refl, pos, true, none, some, List, [], ◌∷◌, ◌++◌, Text, bytes, ok, err, length, take, drop,
  ltb, text_eq, if◌then◌else◌,
}
use sqlite_server_rs.Frame.{to_le_bytes, from_le_bytes}
use sqlite_server_rs.Client.{ClientDeps}
use sqlite_server_rs.Client.Calls.{Stream, stream_failed}
use sqlite_server_rs.Client.Demo.{
  demo, column_names, user, row_count, databases, could_not_connect, returned,
}
use sqlite_server_rs.Tests.Values.{json, print}
use sqlite_server_rs.Tests.Client.{table}
use sqlite_server_rs.Tests.Library.{library}

-- every reply is the same table
abbrev reader : ClientDeps json
reader = record library {
  from_slice = λ s. if text_eq s (print table) then ok table else err (bytes "malformed");
}

-- the bytes that are still to come; every write succeeds
abbrev answers : Stream Text
answers = record {
  write_all = λ body s. (true, s);
  flush = λ s. (true, s);
  read_exact = λ n s. if ltb (length s) n then (none, []) else (some (take n s), drop n s);
}

abbrev replies : List Text → Text
replies [] = []
replies (r ∷ rs) = to_le_bytes (length r) ++ (r ++ replies rs)

abbrev reply : Text
reply = print table

refused : demo reader answers tt tt (err stream_failed) ≡ ([], could_not_connect stream_failed)
unfolding demo
refused = refl

-- the server goes away after the third query
cut_off :
    demo reader answers tt tt (ok (replies (reply ∷ reply ∷ reply ∷ [])))
    ≡ ([], returned (err stream_failed))
unfolding demo to_le_bytes from_le_bytes
cut_off = refl

-- the server goes away after the fifth query
cut_off_later :
    demo reader answers tt tt (ok (replies (reply ∷ reply ∷ reply ∷ reply ∷ reply ∷ []))) ≡ (
      column_names (bytes "n" ∷ bytes "t" ∷ []) ∷ user none none none none ∷ [],
      returned (err stream_failed),
    )
unfolding demo to_le_bytes from_le_bytes
cut_off_later = refl

complete :
    demo reader answers tt tt
      (ok (replies (reply ∷ reply ∷ reply ∷ reply ∷ reply ∷ reply ∷ reply ∷ [])))
    ≡ (
      column_names (bytes "n" ∷ bytes "t" ∷ [])
          ∷ user none none none none
          ∷ row_count (pos 7)
          ∷ databases []
          ∷ [],
      returned (ok tt),
    )
unfolding demo to_le_bytes from_le_bytes
complete = refl
