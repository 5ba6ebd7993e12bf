-- ===== src/Tests/Wire.antt =====
-- Messages and connections.
use sqlite_server_rs.Prelude.{
  ℕ, ◌^◌, ◌≤◌, ◌≡◌, ◌≢◌, refl, Bool, true, some, List, [], ◌∷◌, ◌++◌, map, Text, bytes, arith,
  length,
}
use sqlite_server_rs.Hex.{blob_literal, decode_blob_literal, decode-blob_literal}
use sqlite_server_rs.Rust.Utf8.{from_utf8_lossy}
use sqlite_server_rs.Connection.Locked.{locked_connection}
use sqlite_server_rs.Handler.{handle_request, parse_request, carries_password}
use sqlite_server_rs.Json.{str_field}
use sqlite_server_rs.Rust.Str.{split, split_once}
use sqlite_server_rs.Frame.{read_exact, from_le_bytes, frame, recv, recv-ne-frame}
use sqlite_server_rs.Connection.{handle, stop, Exit}
use sqlite_server_rs.Connection.Refinement.{Ran, frames, bodies, handle-Ran}
use sqlite_server_rs.Connection.Messages.{handle-messages}
use sqlite_server_rs.Handler.Auth.{after}
use sqlite_server_rs.Tests.Machine.{deps, guarded, world, fresh}

decode-blob_literal_example :
    decode_blob_literal (blob_literal (0 ∷ 255 ∷ 16 ∷ [])) ≡ some (0 ∷ 255 ∷ 16 ∷ [])
decode-blob_literal_example =
    decode-blob_literal (0 ∷ 255 ∷ 16 ∷ []) (omega arith, (omega arith, (omega arith, tt)))

repeated : ℕ → ℕ → Text
repeated ℕ.zero x = []
repeated (ℕ.suc n) x = x ∷ repeated n x

length-repeated : (n x : ℕ) → length (repeated n x) ≡ n
unfolding repeated
length-repeated ℕ.zero x = refl
length-repeated (ℕ.suc n) x = omega (arith, length-repeated n x)

-- a response of 4 GiB
abbrev huge : Text
huge = repeated (2 ^ 32) 97

length-huge : 2 ^ 32 ≤ length huge
length-huge = omega (arith, length-repeated (2 ^ 32) 97)

recv-ne-frame_example : recv (frame huge ++ []) ≢ some (huge, [])
recv-ne-frame_example = recv-ne-frame huge [] length-huge

-- the first write succeeds, and no other
abbrev one_write : ℕ → Bool
one_write ℕ.zero = true
one_write (ℕ.suc n) = Bool.false

handle-Ran_example :
    Ran deps one_write [] fresh
      (handle deps one_write (frame (bytes "auth=pw") ++ frame (bytes "cmd=LIST")) guarded world)
handle-Ran_example =
    handle-Ran deps one_write (frame (bytes "auth=pw") ++ frame (bytes "cmd=LIST")) guarded world

abbrev messages : List Text
messages = bytes "auth=pw" ∷ bytes "cmd=LIST" ∷ []

handle-messages_example :
    handle deps (λ n. true) (frames messages) guarded world
    ≡ stop deps
        (λ n. true)
        Exit.closed
        (after deps (map from_utf8_lossy messages) fresh)
        (frames (bodies deps (λ n. true) (map from_utf8_lossy messages) fresh))
handle-messages_example =
    handle-messages deps (λ n. true) messages guarded world (λ k. refl)
      (omega arith, (omega arith, tt)) (omega arith)

abbrev guesses : Text
guesses = frame (bytes "auth=no") ++ frame (bytes "cmd=LIST")

guesses_fail : (handle deps (λ n. true) guesses guarded world).session.authenticated ≡ Bool.false
unfolding handle read_exact from_le_bytes frame from_utf8_lossy handle_request parse_request
    carries_password str_field split split_once
guesses_fail = refl

locked_connection_example : (handle deps (λ n. true) guesses guarded world).session ≡ fresh
locked_connection_example =
    locked_connection deps (λ n. true) guesses guarded world refl guesses_fail
