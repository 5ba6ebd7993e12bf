-- ===== src/Frame.antt =====
-- The framing of src/connection.rs and of examples/rust/client.rs: a 4-byte little-endian length,
-- and that many bytes.
use sqlite_server_rs.Prelude.{
  ℕ, ◌+◌, ◌*◌, ◌/◌, ◌%◌, ◌^◌, ◌≤◌, ◌<◌, ◌≡◌, ◌≢◌, ap, ◌∙◌, sym, Option, none, some, List, [], ◌∷◌,
  ◌++◌, append_assoc, arith, Text, leb, le→leb, leb→le, Bool-cases, inl, inr, length-take_of_le,
  if◌then◌else◌, length, length-append, take, drop, get_or, take-append_length, drop-append_length,
}

-- `(n as u32).to_le_bytes()`
unfoldable pub to_le_bytes : ℕ → List ℕ
to_le_bytes n =
    let w = n % 2 ^ 32 in w % 256 ∷ w / 2 ^ 8 % 256 ∷ w / 2 ^ 16 % 256 ∷ w / 2 ^ 24 % 256 ∷ []

-- `u32::from_le_bytes`
unfoldable pub from_le_bytes : List ℕ → ℕ
from_le_bytes b =
    get_or b 0 0 + get_or b 1 0 * 2 ^ 8 + get_or b 2 0 * 2 ^ 16 + get_or b 3 0 * 2 ^ 24

-- `read_exact` of `n` bytes, with the bytes that come before the end of the stream: what is read, and
-- what is left; `none` where the stream ends first
unfoldable pub read_exact : ℕ → Text → Option (Text × Text)
read_exact n input = if leb n (length input) then some (take n input, drop n input) else none

-- the bytes of a message
unfoldable pub frame : Text → Text
unfolding to_le_bytes
frame body = to_le_bytes (length body) ++ body

-- `recv` of the client, up to the JSON
unfoldable pub recv : Text → Option (Text × Text)
unfolding read_exact from_le_bytes
recv input = elim (read_exact 4 input) [
  | none ↦ none
  | some (header, rest) ↦ read_exact (from_le_bytes header) rest
]

pub from_le_bytes-to_le_bytes : (n : ℕ) → from_le_bytes (to_le_bytes n) ≡ n % 2 ^ 32
unfolding from_le_bytes to_le_bytes
from_le_bytes-to_le_bytes n = omega arith

pub read_exact-append : (a b : Text) → read_exact (length a) (a ++ b) ≡ some (a, b)
unfolding read_exact
read_exact-append a b = rw (
  le→leb (length a) (length (a ++ b)) (omega (arith, length-append a b)),
  take-append_length a b,
  drop-append_length a b,
)

pub read_exact-frame :
    (body rest : Text)
    → read_exact 4 (frame body ++ rest) ≡ some (to_le_bytes (length body), body ++ rest)
unfolding frame
read_exact-frame body rest =
    ap (read_exact 4) (append_assoc (to_le_bytes (length body)) body rest)
    ∙ (unfold to_le_bytes in read_exact-append (to_le_bytes (length body)) (body ++ rest))

recv-read :
    (body rest : Text)
    → recv (frame body ++ rest) ≡ read_exact (length body % 2 ^ 32) (body ++ rest)
unfolding recv
recv-read body rest =
    rw (read_exact-frame body rest, recv)
      (ap (λ n. read_exact n (body ++ rest)) (from_le_bytes-to_le_bytes (length body)))

-- A message of less than 4 GiB is read back whole, and nothing after it is.
pub recv-frame :
    (body rest : Text) → length body < 2 ^ 32 → recv (frame body ++ rest) ≡ some (body, rest)
recv-frame body rest h =
    let fits : length body % 2 ^ 32 ≡ length body = omega arith in
    recv-read body rest ∙ ap (λ n. read_exact n (body ++ rest)) fits ∙ read_exact-append body rest

pub length-read_exact : (n : ℕ) (input a b : Text) → read_exact n input ≡ some (a, b) → length a ≡ n
unfolding read_exact
length-read_exact n input a b h = elim (Bool-cases (leb n (length input))) [
  | inl fits ↦
      let same : take n input ≡ a = ground arith in
      ap length (sym same) ∙ length-take_of_le n input (leb→le _ _ fits)
  | inr short ↦ absurd (ground arith)
]

-- The length of a message of 4 GiB or more does not fit its header: the client never reads it back.
pub recv-ne-frame :
    (body rest : Text) → 2 ^ 32 ≤ length body → recv (frame body ++ rest) ≢ some (body, rest)
recv-ne-frame body rest h e =
    let n =
      length-read_exact (length body % 2 ^ 32) (body ++ rest) body rest
        (sym (recv-read body rest) ∙ e) in
    absurd (omega arith)
