-- ===== src/Auth/Plain.antt =====
-- The connection strings that the program makes: an ASCII address and a token of digits.
use lokifix.Base64.{char_of, encode_raw, encode_1, encode_2, encode_3, encode_raw_url}
use lokifix.Base64.RoundTrip.{AreBytes, encode_raw_url-All}
use lokifix.Auth.Info.{
  ok, pipe, Lacks, encode_connection_info, decode_connection_info, decode-encode,
}
use lokifix.Prelude.{
  ℕ, ◌+◌, ◌*◌, ◌/◌, ◌%◌, ◌<◌, ◌≡◌, ◌≢◌, true, [], ◌∷◌, ◌++◌, arith, All, All-append, Bytes,
}

-- ASCII, and neither `>` nor `~`, whose last six bits are those of a dash.
abbrev pub IsPlain : ℕ → Type 0
IsPlain c = (c < 128) × (c ≢ b'>') × (c ≢ b'~')

digit_Lacks : (n : ℕ) → n < 64 → n ≢ 62 → char_of true n ≢ b'-'
unfolding char_of
digit_Lacks n h k = ground arith

encode_raw-Lacks : (s : Bytes) → All IsPlain s → Lacks b'-' (encode_raw true s)
unfolding encode_raw encode_1 encode_2 encode_3
encode_raw-Lacks [] h = tt
encode_raw-Lacks (a ∷ []) h = (
  digit_Lacks (a / 4) (omega arith) (omega arith),
  (digit_Lacks (a % 4 * 16) (omega arith) (omega arith), tt),
)
encode_raw-Lacks (a ∷ b ∷ []) h = (
  digit_Lacks (a / 4) (omega arith) (omega arith),
  (
    digit_Lacks (a % 4 * 16 + b / 16) (omega arith) (omega arith),
    (digit_Lacks (b % 16 * 4) (omega arith) (omega arith), tt),
  ),
)
encode_raw-Lacks (a ∷ b ∷ c ∷ s) h = (
  digit_Lacks (a / 4) (omega arith) (omega arith),
  (
    digit_Lacks (a % 4 * 16 + b / 16) (omega arith) (omega arith),
    (
      digit_Lacks (b % 16 * 4 + c / 64) (omega arith) (omega arith),
      (digit_Lacks (c % 64) (omega arith) (omega arith), encode_raw-Lacks s h.1.1.1),
    ),
  ),
)

char_of-IsPlain : (n : ℕ) → n < 64 → IsPlain (char_of true n)
unfolding char_of
char_of-IsPlain n h = (ground arith, ground arith, ground arith)

plain_bytes : (s : Bytes) → All IsPlain s → AreBytes s
plain_bytes [] h = tt
plain_bytes (c ∷ s) h = (omega arith, plain_bytes s h.1)

-- For an ASCII address without `|`, `>` and `~`, and a token made of any random bytes, the agent
-- reads from the connection string the address and the token that it was made of.
pub decode-encode_token :
    (server_url random : Bytes)
    → All IsPlain server_url
    → Lacks pipe server_url
    → AreBytes random
    → decode_connection_info (encode_connection_info server_url (encode_raw_url random))
      ≡ ok server_url (encode_raw_url random)
decode-encode_token u random plain no_pipe bytes =
    let token = encode_raw_url random in
    let whole = All-append IsPlain u (pipe ∷ token) plain (
      (omega arith, omega arith, omega arith),
      encode_raw_url-All IsPlain char_of-IsPlain random bytes,
    ) in
    decode-encode u token (plain_bytes (u ++ pipe ∷ token) whole) no_pipe
      (unfold encode_connection_info encode_raw_url in encode_raw-Lacks (u ++ pipe ∷ token) whole)
