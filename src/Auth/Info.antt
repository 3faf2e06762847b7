-- ===== src/Auth/Info.antt =====
-- The connection string: `EncodeConnectionInfo` and `DecodeConnectionInfo`. The decoder removes
-- spaces and dashes, but a dash is a digit of the URL alphabet, so that a code with a dash is lost.
use lokifix.Base64.{encode_raw_url, decode_raw_url, char_of}
use lokifix.Base64.RoundTrip.{AreBytes, decode_raw_url-encode_raw_url, encode_raw_url-All}
use lokifix.Prelude.{
  ℕ, ◌<◌, ◌≡◌, refl, ap, ◌≢◌, true, Option, none, some, [], ◌∷◌, ◌++◌, arith, All, Bytes, cut_at,
  replace_byte,
}

pub data DecodeError : Type 0 where
  invalid_code malformed_code : DecodeError

pub data Decoded : Type 0 where
  ok : Bytes → Bytes → Decoded
  err : DecodeError → Decoded

abbrev pub pipe : ℕ
pipe = b'|'

unfoldable pub encode_connection_info : Bytes → Bytes → Bytes
encode_connection_info server_url token = encode_raw_url (server_url ++ pipe ∷ token)

abbrev pub cleaned : Bytes → Bytes
cleaned s = replace_byte b'-' [] (replace_byte 32 [] s)

unfoldable pub split_info : Option (Bytes × Bytes) → Decoded
split_info none = err malformed_code
split_info (some (u, t)) = ok u t

-- What is done with the decoded bytes.
unfoldable pub read_info : Option Bytes → Decoded
unfolding split_info
read_info none = err invalid_code
read_info (some raw) = split_info (cut_at pipe raw)

unfoldable pub decode_connection_info : Bytes → Decoded
unfolding read_info
decode_connection_info s = read_info (decode_raw_url (cleaned s))

abbrev pub Lacks : ℕ → Bytes → Type 0
Lacks b = All (λ c. c ≢ b)

replace_byte-Lacks : (c : ℕ) (s : Bytes) → Lacks c s → replace_byte c [] s ≡ s
unfolding replace_byte
replace_byte-Lacks c [] h = refl
replace_byte-Lacks c (x ∷ s) h = ground (arith, replace_byte-Lacks c s)

cut_at-Lacks : (c : ℕ) (a b : Bytes) → Lacks c a → cut_at c (a ++ c ∷ b) ≡ some (a, b)
unfolding cut_at
cut_at-Lacks c [] b h = ground arith
cut_at-Lacks c (x ∷ a) b h = ground (arith, cut_at-Lacks c a b)

char_of_ne_space : (n : ℕ) → n < 64 → char_of true n ≢ 32
unfolding char_of
char_of_ne_space n h = ground arith

-- A code has no spaces, so that cleaning takes away its dashes only.
pub cleaned-encode :
    (server_url token : Bytes)
    → AreBytes (server_url ++ pipe ∷ token)
    → cleaned (encode_connection_info server_url token)
      ≡ replace_byte b'-' [] (encode_connection_info server_url token)
unfolding encode_connection_info
cleaned-encode u t bytes =
    let raw = u ++ pipe ∷ t in
    let no_space = encode_raw_url-All (λ c. c ≢ 32) char_of_ne_space raw bytes in
    ap (replace_byte b'-' []) (replace_byte-Lacks 32 (encode_raw_url raw) no_space)

-- A connection code with no dash in it is decoded to the URL and the token that it was made of.
pub decode-encode :
    (server_url token : Bytes)
    → AreBytes (server_url ++ pipe ∷ token)
    → Lacks pipe server_url
    → Lacks b'-' (encode_connection_info server_url token)
    → decode_connection_info (encode_connection_info server_url token) ≡ ok server_url token
unfolding decode_connection_info
decode-encode u t bytes no_pipe no_dash =
    let raw = u ++ pipe ∷ t in
    rw (cleaned-encode u t bytes, replace_byte-Lacks b'-' _ no_dash)
      (unfold encode_connection_info in
        rw (decode_raw_url-encode_raw_url raw bytes, cut_at-Lacks pipe u t no_pipe))
