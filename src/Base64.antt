-- ===== src/Base64.antt =====
-- The encodings of `encoding/base64` that the program uses: `RawURLEncoding` (the URL alphabet with
-- no padding: tokens and connection codes, internal/auth/auth.go) and `StdEncoding` (the standard
-- alphabet with padding: file contents, internal/fileops/fileops.go and internal/mcp/server.go).
pub mod RoundTrip
use lokifix.Prelude.{
  ℕ, ◌+◌, ◌-◌, ◌*◌, ◌/◌, ◌%◌, ◌≡◌, refl, Bool, true, false, ◌&&◌, ◌||◌, List, [], ◌∷◌, ◌++◌, Option,
  none, some, Bytes, codes, leb, ltb, ◌==◌, if◌then◌else◌, is_empty,
}

-- The digit for a value below 64; `url` selects the URL alphabet.
unfoldable pub char_of : Bool → ℕ → ℕ
char_of url n =
    if ltb n 26
    then n + 65
    else if ltb n 52
    then n + 71
    else if ltb n 62
    then n - 4
    else if n == 62
    then (if url then b'-' else b'+')
    else (if url then b'_' else b'/')

-- The value of a digit.
unfoldable pub value_of : Bool → ℕ → Option ℕ
value_of url c =
    if leb 65 c && leb c 90
    then some (c - 65)
    else if leb 97 c && leb c 122
    then some (c - 71)
    else if leb 48 c && leb c 57
    then some (c + 4)
    else if c == (if url then b'-' else b'+')
    then some 62
    else if c == (if url then b'_' else b'/')
    then some 63
    else none

-- Two, three and four digits for one, two and three bytes.
unfoldable pub encode_1 : Bool → ℕ → Bytes
encode_1 url a = char_of url (a / 4) ∷ char_of url (a % 4 * 16) ∷ []

unfoldable pub encode_2 : Bool → ℕ → ℕ → Bytes
encode_2 url a b =
    char_of url (a / 4) ∷ char_of url (a % 4 * 16 + b / 16) ∷ char_of url (b % 16 * 4) ∷ []

unfoldable pub encode_3 : Bool → ℕ → ℕ → ℕ → Bytes
encode_3 url a b c =
    char_of url (a / 4)
    ∷ char_of url (a % 4 * 16 + b / 16)
    ∷ char_of url (b % 16 * 4 + c / 64)
    ∷ char_of url (c % 64)
    ∷ []

unfoldable pub encode_raw : Bool → Bytes → Bytes
unfolding encode_1 encode_2 encode_3 char_of
encode_raw url [] = []
encode_raw url (a ∷ []) = encode_1 url a
encode_raw url (a ∷ b ∷ []) = encode_2 url a b
encode_raw url (a ∷ b ∷ c ∷ s) = encode_3 url a b c ++ encode_raw url s

abbrev equals_sign : ℕ
equals_sign = b'='

unfoldable pub encode_padded : Bool → Bytes → Bytes
unfolding encode_1 encode_2 encode_3 char_of
encode_padded url [] = []
encode_padded url (a ∷ []) = encode_1 url a ++ equals_sign ∷ equals_sign ∷ []
encode_padded url (a ∷ b ∷ []) = encode_2 url a b ++ equals_sign ∷ []
encode_padded url (a ∷ b ∷ c ∷ s) = encode_3 url a b c ++ encode_padded url s

infixl 5 ◌>>=◌
abbrev ◌>>=◌ {ℓ κ} : {A : Type ℓ} {B : Type κ} → Option A → (A → Option B) → Option B
none >>= f = none
some a >>= f = f a

-- The bytes of two, three and four digits. Bits that are left over are dropped, as Go does outside
-- its strict mode.
unfoldable pub decode_2 : Bool → ℕ → ℕ → Option Bytes
decode_2 url x y = do a ← value_of url x; b ← value_of url y; some ((a * 4 + b / 16) ∷ [])

unfoldable pub decode_3 : Bool → ℕ → ℕ → ℕ → Option Bytes
decode_3 url x y z = do
  a ← value_of url x
  b ← value_of url y
  c ← value_of url z
  some ((a * 4 + b / 16) ∷ (b % 16 * 16 + c / 4) ∷ [])

unfoldable pub decode_4 : Bool → ℕ → ℕ → ℕ → ℕ → Option Bytes
decode_4 url x y z w = do
  a ← value_of url x
  b ← value_of url y
  c ← value_of url z
  d ← value_of url w
  some ((a * 4 + b / 16) ∷ (b % 16 * 16 + c / 4) ∷ (c % 4 * 64 + d) ∷ [])

unfoldable pub append_all : Option Bytes → Option Bytes → Option Bytes
append_all p q = do a ← p; b ← q; some (a ++ b)

unfoldable pub decode_raw_digits : Bool → Bytes → Option Bytes
unfolding decode_2 decode_3 decode_4 append_all value_of
decode_raw_digits url [] = some []
decode_raw_digits url (x ∷ []) = none
decode_raw_digits url (x ∷ y ∷ []) = decode_2 url x y
decode_raw_digits url (x ∷ y ∷ z ∷ []) = decode_3 url x y z
decode_raw_digits url (x ∷ y ∷ z ∷ w ∷ s) =
    append_all (decode_4 url x y z w) (decode_raw_digits url s)

unfoldable pub decode_padded_digits : Bool → Bytes → Option Bytes
unfolding decode_2 decode_3 decode_4 append_all value_of
decode_padded_digits url [] = some []
decode_padded_digits url (x ∷ []) = none
decode_padded_digits url (x ∷ y ∷ []) = none
decode_padded_digits url (x ∷ y ∷ z ∷ []) = none
decode_padded_digits url (x ∷ y ∷ z ∷ w ∷ s) =
    let more = append_all (decode_4 url x y z w) (decode_padded_digits url s) in
    if w == equals_sign && is_empty s
    then (if z == equals_sign then decode_2 url x y else decode_3 url x y z)
    else more

-- Line ends are skipped wherever they stand.
unfoldable pub strip_lines : Bytes → Bytes
strip_lines [] = []
strip_lines (c ∷ s) = if c == 10 || c == 13 then strip_lines s else c ∷ strip_lines s

-- `base64.RawURLEncoding.EncodeToString` and `DecodeString`.
unfoldable pub encode_raw_url : Bytes → Bytes
unfolding encode_raw
encode_raw_url = encode_raw true

unfoldable pub decode_raw_url : Bytes → Option Bytes
unfolding strip_lines decode_raw_digits
decode_raw_url s = decode_raw_digits true (strip_lines s)

-- `base64.StdEncoding.EncodeToString` and `DecodeString`.
unfoldable pub encode_std : Bytes → Bytes
unfolding encode_padded
encode_std = encode_padded false

unfoldable pub decode_std : Bytes → Option Bytes
unfolding strip_lines decode_padded_digits
decode_std s = decode_padded_digits false (strip_lines s)
