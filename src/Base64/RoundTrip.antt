-- ===== src/Base64/RoundTrip.antt =====
-- Decoding undoes encoding, for both encodings.
use lokifix.Prelude.{
  ℕ, ◌+◌, ◌*◌, ◌/◌, ◌%◌, ◌<◌, ◌≡◌, ◌≢◌, refl, Bool, true, false, [], ◌∷◌, some, arith, Bytes, All,
  All-append, ◌==◌, ==_iff, Bool-cases, inl, inr,
}
use lokifix.Base64.{
  char_of, value_of, encode_1, encode_2, encode_3, encode_raw, encode_padded, decode_2, decode_3,
  decode_4, append_all, decode_raw_digits, decode_padded_digits, strip_lines, encode_raw_url,
  decode_raw_url, encode_std, decode_std,
}

abbrev pub IsByte : ℕ → Type 0
IsByte c = c < 256

abbrev pub AreBytes : Bytes → Type 0
AreBytes = All IsByte

value_of-char_of : (url : Bool) (n : ℕ) → n < 64 → value_of url (char_of url n) ≡ some n
unfolding value_of char_of
value_of-char_of true n h = ground arith
value_of-char_of false n h = ground arith

-- No digit is a line end or the padding sign.
abbrev IsPlain : ℕ → Type 0
IsPlain c = (c ≢ 10) × (c ≢ 13) × (c ≢ b'=')

char_of-IsPlain : (url : Bool) (n : ℕ) → n < 64 → IsPlain (char_of url n)
unfolding char_of
char_of-IsPlain true n h = ground arith
char_of-IsPlain false n h = ground arith

module _ (url : Bool) where
  decode_2-char_of :
      (a : ℕ)
      → IsByte a
      → decode_2 url (char_of url (a / 4)) (char_of url (a % 4 * 16)) ≡ some (a ∷ [])
  unfolding decode_2
  decode_2-char_of a h =
      ground (arith, value_of-char_of url (a / 4), value_of-char_of url (a % 4 * 16))

  decode_3-char_of :
      (a b : ℕ)
      → IsByte a
      → IsByte b
      → decode_3 url
          (char_of url (a / 4))
          (char_of url (a % 4 * 16 + b / 16))
          (char_of url (b % 16 * 4))
        ≡ some (a ∷ b ∷ [])
  unfolding decode_3
  decode_3-char_of a b h k = ground (
    arith,
    value_of-char_of url (a / 4),
    value_of-char_of url (a % 4 * 16 + b / 16),
    value_of-char_of url (b % 16 * 4),
  )

  decode_4-char_of :
      (a b c : ℕ)
      → IsByte a
      → IsByte b
      → IsByte c
      → decode_4 url
          (char_of url (a / 4))
          (char_of url (a % 4 * 16 + b / 16))
          (char_of url (b % 16 * 4 + c / 64))
          (char_of url (c % 64))
        ≡ some (a ∷ b ∷ c ∷ [])
  unfolding decode_4
  decode_4-char_of a b c h k l = ground (
    arith,
    value_of-char_of url (a / 4),
    value_of-char_of url (a % 4 * 16 + b / 16),
    value_of-char_of url (b % 16 * 4 + c / 64),
    value_of-char_of url (c % 64),
  )

  decode_raw_digits-encode_raw :
      (s : Bytes) → AreBytes s → decode_raw_digits url (encode_raw url s) ≡ some s
  unfolding decode_raw_digits encode_raw
  decode_raw_digits-encode_raw [] h = refl
  decode_raw_digits-encode_raw (a ∷ []) h = decode_2-char_of a h.0
  decode_raw_digits-encode_raw (a ∷ b ∷ []) h = decode_3-char_of a b h.0 h.1.0
  decode_raw_digits-encode_raw (a ∷ b ∷ c ∷ s) h =
      ground (arith, decode_4-char_of a b c, decode_raw_digits-encode_raw s)

  decode_padded_digits_step :
      (x y z w : ℕ) (s : Bytes)
      → w ≢ b'='
      → decode_padded_digits url (x ∷ y ∷ z ∷ w ∷ s)
        ≡ append_all (decode_4 url x y z w) (decode_padded_digits url s)
  unfolding decode_padded_digits
  decode_padded_digits_step x y z w s h = ground arith

  decode_padded_digits_end :
      (x y z : ℕ) → z ≢ b'=' → decode_padded_digits url (x ∷ y ∷ z ∷ b'=' ∷ []) ≡ decode_3 url x y z
  unfolding decode_padded_digits
  decode_padded_digits_end x y z h = elim (Bool-cases (z == b'=')) [
    | inl e ↦ absurd (h ((==_iff z b'=').0 e))
    | inr e ↦ rw e
  ]

  decode_padded_digits-encode_padded :
      (s : Bytes) → AreBytes s → decode_padded_digits url (encode_padded url s) ≡ some s
  unfolding encode_padded
  decode_padded_digits-encode_padded [] h = unfold decode_padded_digits in refl
  decode_padded_digits-encode_padded (a ∷ []) h =
      unfold decode_padded_digits in decode_2-char_of a h.0
  decode_padded_digits-encode_padded (a ∷ b ∷ []) h =
      rw (decode_padded_digits_end _ _ _ (char_of-IsPlain url (b % 16 * 4) (omega arith)).2)
        (decode_3-char_of a b h.0 h.1.0)
  decode_padded_digits-encode_padded (a ∷ b ∷ c ∷ s) h =
      rw
        (
          decode_padded_digits_step _ _ _ _ _ (char_of-IsPlain url (c % 64) (omega arith)).2,
          decode_4-char_of a b c h.0 h.1.0 h.1.1.0,
          decode_padded_digits-encode_padded s h.1.1.1,
        )
        (unfold append_all in refl)

abbrev NoLineEnd : ℕ → Type 0
NoLineEnd c = (c ≢ 10) × (c ≢ 13)

strip_lines_id : (s : Bytes) → All NoLineEnd s → strip_lines s ≡ s
unfolding strip_lines
strip_lines_id [] h = refl
strip_lines_id (c ∷ s) h = ground (arith, strip_lines_id s)

-- What holds of every digit holds of every byte of an encoded text.
module _ (url : Bool) (P : ℕ → Type 0) (plain : (n : ℕ) → n < 64 → P (char_of url n)) where
  encode_3-All : (a b c : ℕ) → IsByte a → IsByte b → IsByte c → All P (encode_3 url a b c)
  unfolding encode_3
  encode_3-All a b c h k l = (
    plain (a / 4) (omega arith),
    (
      plain (a % 4 * 16 + b / 16) (omega arith),
      (plain (b % 16 * 4 + c / 64) (omega arith), (plain (c % 64) (omega arith), tt)),
    ),
  )

  encode_2-All : (a b : ℕ) → IsByte a → IsByte b → All P (encode_2 url a b)
  unfolding encode_2
  encode_2-All a b h k = (
    plain (a / 4) (omega arith),
    (plain (a % 4 * 16 + b / 16) (omega arith), (plain (b % 16 * 4) (omega arith), tt)),
  )

  encode_1-All : (a : ℕ) → IsByte a → All P (encode_1 url a)
  unfolding encode_1
  encode_1-All a h = (plain (a / 4) (omega arith), (plain (a % 4 * 16) (omega arith), tt))

  pub encode_raw-All : (s : Bytes) → AreBytes s → All P (encode_raw url s)
  unfolding encode_raw
  encode_raw-All [] h = tt
  encode_raw-All (a ∷ []) h = encode_1-All a h.0
  encode_raw-All (a ∷ b ∷ []) h = encode_2-All a b h.0 h.1.0
  encode_raw-All (a ∷ b ∷ c ∷ s) h =
      All-append P (encode_3 url a b c) _ (encode_3-All a b c h.0 h.1.0 h.1.1.0)
        (encode_raw-All s h.1.1.1)

  pub encode_padded-All : P b'=' → (s : Bytes) → AreBytes s → All P (encode_padded url s)
  unfolding encode_padded
  encode_padded-All pad [] h = tt
  encode_padded-All pad (a ∷ []) h =
      All-append P (encode_1 url a) (b'=' ∷ b'=' ∷ []) (encode_1-All a h.0) (pad, (pad, tt))
  encode_padded-All pad (a ∷ b ∷ []) h =
      All-append P (encode_2 url a b) (b'=' ∷ []) (encode_2-All a b h.0 h.1.0) (pad, tt)
  encode_padded-All pad (a ∷ b ∷ c ∷ s) h =
      All-append P (encode_3 url a b c) _ (encode_3-All a b c h.0 h.1.0 h.1.1.0)
        (encode_padded-All pad s h.1.1.1)

char_of-NoLineEnd : (url : Bool) (n : ℕ) → n < 64 → NoLineEnd (char_of url n)
char_of-NoLineEnd url n h = let p = char_of-IsPlain url n h in (p.0, p.1)

pub encode_raw_url-All :
    (P : ℕ → Type 0)
    → ((n : ℕ) → n < 64 → P (char_of true n))
    → (s : Bytes) → AreBytes s
    → All P (encode_raw_url s)
unfolding encode_raw_url
encode_raw_url-All P h = encode_raw-All true P h

pub decode_raw_url-encode_raw_url :
    (s : Bytes) → AreBytes s → decode_raw_url (encode_raw_url s) ≡ some s
unfolding decode_raw_url encode_raw_url
decode_raw_url-encode_raw_url s h =
    rw (strip_lines_id _ (encode_raw-All true NoLineEnd (char_of-NoLineEnd true) s h))
      (decode_raw_digits-encode_raw true s h)

pub decode_std-encode_std : (s : Bytes) → AreBytes s → decode_std (encode_std s) ≡ some s
unfolding decode_std encode_std
decode_std-encode_std s h =
    rw
      (strip_lines_id _
        (encode_padded-All false NoLineEnd (char_of-NoLineEnd false) (omega arith) s h))
      (decode_padded_digits-encode_padded false s h)
