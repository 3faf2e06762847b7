-- ===== src/Auth/Dash.antt =====
-- A connection code that has a dash among its digits never decodes to what it was made of: the
-- decoder removes the dash, and the shorter text stands for fewer bytes.
use lokifix.Base64.{
  encode_raw_url, decode_raw_url, encode_raw, encode_1, encode_2, encode_3, decode_raw_digits,
  decode_2, decode_3, decode_4, append_all, strip_lines,
}
use lokifix.Base64.RoundTrip.{AreBytes}
use lokifix.Auth.Info.{
  ok, pipe, read_info, split_info, Lacks, encode_connection_info, decode_connection_info,
  decode-encode, cleaned-encode,
}
use lokifix.Prelude.{
  ℕ, suc, ◌+◌, ◌*◌, ◌≤◌, ◌<◌, ◌≡◌, ◌≢◌, ◌↔◌, ◌⊎◌, inl, inr, Bool, true, Option, none, some, [], ◌∷◌,
  ◌++◌, arith, ◌==◌, Bool-cases, length, length-append, Bytes, push_left, cut_at, replace_byte,
}

length-replace_byte : (c : ℕ) (s : Bytes) → length (replace_byte c [] s) ≤ length s
unfolding replace_byte
length-replace_byte c [] = omega arith
length-replace_byte c (x ∷ s) = ground (arith, length-replace_byte c s)

Lacks-cases : (c : ℕ) (s : Bytes) → Lacks c s ⊎ (length (replace_byte c [] s) < length s)
unfolding replace_byte
Lacks-cases c [] = inl tt
Lacks-cases c (x ∷ s) = elim (Bool-cases (x == c)) [
  | inl e ↦ inr (rw e (omega (arith, length-replace_byte c s)))
  | inr e ↦ elim (Lacks-cases c s) [
    | inl none_left ↦ inl (ground arith, none_left)
    | inr shorter ↦ inr (rw e (omega arith))
  ]
]

length-strip_lines : (s : Bytes) → length (strip_lines s) ≤ length s
unfolding strip_lines
length-strip_lines [] = omega arith
length-strip_lines (x ∷ s) = ground (arith, length-strip_lines s)

module _ (url : Bool) where
  length-encode_raw : (s : Bytes) → 3 * length (encode_raw url s) ≤ 4 * length s + 2
  unfolding encode_raw encode_1 encode_2 encode_3
  length-encode_raw [] = omega arith
  length-encode_raw (a ∷ []) = omega arith
  length-encode_raw (a ∷ b ∷ []) = omega arith
  length-encode_raw (a ∷ b ∷ c ∷ s) = omega (arith, length-encode_raw s)

  -- The bytes of an optional result, where there is one.
  abbrev Fits : ℕ → Option Bytes → Type 0
  Fits n none = Unit
  Fits n (some out) = 4 * length out ≤ n

  decode_2-Fits : (x y : ℕ) → Fits 6 (decode_2 url x y)
  unfolding decode_2
  decode_2-Fits x y = grind arith

  decode_3-Fits : (x y z : ℕ) → Fits 9 (decode_3 url x y z)
  unfolding decode_3
  decode_3-Fits x y z = grind arith

  decode_4-Fits : (x y z w : ℕ) → Fits 12 (decode_4 url x y z w)
  unfolding decode_4
  decode_4-Fits x y z w = grind arith

  append_all-Fits :
      (m n : ℕ) (p q : Option Bytes) → Fits m p → Fits n q → Fits (m + n) (append_all p q)
  unfolding append_all
  append_all-Fits m n none q h k = tt
  append_all-Fits m n (some a) none h k = tt
  append_all-Fits m n (some a) (some b) h k = omega (arith, length-append a b)

  Fits-le : (m n : ℕ) (p : Option Bytes) → m ≤ n → Fits m p → Fits n p
  Fits-le m n none h k = tt
  Fits-le m n (some a) h k = omega arith

  decode_raw_digits-Fits : (s : Bytes) → Fits (3 * length s) (decode_raw_digits url s)
  unfolding decode_raw_digits
  decode_raw_digits-Fits [] = omega arith
  decode_raw_digits-Fits (x ∷ []) = tt
  decode_raw_digits-Fits (x ∷ y ∷ []) = decode_2-Fits x y
  decode_raw_digits-Fits (x ∷ y ∷ z ∷ []) = decode_3-Fits x y z
  decode_raw_digits-Fits (x ∷ y ∷ z ∷ w ∷ s) =
      Fits-le (12 + 3 * length s) (3 * length (x ∷ y ∷ z ∷ w ∷ s)) _ (omega arith)
        (append_all-Fits 12 (3 * length s) _ _ (decode_4-Fits x y z w) (decode_raw_digits-Fits s))

decode_raw_url-Fits : (s : Bytes) → Fits true (3 * length s) (decode_raw_url s)
unfolding decode_raw_url
decode_raw_url-Fits s =
    Fits-le true (3 * length (strip_lines s)) (3 * length s) _ (omega (arith, length-strip_lines s))
      (decode_raw_digits-Fits true (strip_lines s))

-- What an accepted code is cut into has all the bytes but the separator.
push_left-eq-some :
    (x : ℕ) (o : Option (Bytes × Bytes)) {a b : Bytes}
    → push_left x o ≡ some (a, b)
    → (a' : Bytes) × (o ≡ some (a', b)) × (a ≡ x ∷ a')
unfolding push_left
push_left-eq-some x none h = cc
push_left-eq-some x (some (a', b')) h = (a', ground arith, ground arith)

first_part :
    (s : Bytes) {a b : Bytes}
    → ◌≡◌ {A = Option (Bytes × Bytes)} (some ([], s)) (some (a, b))
    → suc (length s) ≡ length a + length b + 1
first_part s h = ground arith

length-cut_at :
    (s : Bytes) {a b : Bytes} → cut_at pipe s ≡ some (a, b) → length s ≡ length a + length b + 1
unfolding cut_at
length-cut_at [] h = cc
length-cut_at (x ∷ s) {a} {b} h = elim (Bool-cases (x == pipe)) [
  | inl e ↦ first_part s (rw e at h)
  | inr e ↦
      let (a', found, whole) = push_left-eq-some x (cut_at pipe s) (rw e at h) in
      rw whole (omega (arith, length-cut_at s found))
]

length-split_info :
    (o : Option (Bytes × Bytes)) {u t : Bytes} → split_info o ≡ ok u t → o ≡ some (u, t)
unfolding split_info
length-split_info none h = cc
length-split_info (some (a, b)) h = ground arith

length-read_info :
    (n : ℕ) (o : Option Bytes) (u t : Bytes)
    → Fits true n o
    → read_info o ≡ ok u t
    → 4 * (length u + length t + 1) ≤ n
unfolding read_info
length-read_info n none u t f h = cc
length-read_info n (some raw) u t f h =
    omega (arith, length-cut_at raw (length-split_info (cut_at pipe raw) h))

dash_lost :
    (u t : Bytes)
    → AreBytes (u ++ pipe ∷ t)
    → length (replace_byte b'-' [] (encode_connection_info u t))
      < length (encode_connection_info u t)
    → decode_connection_info (encode_connection_info u t) ≢ ok u t
unfolding decode_connection_info encode_connection_info encode_raw_url
dash_lost u t bytes shorter e =
    let raw = u ++ pipe ∷ t in
    let kept = replace_byte b'-' [] (encode_raw true raw) in
    let read : read_info (decode_raw_url kept) ≡ ok u t = rw (cleaned-encode u t bytes) at e in
    omega (
      arith,
      length-read_info (3 * length kept) (decode_raw_url kept) u t (decode_raw_url-Fits kept) read,
      length-encode_raw true raw,
      length-append u (pipe ∷ t),
    )

-- A connection code is decoded to what it was made of exactly if it has no dash in it.
pub decode-encode_iff :
    (server_url token : Bytes)
    → AreBytes (server_url ++ pipe ∷ token)
    → Lacks pipe server_url
    → (decode_connection_info (encode_connection_info server_url token) ≡ ok server_url token)
      ↔ Lacks b'-' (encode_connection_info server_url token)
decode-encode_iff u t bytes no_pipe = (
  λ e. elim (Lacks-cases b'-' (encode_connection_info u t)) [
    | inl h ↦ h
    | inr shorter ↦ absurd (dash_lost u t bytes shorter e)
  ],
  decode-encode u t bytes no_pipe,
)
