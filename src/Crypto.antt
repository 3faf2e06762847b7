-- ===== src/Crypto.antt =====
-- The encryption of messages (internal/crypto/crypto.go) over Go's HKDF and AES-GCM, which are an
-- argument. `none` is an error.
pub mod Tests
use lokifix.Prelude.{
  ℕ, zero, suc, ◌+◌, ◌-◌, ◌*◌, ◌/◌, ◌%◌, ◌^◌, ◌≤◌, ◌<◌, ◌≡◌, refl, sym, ap, ap₂, subst, ◌∙◌, ◌≢◌,
  ◌↔◌, ◌⊎◌, inl, inr, Bool, true, false, not, ◌&&◌, ◌||◌, Option, none, some, List, [], ◌∷◌, ◌++◌,
  map, append-nil, append_assoc, arith, ltb, leb, ◌==◌, if◌then◌else◌, ltb→lt, lt→ltb, leb→le,
  ==_iff, Bool-cases, Option-cases, length, get_elem?, length-append, take, drop, replicate,
  length-take, length-drop, length-replicate, take-append-drop, take-append, take_all, take_nil,
  nil_of_length, length-map, All, All-append, Bytes, codes, eq_bytes, eq_bytes_iff, eq_bytes_refl,
  eq_bytes→eq, is_empty, lower, upper, to_lower, to_upper, to_lower_idem, is_space, trim_left,
  trim_right, trim_space, split_on, split, push_left, cut_at, replace_byte, join, show_nat,
  has_prefix, contains, has_prefix_sound, has_prefix_complete, contains_sound, contains_complete,
}

-- `hkdf` is the first 32 bytes of `hkdf.New(sha256.New, secret, salt, info)`; `seal` and `unseal`
-- are `AEAD.Seal` and `AEAD.Open` under a key, with a nonce and no additional data.
pub record Library : Type 0 where
  pub hkdf : Bytes → Bytes → Bytes → Bytes
  pub nonce_size : ℕ
  pub seal : Bytes → Bytes → Bytes → Bytes
  pub unseal : Bytes → Bytes → Bytes → Option Bytes

-- What `AEAD` promises: an opened text is that which was sealed, and what is opened was sealed so.
pub record IsAead (lib : Library) : Type 0 where
  pub unseal-seal : (k n p : Bytes) → lib.unseal k n (lib.seal k n p) ≡ some p
  pub unseal_sound : (k n c p : Bytes) → lib.unseal k n c ≡ some p → c ≡ lib.seal k n p

pub record Cipher : Type 0 where
  pub key : Bytes

unfoldable pub derive_key : Library → Bytes → Option Bytes
derive_key lib secret =
    if is_empty secret
    then none
    else some (lib.hkdf secret (codes "lokifix-e2e-v1") (codes "aes-256-gcm"))

-- AES has keys of 16, 24 and 32 bytes.
unfoldable pub new_cipher : Bytes → Option Cipher
new_cipher key =
    if length key == 16 || length key == 24 || length key == 32
    then some (record { key = key })
    else none

unfoldable pub cipher_of_key : Option Bytes → Option Cipher
unfolding new_cipher
cipher_of_key none = none
cipher_of_key (some key) = new_cipher key

unfoldable pub new_cipher_from_secret : Library → Bytes → Option Cipher
unfolding derive_key cipher_of_key
new_cipher_from_secret lib secret = cipher_of_key (derive_key lib secret)

-- The nonce is read from the random source, which may fail.
unfoldable pub encrypt : Library → Cipher → Option Bytes → Bytes → Option Bytes
encrypt lib c none plaintext = none
encrypt lib c (some nonce) plaintext = some (nonce ++ lib.seal c.key nonce plaintext)

unfoldable pub decrypt : Library → Cipher → Bytes → Option Bytes
decrypt lib c message =
    if ltb (length message) lib.nonce_size
    then none
    else lib.unseal c.key (take lib.nonce_size message) (drop lib.nonce_size message)

take_front : (n : ℕ) (xs ys : Bytes) → length xs ≡ n → take n (xs ++ ys) ≡ xs
take_front zero [] [] h = refl
take_front zero [] (y ∷ ys) h = refl
take_front zero (x ∷ xs) ys h = absurd (omega arith)
take_front (suc n) [] ys h = absurd (omega arith)
take_front (suc n) (x ∷ xs) ys h = ap (λ t. x ∷ t) (take_front n xs ys (omega arith))

drop_front : (n : ℕ) (xs ys : Bytes) → length xs ≡ n → drop n (xs ++ ys) ≡ ys
drop_front zero [] [] h = refl
drop_front zero [] (y ∷ ys) h = refl
drop_front zero (x ∷ xs) ys h = absurd (omega arith)
drop_front (suc n) [] ys h = absurd (omega arith)
drop_front (suc n) (x ∷ xs) ys h = drop_front n xs ys (omega arith)

module _ (lib : Library) (aead : IsAead lib) (c : Cipher) where
  decrypt_encrypted :
      (nonce p : Bytes)
      → length nonce ≡ lib.nonce_size
      → decrypt lib c (nonce ++ lib.seal c.key nonce p) ≡ some p
  unfolding decrypt
  decrypt_encrypted nonce p h =
      let sealed = lib.seal c.key nonce p in
      let long_enough : ltb (length (nonce ++ sealed)) lib.nonce_size ≡ false =
        let all = length-append nonce sealed in ground (arith, all, h) in
      rw
        (
          long_enough,
          take_front lib.nonce_size nonce sealed h,
          drop_front lib.nonce_size nonce sealed h,
        )
        (aead.unseal-seal c.key nonce p)

  decrypt_sound :
      (m p : Bytes)
      → decrypt lib c m ≡ some p
      → (nonce : Bytes) × (length nonce ≡ lib.nonce_size) × (encrypt lib c (some nonce) p ≡ some m)
  unfolding decrypt encrypt
  decrypt_sound m p h = elim (Bool-cases (ltb (length m) lib.nonce_size)) [
    | inl e ↦ absurd (ground (arith, e))
    | inr e ↦
        let n = lib.nonce_size in
        let opened : lib.unseal c.key (take n m) (drop n m) ≡ some p = ground (arith, e) in
        let sealed = aead.unseal_sound c.key (take n m) (drop n m) p opened in
        let size : length (take n m) ≡ n =
          let taken = length-take n m in ground (arith, e, taken) in
        (take n m, size, ap some (ap (λ t. take n m ++ t) (sym sealed) ∙ take-append-drop n m))
  ]

  -- A message is decrypted to a text exactly if it is what the text is encrypted to with some nonce
  -- of the right size: what was sent is read, and nothing else is accepted.
  pub decrypt_iff :
      (m p : Bytes)
      → (decrypt lib c m ≡ some p) ↔ (
          (nonce : Bytes) × (length nonce ≡ lib.nonce_size)
          × (encrypt lib c (some nonce) p ≡ some m))
  unfolding encrypt
  decrypt_iff m p = (
    decrypt_sound m p,
    λ (nonce, size, e). ap (decrypt lib c) (sym (made nonce e)) ∙ decrypt_encrypted nonce p size,
  )
    where
      made :
          (nonce : Bytes)
          → encrypt lib c (some nonce) p ≡ some m
          → nonce ++ lib.seal c.key nonce p ≡ m
      made nonce e = cc e
