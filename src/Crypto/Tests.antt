-- ===== src/Crypto/Tests.antt =====
-- A small cipher that keeps the promises, as a case of what is proved about messages.
use lokifix.Crypto.{Library, IsAead, decrypt, encrypt, decrypt_iff}
use lokifix.Prelude.{
  ◌≡◌, refl, ◌↔◌, inl, inr, Option, none, some, [], ◌∷◌, arith, ◌==◌, if◌then◌else◌, ==_iff,
  Bool-cases, length, replicate, Bytes, codes,
}

-- A marked text counts as sealed.
abbrev pub unmark : Bytes → Option Bytes
unmark [] = none
unmark (c ∷ s) = if c == 7 then some s else none

abbrev pub marking : Library
marking = record {
  hkdf = λ secret salt info. replicate 32 0;
  nonce_size = 2;
  seal = λ k n p. 7 ∷ p;
  unseal = λ k n c. unmark c;
}

unmark_sound : (c p : Bytes) → unmark c ≡ some p → c ≡ 7 ∷ p
unmark_sound [] p h = cc h
unmark_sound (c ∷ s) p h = elim (Bool-cases (c == 7)) [
  | inl e ↦ ground (arith, e, ==_iff c 7)
  | inr e ↦ absurd (ground (arith, e))
]

pub marking-IsAead : IsAead marking
marking-IsAead = record {
  unseal-seal = λ k n p. refl;
  unseal_sound = λ k n c p h. unmark_sound c p h;
}

decrypt_iff_example :
    (decrypt marking (record { key = [] }) (1 ∷ 2 ∷ 7 ∷ codes "hi") ≡ some (codes "hi")) ↔ (
      (nonce : Bytes) × (length nonce ≡ 2)
      × (encrypt marking (record { key = [] }) (some nonce) (codes "hi")
          ≡ some (1 ∷ 2 ∷ 7 ∷ codes "hi")))
decrypt_iff_example =
    decrypt_iff marking marking-IsAead (record { key = [] }) (1 ∷ 2 ∷ 7 ∷ codes "hi") (codes "hi")
