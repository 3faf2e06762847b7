-- ===== src/Auth/Alphabet.antt =====
-- The text of a connection code: its length, its alphabet, and that no letter is likelier.
use lokifix.Auth.{code_chars, code_char, generate_code_text}
use lokifix.Prelude.{
  ℕ, zero, suc, ◌+◌, ◌<◌, ◌≡◌, refl, Bool, true, false, not, ◌&&◌, ◌||◌, some, [], ◌∷◌, map, arith,
  leb, ◌==◌, ==_iff, Bool-cases, inl, inr, if◌then◌else◌, length, length-map, All, Bytes,
}

-- An upper-case letter or a digit, and none that is easily mistaken for another.
unfoldable pub is_clear : ℕ → Bool
is_clear c =
    ((leb b'A' c && leb c b'Z') || (leb b'0' c && leb c b'9'))
    && not (c == b'0' || c == b'O' || c == b'1' || c == b'I')

-- A test that every number below a limit passes.
passes : (ℕ → Bool) → ℕ → Bool
passes test zero = true
passes test (suc limit) = if test limit then passes test limit else false

passes_each : (test : ℕ → Bool) (c limit : ℕ) → passes test limit ≡ true → c < limit → test c ≡ true
unfolding passes
passes_each test c zero all below = absurd (omega arith)
passes_each test c (suc limit) all below =
    let earlier = passes_each test c limit in
    elim (Bool-cases (c == limit)) [
      | inl e ↦ ground (arith, ==_iff c limit, Bool-cases (test limit))
      | inr e ↦ ground (arith, ==_iff c limit, earlier)
    ]

code_char_table : passes (λ b. is_clear (code_char b)) 256 ≡ true
unfolding passes is_clear code_char
code_char_table = refl

-- How many of the bytes below `n` are turned into the letter `c`.
unfoldable pub preimages : ℕ → ℕ → ℕ
unfolding code_char
preimages zero c = 0
preimages (suc n) c = (if code_char n == c then 1 else 0) + preimages n c

map-is_clear : (b : Bytes) → All (λ x. x < 256) b → All (λ c. is_clear c ≡ true) (map code_char b)
map-is_clear [] h = tt
map-is_clear (x ∷ b) h =
    (passes_each (λ y. is_clear (code_char y)) x 256 code_char_table h.0, map-is_clear b h.1)

-- The text made of random bytes has as many letters, each clear to read; none of the alphabet's
-- letters is likelier than another, since each stands for eight of the 256 bytes.
pub generate_code_text_clear :
    (b : Bytes)
    → All (λ x. x < 256) b
    → (text : Bytes) × (generate_code_text (some b) ≡ some text)
      × (length text ≡ length b)
      × All (λ c. (is_clear c ≡ true)) text
      × All (λ c. preimages 256 c ≡ 8) code_chars
unfolding generate_code_text preimages
generate_code_text_clear b h =
    (map code_char b, refl, length-map b code_char, map-is_clear b h, omega arith)
