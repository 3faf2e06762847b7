-- ===== src/Prelude/Text.antt =====
-- Go strings as lists of bytes, and the functions of `strings` and `strconv` that the program
-- calls on them. The texts that the program compares and splits are ASCII.
use Prim.Native.Char.{code}
use Prim.Native.Nat.{ℕ, zero, suc, ◌+◌, ◌-◌, ◌/◌, ◌%◌}
use Prim.Native.String.{String}
use mathlib.Core.Path.{◌≡◌, refl, ap}
use mathlib.Core.Logic.{◌↔◌}
use mathlib.Core.Bool.{Bool, true, false, not, ◌&&◌, ◌||◌}
use mathlib.Core.List.{List, [], ◌∷◌, ◌++◌, map}
use mathlib.Core.Option.{Option, none, some}
use native.Mathlib.Omega.{arith}
use lokifix.Prelude.Tests.{leb, ltb, ◌==◌, if◌then◌else◌}

abbrev pub Bytes : Type 0
Bytes = List ℕ

-- The bytes of an ASCII literal.
abbrev pub codes : String → Bytes
codes String.[] = []
codes (String.◌∷◌ c s) = code c ∷ codes s

-- `a == b` on strings.
unfoldable pub eq_bytes : Bytes → Bytes → Bool
eq_bytes [] [] = true
eq_bytes [] (y ∷ ys) = false
eq_bytes (x ∷ xs) [] = false
eq_bytes (x ∷ xs) (y ∷ ys) = x == y && eq_bytes xs ys

pub eq_bytes→eq : (xs ys : Bytes) → eq_bytes xs ys ≡ true → xs ≡ ys
unfolding eq_bytes
eq_bytes→eq [] [] h = refl
eq_bytes→eq [] (y ∷ ys) h = cc
eq_bytes→eq (x ∷ xs) [] h = cc
eq_bytes→eq (x ∷ xs) (y ∷ ys) h = ground (arith, eq_bytes→eq xs ys)

pub eq_bytes_refl : (xs : Bytes) → eq_bytes xs xs ≡ true
unfolding eq_bytes
eq_bytes_refl [] = refl
eq_bytes_refl (x ∷ xs) = ground (arith, eq_bytes_refl xs)

pub eq_bytes_iff : (xs ys : Bytes) → (eq_bytes xs ys ≡ true) ↔ (xs ≡ ys)
eq_bytes_iff xs ys = (eq_bytes→eq xs ys, λ e. subst_eq xs ys e)
  where
    subst_eq : (xs ys : Bytes) → xs ≡ ys → eq_bytes xs ys ≡ true
    subst_eq xs ys e = cc (ap (eq_bytes xs) e, eq_bytes_refl xs)

abbrev pub is_empty {ℓ} : {A : Type ℓ} → List A → Bool
is_empty [] = true
is_empty (x ∷ xs) = false

-- `unicode.ToLower` and `unicode.ToUpper` on ASCII.
unfoldable pub lower : ℕ → ℕ
lower c = if leb b'A' c && leb c b'Z' then c + 32 else c

unfoldable pub upper : ℕ → ℕ
upper c = if leb b'a' c && leb c b'z' then c - 32 else c

-- `strings.ToLower`, `strings.ToUpper`.
abbrev pub to_lower : Bytes → Bytes
to_lower = map lower

abbrev pub to_upper : Bytes → Bytes
to_upper = map upper

pub lower_idem : (c : ℕ) → lower (lower c) ≡ lower c
unfolding lower
lower_idem c = ground arith

pub to_lower_idem : (s : Bytes) → to_lower (to_lower s) ≡ to_lower s
to_lower_idem [] = refl
to_lower_idem (c ∷ s) = cc (lower_idem c, to_lower_idem s)

-- `strings.TrimSpace`, for the ASCII white space.
unfoldable pub is_space : ℕ → Bool
is_space c = c == 32 || (leb 9 c && leb c 13)

unfoldable pub trim_left : Bytes → Bytes
trim_left [] = []
trim_left (c ∷ s) = if is_space c then trim_left s else c ∷ s

unfoldable pub trim_right : Bytes → Bytes
trim_right [] = []
trim_right (c ∷ s) = let r = trim_right s in if is_empty r && is_space c then [] else c ∷ r

unfoldable pub trim_space : Bytes → Bytes
unfolding trim_left trim_right is_space
trim_space s = trim_right (trim_left s)

-- `strings.Split(s, sep)` for a separator of one byte.
unfoldable pub split_on : ℕ → Bytes → Bytes → List Bytes
split_on sep cur [] = cur ∷ []
split_on sep cur (c ∷ s) =
    let cut = cur ∷ split_on sep [] s in
    let go = split_on sep (cur ++ c ∷ []) s in if c == sep then cut else go

unfoldable pub split : ℕ → Bytes → List Bytes
unfolding split_on
split sep s = split_on sep [] s

-- A byte put before the first of two parts.
unfoldable pub push_left : ℕ → Option (Bytes × Bytes) → Option (Bytes × Bytes)
push_left c none = none
push_left c (some (a, b)) = some (c ∷ a, b)

-- `strings.SplitN(s, sep, 2)`: `none` where there is no separator, so that Go gives one part.
unfoldable pub cut_at : ℕ → Bytes → Option (Bytes × Bytes)
unfolding push_left
cut_at sep [] = none
cut_at sep (c ∷ s) = if c == sep then some ([], s) else push_left c (cut_at sep s)

-- `strings.ReplaceAll(s, c, with)` for one byte `c`.
unfoldable pub replace_byte : ℕ → Bytes → Bytes → Bytes
replace_byte c with [] = []
replace_byte c with (x ∷ s) = (if x == c then with else x ∷ []) ++ replace_byte c with s

-- `strings.Join(parts, sep)`.
unfoldable pub join : Bytes → List Bytes → Bytes
join sep [] = []
join sep (p ∷ []) = p
join sep (p ∷ q ∷ ps) = p ++ (sep ++ join sep (q ∷ ps))

-- `%d` of a number: at most `fuel` digits.
unfoldable pub digits : ℕ → ℕ → Bytes → Bytes
digits zero n out = out
digits (suc fuel) n out =
    let rest = digits fuel (n / 10) ((b'0' + n % 10) ∷ out) in
    if ltb n 10 then (b'0' + n) ∷ out else rest

-- Twenty digits are enough for a 64-bit number.
unfoldable pub show_nat : ℕ → Bytes
unfolding digits
show_nat n = digits 20 n []

-- A byte that begins a character of valid UTF-8.
unfoldable pub starts_rune : ℕ → Bool
starts_rune c = not (leb 128 c && ltb c 192)

-- `utf8.RuneCountInString`.
unfoldable pub rune_count : Bytes → ℕ
unfolding starts_rune
rune_count [] = 0
rune_count (c ∷ s) = (if starts_rune c then 1 else 0) + rune_count s

unfoldable pub is_listed : Bytes → List Bytes → Bool
is_listed s [] = false
is_listed s (t ∷ ts) = eq_bytes s t || is_listed s ts
