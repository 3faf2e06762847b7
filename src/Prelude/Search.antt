-- ===== src/Prelude/Search.antt =====
-- Search in byte strings: `strings.HasPrefix`, `strings.Contains`, `strings.HasSuffix`.
use mathlib.Core.Path.{◌≡◌, refl, ap}
use mathlib.Core.Logic.{inl, inr}
use mathlib.Core.Bool.{Bool, true, false, ◌&&◌, ◌||◌}
use mathlib.Core.List.{[], ◌∷◌, ◌++◌}
use native.Mathlib.Omega.{arith}
use lokifix.Prelude.Tests.{◌==◌, Bool-cases}
use lokifix.Prelude.Text.{Bytes}

unfoldable pub has_prefix : Bytes → Bytes → Bool
has_prefix s [] = true
has_prefix [] (p ∷ ps) = false
has_prefix (c ∷ s) (p ∷ ps) = c == p && has_prefix s ps

unfoldable pub contains : Bytes → Bytes → Bool
contains [] p = has_prefix [] p
contains (c ∷ s) p = has_prefix (c ∷ s) p || contains s p

pub has_prefix_sound : (s p : Bytes) → has_prefix s p ≡ true → (rest : Bytes) × (s ≡ p ++ rest)
unfolding has_prefix
has_prefix_sound s [] h = (s, refl)
has_prefix_sound [] (p ∷ ps) h = cc
has_prefix_sound (c ∷ s) (p ∷ ps) h =
    let (rest, e) = has_prefix_sound s ps (ground arith) in (rest, ground (arith, e))

pub has_prefix_complete : (p rest : Bytes) → has_prefix (p ++ rest) p ≡ true
unfolding has_prefix
has_prefix_complete [] rest = nil_case rest
  where
    nil_case : (rest : Bytes) → has_prefix rest [] ≡ true
    nil_case [] = refl
    nil_case (c ∷ s) = refl
has_prefix_complete (x ∷ p) rest = ground (arith, has_prefix_complete p rest)

-- `Contains` finds exactly the substrings.
pub contains_sound : (s p : Bytes) → contains s p ≡ true → (a b : Bytes) × (s ≡ a ++ (p ++ b))
unfolding contains
contains_sound [] p h = let (b, e) = has_prefix_sound [] p h in ([], b, e)
contains_sound (c ∷ s) p h = elim (Bool-cases (has_prefix (c ∷ s) p)) [
  | inl e ↦ let (b, q) = has_prefix_sound (c ∷ s) p e in ([], b, q)
  | inr e ↦ let (a, b, q) = contains_sound s p (ground arith) in (c ∷ a, b, ap (λ t. c ∷ t) q)
]

pub contains_complete : (a p b : Bytes) → contains (a ++ (p ++ b)) p ≡ true
unfolding contains
contains_complete [] p b = at_head (p ++ b) p (has_prefix_complete p b)
  where
    at_head : (s p : Bytes) → has_prefix s p ≡ true → contains s p ≡ true
    at_head [] p h = h
    at_head (c ∷ s) p h = ground arith
contains_complete (c ∷ a) p b = ground (arith, contains_complete a p b)
