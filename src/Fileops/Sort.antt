-- ===== src/Fileops/Sort.antt =====
-- `sortByModTime`: the exchange sort over modification times, latest first. A file that cannot be
-- looked at has the zero time.
use mathlib.Core.List.{Perm}
use mathlib.Core.List.Perm
use lokifix.Prelude.{
  ℕ, zero, suc, ◌≤◌, ◌≡◌, refl, ap, inl, inr, Option, none, some, List, [], ◌∷◌, arith, ltb, leb,
  if◌then◌else◌, leb→le, Bool-cases, length, All, Bytes,
}

abbrev pub time_of : Option ℕ → ℕ
time_of none = 0
time_of (some t) = suc t

module _ (time : Bytes → ℕ) where
  -- One round of the inner loop: `x` stands at place `i`, and is exchanged for each later file.
  unfoldable pub pass : Bytes → List Bytes → Bytes × List Bytes
  pass x [] = (x, [])
  pass x (y ∷ ys) =
      let later = ltb (time x) (time y) in
      let (top, rest) = pass (if later then y else x) ys in (top, (if later then x else y) ∷ rest)

  -- The outer loop over as many places as the first argument says.
  unfoldable pub exchange_sort : ℕ → List Bytes → List Bytes
  unfolding pass
  exchange_sort zero xs = xs
  exchange_sort (suc n) [] = []
  exchange_sort (suc n) (x ∷ xs) = let (top, rest) = pass x xs in top ∷ exchange_sort n rest

unfoldable pub sort_by_mod_time : (Bytes → Option ℕ) → List Bytes → List Bytes
unfolding exchange_sort
sort_by_mod_time mod_time paths =
    if leb (length paths) 1
    then paths
    else exchange_sort (λ p. time_of (mod_time p)) (length paths) paths

-- Each file is at least as late as all behind it.
abbrev pub IsLatestFirst : (Bytes → ℕ) → List Bytes → Type 0
IsLatestFirst time [] = Unit
IsLatestFirst time (x ∷ xs) = All (λ y. time y ≤ time x) xs × IsLatestFirst time xs

module _ (time : Bytes → ℕ) where
  pass-perm :
      (xs : List Bytes) (x : Bytes) → Perm ((pass time x xs).0 ∷ (pass time x xs).1) (x ∷ xs)
  unfolding pass
  pass-perm [] x = Perm.refl (x ∷ [])
  pass-perm (y ∷ ys) x = elim (Bool-cases (ltb (time x) (time y))) [
    | inl later ↦ rw later (Perm.trans (Perm.swap x _ _) (Perm.cons x (pass-perm ys y)))
    | inr not_later ↦ rw not_later (
        Perm.trans (Perm.swap y _ _) (Perm.trans (Perm.cons y (pass-perm ys x)) (Perm.swap x y ys)))
  ]

  length-pass : (xs : List Bytes) (x : Bytes) → length (pass time x xs).1 ≡ length xs
  unfolding pass
  length-pass [] x = refl
  length-pass (y ∷ ys) x = ap suc (length-pass ys (if ltb (time x) (time y) then y else x))

  pass-latest :
      (xs : List Bytes) (x : Bytes)
      → (time x ≤ time (pass time x xs).0)
        × All (λ y. time y ≤ time (pass time x xs).0) (pass time x xs).1
  unfolding pass
  pass-latest [] x = (omega arith, tt)
  pass-latest (y ∷ ys) x = ground (arith, pass-latest ys (if ltb (time x) (time y) then y else x))

  exchange_sort-perm : (n : ℕ) (xs : List Bytes) → Perm (exchange_sort time n xs) xs
  unfolding exchange_sort
  exchange_sort-perm zero xs = Perm.refl xs
  exchange_sort-perm (suc n) [] = Perm.refl []
  exchange_sort-perm (suc n) (x ∷ xs) =
      Perm.trans (Perm.cons (pass time x xs).0 (exchange_sort-perm n (pass time x xs).1))
        (pass-perm xs x)

  -- A bound on all times is kept by each round and by the whole sort.
  pass-All :
      (b : ℕ) (xs : List Bytes) (x : Bytes)
      → time x ≤ b
      → All (λ y. time y ≤ b) xs
      → (time (pass time x xs).0 ≤ b) × All (λ y. time y ≤ b) (pass time x xs).1
  unfolding pass
  pass-All b [] x h k = (h, tt)
  pass-All b (y ∷ ys) x h k = ground (arith, pass-All b ys (if ltb (time x) (time y) then y else x))

  exchange_sort-All :
      (b n : ℕ) (xs : List Bytes)
      → All (λ y. time y ≤ b) xs
      → All (λ y. time y ≤ b) (exchange_sort time n xs)
  unfolding exchange_sort
  exchange_sort-All b zero xs h = h
  exchange_sort-All b (suc n) [] h = tt
  exchange_sort-All b (suc n) (x ∷ xs) h =
      let (top, rest) = pass-All b xs x h.0 h.1 in
      (top, exchange_sort-All b n (pass time x xs).1 rest)

  exchange_sort-IsLatestFirst :
      (n : ℕ) (xs : List Bytes) → length xs ≤ n → IsLatestFirst time (exchange_sort time n xs)
  unfolding exchange_sort
  exchange_sort-IsLatestFirst zero [] h = tt
  exchange_sort-IsLatestFirst zero (x ∷ xs) h = absurd (omega arith)
  exchange_sort-IsLatestFirst (suc n) [] h = tt
  exchange_sort-IsLatestFirst (suc n) (x ∷ xs) h = (
    exchange_sort-All _ n (pass time x xs).1 (pass-latest xs x).1,
    exchange_sort-IsLatestFirst n (pass time x xs).1 (omega (arith, length-pass xs x)),
  )

short-IsLatestFirst : (time : Bytes → ℕ) (xs : List Bytes) → length xs ≤ 1 → IsLatestFirst time xs
short-IsLatestFirst time [] h = tt
short-IsLatestFirst time (x ∷ []) h = (tt, tt)
short-IsLatestFirst time (x ∷ y ∷ xs) h = absurd (omega arith)

-- The result holds the same paths, as often, and each is changed no earlier than those behind it.
pub sort_by_mod_time_lem :
    (mod_time : Bytes → Option ℕ) (paths : List Bytes)
    → Perm (sort_by_mod_time mod_time paths) paths
      × IsLatestFirst (λ p. time_of (mod_time p)) (sort_by_mod_time mod_time paths)
unfolding sort_by_mod_time
sort_by_mod_time_lem mod_time paths = elim (Bool-cases (leb (length paths) 1)) [
  | inl short ↦ rw short (Perm.refl paths, short-IsLatestFirst _ paths (leb→le _ _ short))
  | inr long ↦ rw long (
    exchange_sort-perm _ (length paths) paths,
    exchange_sort-IsLatestFirst _ (length paths) paths (omega arith),
  )
]
