-- ===== src/Ui/Shown.antt =====
-- What the agent's user gets to see before an answer, and what fits where.
use mathlib.Core.List.{flatten}
use lokifix.Ui.{Theme}
use lokifix.Ui.Dialog.{part_width, pieces, detail_parts, limit_of}
use lokifix.Prelude.{
  ℕ, zero, suc, ◌≤◌, ◌≡◌, refl, sym, inl, inr, List, [], ◌∷◌, append-nil, arith, ltb, Bool-cases,
  length, drop, length-take, length-drop, take-append-drop, nil_of_length, All, Bytes,
}

flatten-pieces : (n : ℕ) (s : Bytes) → length s ≤ n → flatten (pieces n s) ≡ s
unfolding pieces flatten
flatten-pieces zero s h = sym (nil_of_length s h)
flatten-pieces (suc n) [] h = refl
flatten-pieces (suc n) (c ∷ s) h =
    let fewer : length (drop part_width (c ∷ s)) ≤ n =
      omega (arith, length-drop part_width (c ∷ s)) in
    rw (flatten-pieces n (drop part_width (c ∷ s)) fewer) (take-append-drop part_width (c ∷ s))

pieces-fit : (n : ℕ) (s : Bytes) → All (λ p. length p ≤ part_width) (pieces n s)
unfolding pieces
pieces-fit zero s = tt
pieces-fit (suc n) [] = tt
pieces-fit (suc n) (c ∷ s) =
    (omega (arith, length-take part_width (c ∷ s)), pieces-fit n (drop part_width (c ∷ s)))

All-weaker {ℓ κ} :
    {A : Type ℓ} {P Q : A → Type κ} (xs : List A) → ((x : A) → P x → Q x) → All P xs → All Q xs
All-weaker [] f h = tt
All-weaker (x ∷ xs) f (h, hs) = (f x h, All-weaker xs f hs)

detail_parts-whole :
    (limit : ℕ) (detail : Bytes)
    → limit ≤ 40
    → (flatten (detail_parts limit detail) ≡ detail)
      × All (λ p. length p ≤ 40) (detail_parts limit detail)
unfolding detail_parts flatten
detail_parts-whole limit detail small = elim (Bool-cases (ltb limit (length detail))) [
  | inl e ↦
      let fewer : length (drop part_width detail) ≤ length detail =
        omega (arith, length-drop part_width detail) in
      rw (e, flatten-pieces (length detail) (drop part_width detail) fewer)
        (
          take-append-drop part_width detail,
          (
            omega (arith, length-take part_width detail),
            All-weaker {P = λ (p : Bytes). length p ≤ part_width} {Q = λ (p : Bytes). length p ≤ 40}
                (pieces (length detail) (drop part_width detail)) (λ p h. omega arith)
                (pieces-fit (length detail) (drop part_width detail)),
          ),
        )
  | inr e ↦ let fits : length detail ≤ 40 = ground arith in rw e (append-nil detail, (fits, tt))
]

limit_of-bound : (t : Theme) → limit_of t ≤ 40
limit_of-bound t = elim (Bool-cases t.active) [
  | inl e ↦ rw e (omega arith)
  | inr e ↦ rw e (omega arith)
]

-- The lines of the dialog show the whole detail of the action that the user is asked about, however
-- long it is, in order and without a gap, and none holds more than 40 bytes of it.
pub detail_parts_lem :
    (t : Theme) (detail : Bytes)
    → (flatten (detail_parts (limit_of t) detail) ≡ detail)
      × All (λ p. length p ≤ 40) (detail_parts (limit_of t) detail)
detail_parts_lem t detail = detail_parts-whole (limit_of t) detail (limit_of-bound t)
