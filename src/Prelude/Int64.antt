-- ===== src/Prelude/Int64.antt =====
-- Go's `int` on a 64-bit machine: results wrap around, division cuts towards zero.
use lokifix.Prelude.Int.{ℤ, pos, negsuc}
use lokifix.Prelude.{
  ℕ, suc, ◌+◌, ◌-◌, ◌/◌, ◌%◌, ◌^◌, Bool, true, false, not, Option, none, some, ◌∷◌, ltb, ◌==◌,
  if◌then◌else◌, Bytes, show_nat,
}

-- A number of 64 bits read as signed.
unfoldable pub of_bits : ℕ → ℤ
of_bits n = let m = n % 2 ^ 64 in if ltb m (2 ^ 63) then pos m else negsuc (2 ^ 64 - m - 1)

unfoldable pub wrap_int64 : ℤ → ℤ
unfolding of_bits
wrap_int64 (pos n) = of_bits n
wrap_int64 (negsuc n) = of_bits (2 ^ 64 - (n + 1) % 2 ^ 64)

unfoldable pub magnitude : ℤ → ℕ
magnitude (pos n) = n
magnitude (negsuc n) = n + 1

unfoldable pub is_negative : ℤ → Bool
is_negative (pos n) = false
is_negative (negsuc n) = true

unfoldable pub with_sign : Bool → ℕ → ℤ
with_sign true (suc n) = negsuc n
with_sign _ n = pos n

-- `none` is the panic of a division by zero.
unfoldable pub quotient : ℤ → ℤ → Option ℤ
unfolding magnitude is_negative with_sign
quotient a b =
    let opposite = if is_negative a then not (is_negative b) else is_negative b in
    if magnitude b == 0 then none else some (with_sign opposite (magnitude a / magnitude b))

-- `%d`.
unfoldable pub show_int : ℤ → Bytes
show_int (pos n) = show_nat n
show_int (negsuc n) = b'-' ∷ show_nat (n + 1)

unfoldable pub eq_int : ℤ → ℤ → Bool
eq_int (pos m) (pos n) = m == n
eq_int (negsuc m) (negsuc n) = m == n
eq_int _ _ = false
