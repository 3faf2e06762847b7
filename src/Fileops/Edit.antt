-- ===== src/Fileops/Edit.antt =====
-- `EditFile`: a string replaced in a file, with `strings.Count` and `strings.Replace`.
pub mod Laws
pub mod File
use lokifix.Protocol.Message.{Error, old_string_missing, old_string_repeated}
use lokifix.World.{
  World, Io, Result, ok, err, after, ◌>>=◌, throw, read_file_bytes, write_file_bytes,
}
use lokifix.Prelude.{
  starts_rune, rune_count, ℕ, zero, suc, ◌+◌, ◌-◌, ◌*◌, ◌/◌, ◌%◌, ◌^◌, ◌≤◌, ◌<◌, ◌≡◌, refl, sym, ap,
  ap₂, subst, ◌∙◌, ◌≢◌, ◌↔◌, ◌⊎◌, inl, inr, Bool, true, false, not, ◌&&◌, ◌||◌, Option, none, some,
  List, [], ◌∷◌, ◌++◌, map, append-nil, append_assoc, arith, ltb, leb, ◌==◌, if◌then◌else◌, ltb→lt,
  lt→ltb, leb→le, ==_iff, Bool-cases, Option-cases, length, get_elem?, length-append, take, drop,
  replicate, length-take, length-drop, length-replicate, take-append-drop, length-map, All,
  All-append, Bytes, codes, eq_bytes, eq_bytes_iff, eq_bytes_refl, eq_bytes→eq, is_empty, lower,
  upper, to_lower, to_upper, to_lower_idem, is_space, trim_left, trim_right, trim_space, split_on,
  split, push_left, cut_at, replace_byte, join, show_nat, has_prefix, contains, has_prefix_sound,
  has_prefix_complete, contains_sound, contains_complete,
}

-- Occurrences that do not overlap, from the left. `skip` bytes belong to one already counted.
unfoldable pub count_from : Bytes → ℕ → Bytes → ℕ
count_from old skip [] = 0
count_from old (suc skip) (c ∷ s) = count_from old skip s
count_from old zero (c ∷ s) =
    let hit = has_prefix (c ∷ s) old in
    (if hit then 1 else 0) + count_from old (if hit then length old - 1 else 0) s

-- `strings.Count`; an empty text stands between all characters and at both ends.
unfoldable pub count : Bytes → Bytes → ℕ
unfolding rune_count count_from
count s [] = rune_count s + 1
count s (o ∷ os) = count_from (o ∷ os) 0 s

-- The first `n` occurrences replaced.
unfoldable pub replace_from : Bytes → Bytes → ℕ → ℕ → Bytes → Bytes
replace_from old new n skip [] = []
replace_from old new n (suc skip) (c ∷ s) = replace_from old new n skip s
replace_from old new n zero (c ∷ s) =
    let hit = has_prefix (c ∷ s) old && ltb 0 n in
    (if hit then new else c ∷ [])
    ++ replace_from old new (if hit then n - 1 else n) (if hit then length old - 1 else 0) s

-- `new` put before the first `n` characters, and at the end if `n` is larger.
unfoldable pub replace_empty : Bytes → ℕ → Bytes → Bytes
unfolding starts_rune
replace_empty new n [] = if ltb 0 n then new else []
replace_empty new n (c ∷ s) =
    let hit = starts_rune c && ltb 0 n in
    (if hit then new ++ c ∷ [] else c ∷ []) ++ replace_empty new (if hit then n - 1 else n) s

-- `strings.Replace(s, old, new, n)` for `n` at most the number of occurrences.
unfoldable pub replace : Bytes → Bytes → Bytes → ℕ → Bytes
unfolding replace_from replace_empty
replace s [] new n = replace_empty new n s
replace s (o ∷ os) new n = replace_from (o ∷ os) new n 0 s

-- What is done with the content read.
unfoldable pub edit_content : Bytes → Bytes → Bytes → Bytes → Bool → Io (Unit {0})
unfolding count replace
edit_content path content old new replace_all =
    if count content old == 0
    then throw old_string_missing
    else if replace_all
    then write_file_bytes path (replace content old new (count content old))
    else if ltb 1 (count content old)
    then throw (old_string_repeated (count content old))
    else write_file_bytes path (replace content old new 1)

unfoldable pub edit_file : Bytes → Bytes → Bytes → Bool → Io (Unit {0})
unfolding edit_content read_file_bytes write_file_bytes
edit_file path old new replace_all = do
  content ← read_file_bytes path
  edit_content path content old new replace_all
