-- ===== src/Fileops/Glob.antt =====
-- `Glob`, `globRecursive` and `matchDoubleGlob`. `filepath.Match` on one segment is the argument
-- `seg` (a bad pattern counts as no match, as the source ignores the error); what `filepath.Walk`
-- visits and `filepath.Glob` finds are arguments too.
pub mod Laws
use lokifix.Fileops.Sort.{sort_by_mod_time}
use lokifix.Prelude.{
  ℕ, zero, suc, ◌+◌, ◌-◌, ◌*◌, ◌/◌, ◌%◌, ◌^◌, ◌≤◌, ◌<◌, ◌≡◌, refl, sym, ap, ap₂, subst, ◌∙◌, ◌≢◌,
  ◌↔◌, ◌⊎◌, inl, inr, Bool, true, false, not, ◌&&◌, ◌||◌, Option, none, some, List, [], ◌∷◌, ◌++◌,
  map, append-nil, append_assoc, arith, ltb, leb, ◌==◌, if◌then◌else◌, ltb→lt, lt→ltb, leb→le,
  ==_iff, Bool-cases, Option-cases, length, get_elem?, length-append, take, drop, replicate,
  length-take, length-drop, length-replicate, take-append-drop, length-map, All, All-append, Bytes,
  codes, eq_bytes, eq_bytes_iff, eq_bytes_refl, eq_bytes→eq, is_empty, lower, upper, to_lower,
  to_upper, to_lower_idem, is_space, trim_left, trim_right, trim_space, split_on, split, push_left,
  cut_at, replace_byte, join, show_nat, has_prefix, contains, has_prefix_sound, has_prefix_complete,
  contains_sound, contains_complete,
}

abbrev pub double_star : Bytes
double_star = codes "**"

unfoldable pub is_double_star : Bytes → Bool
is_double_star p = eq_bytes p double_star

unfoldable pub all_double_stars : List Bytes → Bool
unfolding is_double_star
all_double_stars [] = true
all_double_stars (p ∷ ps) = is_double_star p && all_double_stars ps

-- A test of every suffix of a path, the empty one too.
unfoldable pub any_suffix : (List Bytes → Bool) → List Bytes → Bool
any_suffix f [] = f []
any_suffix f (s ∷ ss) = f (s ∷ ss) || any_suffix f ss

module _ (seg : Bytes → Bytes → Bool) where
  unfoldable pub match_double_glob : List Bytes → List Bytes → Bool
  unfolding is_double_star all_double_stars any_suffix
  match_double_glob [] path = is_empty path
  match_double_glob (p ∷ ps) [] = all_double_stars (p ∷ ps)
  match_double_glob (p ∷ ps) (s ∷ ss) =
      let tail = any_suffix (match_double_glob ps) (s ∷ ss) in
      let next = match_double_glob ps ss in
      if is_double_star p
      then (if is_empty ps then true else tail)
      else if seg p s
      then next
      else false

-- A file that the walk visits: its path, and the path relative to the base with slashes.
pub record Visit : Type 0 where
  pub path : Bytes
  pub rel : Bytes
  pub base : Bytes

unfoldable pub select : (Visit → Bool) → List Visit → List Bytes
select test [] = []
select test (v ∷ vs) = if test v then v.path ∷ select test vs else select test vs

-- `filepath.ToSlash` on Windows.
abbrev pub to_slash : Bytes → Bytes
to_slash = replace_byte 92 (b'/' ∷ [])

unfoldable pub has_separator : Bytes → Bool
has_separator [] = false
has_separator (c ∷ s) = c == b'/' || c == 92 || has_separator s

-- What the system gives: the walk over a base path, the direct matches of a pattern, whether a path
-- is absolute, and the time of the last change of a path.
pub record Tree : Type 0 where
  pub walk : Bytes → List Visit
  pub direct : Bytes → List Bytes
  pub is_abs : Bytes → Bool
  pub mod_time : Bytes → Option ℕ

module _ (seg : Bytes → Bytes → Bool) (tree : Tree) where
  unfoldable pub glob_recursive : Bytes → Bytes → List Bytes
  unfolding match_double_glob select split
  glob_recursive pattern_text base = sort_by_mod_time tree.mod_time (
      select (λ v. match_double_glob seg (split b'/' (to_slash pattern_text)) (split b'/' v.rel))
        (tree.walk base))

  unfoldable pub glob_walk : Bytes → Bytes → List Bytes
  unfolding select
  glob_walk pattern_text base = sort_by_mod_time tree.mod_time (
      select (λ v. seg (to_slash pattern_text) v.rel || seg (to_slash pattern_text) v.base)
        (tree.walk base))

  unfoldable pub glob : Bytes → Bytes → List Bytes
  unfolding glob_recursive glob_walk has_separator contains
  glob pattern_text base_path =
      let base = if is_empty base_path then codes "." else base_path in
      let found = tree.direct pattern_text in
      if contains pattern_text double_star
      then glob_recursive pattern_text base
      else if (tree.is_abs pattern_text || has_separator pattern_text) && not (is_empty found)
      then sort_by_mod_time tree.mod_time found
      else glob_walk pattern_text base
