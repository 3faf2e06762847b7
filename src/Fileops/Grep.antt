-- ===== src/Fileops/Grep.antt =====
-- `GrepFile` and its three modes, with the file filters. The compiled regular expression is a
-- function on lines, `filepath.Match` one on names; what `filepath.Walk` visits is a list of files,
-- each with its bytes, or with none where it is a directory or cannot be read.
pub mod Filter
pub mod Limit
use lokifix.Prelude.Int.{ℤ, pos, negsuc}
use lokifix.Protocol.Message.{GrepMatch, GrepCountEntry, Error, invalid_regex}
use lokifix.World.{Result, ok, err}
use lokifix.Fileops.Lines.{scan}
use lokifix.Fileops.Grep.Filter.{type_extensions, matches_file_filter}
use lokifix.Prelude.{
  ℕ, zero, suc, ◌+◌, ◌-◌, ◌*◌, ◌/◌, ◌%◌, ◌^◌, ◌≤◌, ◌<◌, ◌≡◌, refl, sym, ap, ap₂, subst, ◌∙◌, ◌≢◌,
  ◌↔◌, ◌⊎◌, inl, inr, Bool, true, false, not, ◌&&◌, ◌||◌, Option, none, some, List, [], ◌∷◌, ◌++◌,
  map, append-nil, append_assoc, arith, ltb, leb, ◌==◌, if◌then◌else◌, ltb→lt, lt→ltb, leb→le,
  ==_iff, Bool-cases, Option-cases, length, get_elem?, length-append, take, drop, replicate,
  length-take, length-drop, length-replicate, take-append-drop, length-map, All, All-append, Bytes,
  codes, eq_bytes, eq_bytes_iff, eq_bytes_refl, eq_bytes→eq, is_empty, lower, upper, to_lower,
  to_upper, to_lower_idem, is_space, trim_left, trim_right, trim_space, split_on, split, push_left,
  cut_at, replace_byte, join, show_nat, has_prefix, contains, has_prefix_sound, has_prefix_complete,
  contains_sound, contains_complete,
}

pub record GrepOptions : Type 0 where
  pub pattern : Bytes
  pub path : Bytes
  pub glob_filter : Bytes
  pub type_filter : Bytes
  pub output_mode : Bytes
  pub case_insensitive : Bool
  pub context_before : ℤ
  pub context_after : ℤ
  pub head_limit : ℤ
  pub multiline : Bool

pub record Visit : Type 0 where
  pub path : Bytes
  pub content : Option Bytes

-- A zero among the first 512 bytes makes a file binary.
unfoldable pub has_zero : Bytes → Bool
has_zero [] = false
has_zero (c ∷ s) = c == 0 || has_zero s

-- The lines of a text file; `none` where the file is passed over.
unfoldable pub read_non_binary_lines : Bytes → Option (List Bytes)
unfolding has_zero scan
read_non_binary_lines b =
    let (lines, failed) = scan b in
    if has_zero (take 512 b) then none else if failed || is_empty lines then none else some lines

unfoldable pub visit_lines : Option Bytes → Option (List Bytes)
unfolding read_non_binary_lines
visit_lines none = none
visit_lines (some b) = read_non_binary_lines b

-- The lines from `n` on, as results.
unfoldable pub entries : Bytes → ℕ → List Bytes → List GrepMatch
entries path n [] = []
entries path n (l ∷ ls) =
    record { file = path; line = n + 1; content = l } ∷ entries path (n + 1) ls

-- The lines `from`, …, `to - 1`.
unfoldable pub range_entries : Bytes → List Bytes → ℕ → ℕ → List GrepMatch
unfolding entries
range_entries path lines from to = entries path from (take (to - from) (drop from lines))

-- `i - contextB`, at least 0; the loop up to `i` is empty where this lies beyond `i`. The difference
-- with a negative number wraps around where it leaves the range of `int`.
unfoldable pub context_start : ℤ → ℕ → ℕ
context_start (pos b) i = i - b
context_start (negsuc b) i = if ltb (i + (b + 1)) (2 ^ 63) then i + (b + 1) else 0

-- One more than `i + contextA`, at most the number of lines; 0 where that sum is negative, because
-- `contextA` is or because it wraps around.
unfoldable pub context_end : ℤ → ℕ → ℕ → ℕ
context_end (pos a) i n = if leb (2 ^ 63) (i + a) then 0 else if leb n (i + a) then n else i + a + 1
context_end (negsuc a) i n = i - a

-- What one matching line adds.
unfoldable pub match_entries : Bytes → ℤ → ℤ → List Bytes → ℕ → Bytes → List GrepMatch
unfolding range_entries context_start context_end
match_entries path before behind lines i l =
    range_entries path lines (context_start before i) i
    ++ (record { file = path; line = i + 1; content = l }
        ∷ range_entries path lines (i + 1) (context_end behind i (length lines)))

module _ (re : Bytes → Bool) where
  -- The loop over the lines of a file from line `i` on; `results` is kept over all files.
  unfoldable pub grep_lines :
      Bytes → ℤ → ℤ → ℕ → List Bytes → ℕ → List GrepMatch → List Bytes → List GrepMatch
  unfolding match_entries
  grep_lines path before behind limit lines i results [] = results
  grep_lines path before behind limit lines i results (l ∷ ls) =
      let more = results ++ match_entries path before behind lines i l in
      let go_on = grep_lines path before behind limit lines (i + 1) more ls in
      let pass = grep_lines path before behind limit lines (i + 1) results ls in
      if re l then (if leb limit (length more) then more else go_on) else pass

  unfoldable pub any_line : List Bytes → Bool
  any_line [] = false
  any_line (l ∷ ls) = re l || any_line ls

  unfoldable pub count_lines : List Bytes → ℕ
  count_lines [] = 0
  count_lines (l ∷ ls) = (if re l then 1 else 0) + count_lines ls

-- The lines that are searched: those of a file that passes the filters.
unfoldable pub searched :
    (Bytes → Bytes → Bool) → GrepOptions → List Bytes → Visit → Option (List Bytes)
unfolding matches_file_filter visit_lines
searched seg opts exts v =
    if matches_file_filter seg v.path opts.glob_filter exts then visit_lines v.content else none

module _ (re : Bytes → Bool) (seg : Bytes → Bytes → Bool) where
  -- What the visit of one file makes of the results so far.
  unfoldable pub grep_visit : GrepOptions → List Bytes → ℕ → List GrepMatch → Visit → List GrepMatch
  grep_visit opts exts limit results v = elim (searched seg opts exts v) [
    | none ↦ results
    | some lines ↦
        grep_lines re v.path opts.context_before opts.context_after limit lines 0 results lines
  ]

  unfoldable pub grep_content_loop :
      GrepOptions → List Bytes → ℕ → List GrepMatch → List Visit → List GrepMatch
  grep_content_loop opts exts limit results [] = results
  grep_content_loop opts exts limit results (v ∷ vs) =
      let go_on = grep_content_loop opts exts limit (grep_visit opts exts limit results v) vs in
      if leb limit (length results) then results else go_on

  -- What a file adds to the list of files, and to the list of counts.
  unfoldable pub file_hit : GrepOptions → List Bytes → Visit → List Bytes
  file_hit opts exts v = elim (searched seg opts exts v) [
    | none ↦ []
    | some lines ↦ (if any_line re lines then v.path ∷ [] else [])
  ]

  unfoldable pub file_count : GrepOptions → List Bytes → Visit → List GrepCountEntry
  file_count opts exts v = elim (searched seg opts exts v) [
    | none ↦ []
    | some lines ↦
        (if ltb 0 (count_lines re lines)
          then record { file = v.path; count = count_lines re lines } ∷ []
          else [])
  ]

-- The walk of the other two modes: it stops before the first file met with a full list.
unfoldable pub collect {ℓ} : {A : Type ℓ} → (Visit → List A) → ℕ → List A → List Visit → List A
collect f limit out [] = out
collect f limit out (v ∷ vs) =
    let go_on = collect f limit (out ++ f v) vs in if leb limit (length out) then out else go_on

abbrev pub default_head_limit : ℕ
default_head_limit = 250

unfoldable pub head_limit_of : ℤ → ℕ
head_limit_of (pos n) = if n == 0 then default_head_limit else n
head_limit_of (negsuc n) = default_head_limit

pub data GrepResult : Type 0 where
  contents : List GrepMatch → GrepResult
  files : List Bytes → GrepResult
  counts : List GrepCountEntry → GrepResult

-- The expression that is compiled: the flags and the pattern.
unfoldable pub full_pattern : GrepOptions → Bytes
full_pattern opts =
    let m = codes "(?m)" in
    let i = if opts.case_insensitive then m ++ codes "(?i)" else m in
    let s = if opts.multiline then i ++ codes "(?s)" else i in s ++ opts.pattern

-- `compile` is `regexp.Compile`, `walk` what lies below a path.
unfoldable pub grep_file :
    (Bytes → Option (Bytes → Bool))
    → (Bytes → Bytes → Bool)
    → (Bytes → List Visit)
    → GrepOptions
    → Result GrepResult
unfolding head_limit_of grep_content_loop grep_visit grep_lines searched any_line count_lines
    file_hit file_count collect type_extensions full_pattern
grep_file compile seg walk opts = elim (compile (full_pattern opts)) [
  | none ↦ err invalid_regex
  | some re ↦
      let visits = walk (if is_empty opts.path then codes "." else opts.path) in
      let limit = head_limit_of opts.head_limit in
      let exts = type_extensions opts.type_filter in
      if eq_bytes opts.output_mode (codes "files_with_matches")
      then ok (files (collect (file_hit re seg opts exts) limit [] visits))
      else if eq_bytes opts.output_mode (codes "count")
      then ok (counts (collect (file_count re seg opts exts) limit [] visits))
      else ok (contents (grep_content_loop re seg opts exts limit [] visits))
]
