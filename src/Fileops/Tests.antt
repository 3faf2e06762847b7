-- ===== src/Fileops/Tests.antt =====
-- The theorems about internal/fileops/fileops.go at concrete inputs, and runs of its functions.
use mathlib.Core.List.{Perm}
use lokifix.Prelude.{
  ℕ, ◌+◌, ◌<◌, ◌≡◌, ◌≢◌, ◌↔◌, refl, true, false, some, none, Option, Bool, List, [], ◌∷◌, arith,
  length, Bytes, codes, eq_bytes, join, if◌then◌else◌, ◌==◌, take, has_prefix, show_nat,
}
use lokifix.Prelude.Int.{pos}
use lokifix.Base64.{decode_std}
use lokifix.Protocol.Message.{file_exists, invalid_base64, too_large}
use lokifix.World.{World, file, ok, err}
use lokifix.World.Calls.{Ensures}
use lokifix.Fileops.Lines.{scan}
use lokifix.Fileops.Read.{read_file, read_file_window, start_window}
use lokifix.Fileops.Edit.{count}
use lokifix.Fileops.Edit.Laws.{glue, Leftmost}
use lokifix.Fileops.Edit.File.{EditOutcome, edit_file_lem}
use lokifix.Fileops.Sort.{sort_by_mod_time, sort_by_mod_time_lem, IsLatestFirst, time_of}
use lokifix.Fileops.Glob.{match_double_glob}
use lokifix.Fileops.Glob.Laws.{Matches, match_double_glob_iff}
use lokifix.Fileops.Grep.{Visit, GrepOptions, grep_content_loop, collect, file_hit, file_count}
use lokifix.Fileops.Grep.Limit.{
  widest, all_hits, gather, grep_content_first, grep_content_bound, grep_files_first,
}
use lokifix.Fileops.Transfer.{exists_path, upload_file, max_transfer_size}
use lokifix.Fileops.Transfer.Upload.{Uploaded, upload_file_lem}

-- A disk with one file, on which nothing is refused.
abbrev note : Bytes
note = codes "one\ntwo\nthree\n"

abbrev home : World
home = record {
  disk = λ p. if eq_bytes p (codes "n.txt") then some (file note) else none;
  refuses = λ c p. false;
}

here : home.disk (codes "n.txt") ≡ some (file note)
unfolding eq_bytes
here = refl

note_fits : (scan note).1 ≡ false
unfolding scan
note_fits = refl

read_file_window_example : read_file (codes "n.txt") (pos 1) (pos 1) home ≡ (
  home,
  ok (record {
    content = join (10 ∷ []) (start_window (pos 1) (pos 1) (scan note).0).lines;
    size = length note;
    lines = (start_window (pos 1) (pos 1) (scan note).0).line_num;
    truncated = (start_window (pos 1) (pos 1) (scan note).0).truncated;
  }),
)
read_file_window_example =
    read_file_window (codes "n.txt") note (pos 1) (pos 1) home here refl refl note_fits

-- The count of lines includes the one at which the loop stopped.
second_line :
    (read_file (codes "n.txt") (pos 1) (pos 1) home).1
    ≡ ok (record { content = codes "2\ttwo"; size = 14; lines = 3; truncated = true })
unfolding read_file eq_bytes join show_nat
second_line = refl

not_nil : codes "two" ≢ []
not_nil = ground arith

edit_file_lem_example :
    (first : Bytes) × (rest : List Bytes) × (note ≡ glue (codes "two") first rest)
    × Leftmost (codes "two") first rest
    × EditOutcome (codes "n.txt") home (codes "two") (codes "2") false first rest
edit_file_lem_example =
    edit_file_lem (codes "n.txt") note (codes "two") (codes "2") false home not_nil here refl refl

-- Overlapping occurrences count once, so that this edit is not refused.
overlap : count (codes "aaa") (codes "aa") ≡ 1
unfolding count has_prefix
overlap = refl

match_double_glob_iff_example :
    (match_double_glob eq_bytes (codes "**" ∷ codes "a" ∷ []) (codes "x" ∷ codes "a" ∷ []) ≡ true)
    ↔ Matches eq_bytes (codes "**" ∷ codes "a" ∷ []) (codes "x" ∷ codes "a" ∷ [])
match_double_glob_iff_example =
    match_double_glob_iff eq_bytes (codes "**" ∷ codes "a" ∷ []) (codes "x" ∷ codes "a" ∷ [])

abbrev by_length : Bytes → Option ℕ
by_length p = some (length p)

sort_by_mod_time_lem_example :
    Perm
      (sort_by_mod_time by_length (codes "a" ∷ codes "bbb" ∷ codes "cc" ∷ []))
      (codes "a" ∷ codes "bbb" ∷ codes "cc" ∷ [])
    × IsLatestFirst
        (λ p. time_of (by_length p))
        (sort_by_mod_time by_length (codes "a" ∷ codes "bbb" ∷ codes "cc" ∷ []))
sort_by_mod_time_lem_example =
    sort_by_mod_time_lem by_length (codes "a" ∷ codes "bbb" ∷ codes "cc" ∷ [])

abbrev has_t : Bytes → Bool
has_t [] = false
has_t (c ∷ s) = c == b't'

abbrev any_name : Bytes → Bytes → Bool
any_name p s = true

abbrev plain_search : GrepOptions
plain_search = record {
  pattern = codes "t";
  path = [];
  glob_filter = [];
  type_filter = [];
  output_mode = [];
  case_insensitive = false;
  context_before = pos 0;
  context_after = pos 0;
  head_limit = pos 1;
  multiline = false;
}

abbrev around : GrepOptions
around = record plain_search { context_before = pos 1; context_after = pos 1 }

abbrev visits : List Visit
visits = record { path = codes "n.txt"; content = some note } ∷ []

grep_content_first_example :
    grep_content_loop has_t any_name plain_search [] 1 [] visits
    ≡ take 1 (all_hits has_t any_name plain_search [] visits)
grep_content_first_example = grep_content_first has_t any_name plain_search [] 1 visits refl refl

grep_content_bound_example :
    length (grep_content_loop has_t any_name around [] 1 [] visits) < 1 + widest 1 (pos 1)
grep_content_bound_example = grep_content_bound has_t any_name around [] 1 1 visits refl

grep_files_first_example :
    (collect (file_hit has_t any_name plain_search []) 1 [] visits
      ≡ take 1 (gather (file_hit has_t any_name plain_search []) visits))
    × (collect (file_count has_t any_name plain_search []) 1 [] visits
        ≡ take 1 (gather (file_count has_t any_name plain_search []) visits))
grep_files_first_example = grep_files_first has_t any_name plain_search [] 1 visits

upload_file_lem_example :
    Ensures
      (Uploaded (codes "n.txt") (codes "YQ==") home)
      (upload_file (codes "n.txt") (codes "YQ==") true home)
    × (true ≡ false
        → exists_path (codes "n.txt") home ≡ true
        → upload_file (codes "n.txt") (codes "YQ==") true home ≡ (home, err file_exists))
    × (◌≡◌ {A = Bool} true true
        → decode_std (codes "YQ==") ≡ none
        → upload_file (codes "n.txt") (codes "YQ==") true home ≡ (home, err invalid_base64))
    × ((content : Bytes)
        → ◌≡◌ {A = Bool} true true
        → decode_std (codes "YQ==") ≡ some content
        → max_transfer_size < length content
        → upload_file (codes "n.txt") (codes "YQ==") true home
          ≡ (home, err (too_large (length content))))
upload_file_lem_example = upload_file_lem (codes "n.txt") (codes "YQ==") true home
