-- ===== src/Fileops/Read.antt =====
-- `ReadFile`: a window of numbered lines. The loop is compared with a description by `take` and
-- `drop`.
use Prim.Native.Nat.{min}
use native.Mathlib.Nat.{zero-add}
use lokifix.Prelude.Int.{ℤ, pos, negsuc, pos_part, ltb_ℤ}
use lokifix.Protocol.Message.{FileReadResult, scan_failed, stat, open_file}
use lokifix.World.{
  World, Node, file, dir, Io, Result, ok, err, ◌>>=◌, stat_node, read_file_bytes, node_at,
}
use lokifix.World.Calls.{stat_node-some, read_file_bytes-file}
use lokifix.Fileops.Lines.{scan}
use lokifix.Prelude.{
  ℕ, zero, suc, ◌+◌, ◌≤◌, ◌≡◌, Bool, true, false, not, ◌&&◌, some, List, [], ◌∷◌, ◌++◌, append-nil,
  append_assoc, arith, ltb, leb, ◌==◌, if◌then◌else◌, length, length-append, take, drop, take_nil,
  Bytes, join, show_nat,
}

abbrev pub default_limit : ℕ
default_limit = 2000

unfoldable pub line_limit : ℤ → ℕ
line_limit (pos n) = if n == 0 then default_limit else n
line_limit (negsuc n) = default_limit

-- `fmt.Sprintf("%d\t%s", …)`
unfoldable pub numbered : ℕ → Bytes → Bytes
numbered n l = show_nat n ++ 9 ∷ l

pub record Window : Type 0 where
  pub line_num : ℕ
  pub lines : List Bytes
  pub truncated : Bool

-- The loop over the scanner; `num` and `out` are `lineNum` and `lines`.
unfoldable pub read_loop : ℤ → ℕ → ℕ → List Bytes → List Bytes → Window
read_loop offset limit num out [] = record { line_num = num; lines = out; truncated = false }
read_loop offset limit num out (l ∷ ls) =
    let skip = read_loop offset limit (num + 1) out ls in
    let keep = read_loop offset limit (num + 1) (out ++ numbered (num + 1) l ∷ []) ls in
    if ltb_ℤ (pos 0) offset && leb (num + 1) (pos_part offset)
    then skip
    else if leb limit (length out)
    then record { line_num = num + 1; lines = out; truncated = true }
    else keep

abbrev pub size_of : Node → ℕ
size_of (file b) = length b
size_of dir = 0

unfoldable pub finish_read : ℕ → Window → Bool → Result FileReadResult
finish_read size w failed =
    if failed && not w.truncated
    then err scan_failed
    else ok (record {
      content = join (10 ∷ []) w.lines;
      size = size;
      lines = w.line_num;
      truncated = w.truncated;
    })

unfoldable pub read_file : Bytes → ℤ → ℤ → Io FileReadResult
unfolding stat_node read_file_bytes read_loop numbered finish_read line_limit scan
read_file path offset limit = do
  info ← stat_node path
  content ← read_file_bytes path
  let (lines, failed) = scan content
  let w = read_loop offset (line_limit limit) 0 [] lines
  λ world. (world, finish_read (size_of info) w failed)

-- Lines with their numbers from `n` on.
unfoldable pub number_from : ℕ → List Bytes → List Bytes
number_from n [] = []
number_from n (l ∷ ls) = numbered n l ∷ number_from (n + 1) ls

-- The window that `ReadFile` promises: `limit` lines behind the first `offset` ones.
unfoldable pub window : ℕ → ℕ → List Bytes → Window
window offset limit ls = record {
  line_num = min (length ls) (offset + limit + 1);
  lines = take limit (drop offset (number_from 1 ls));
  truncated = ltb (offset + limit) (length ls);
}

module _ (offset : ℤ) (limit : ℕ) where
  -- Behind the skipped lines, with room for `room` lines more.
  read_loop_keep :
      (room num : ℕ) (out ls : List Bytes)
      → pos_part offset ≤ num
      → limit ≡ length out + room
      → read_loop offset limit num out ls ≡ record {
        line_num = num + min (length ls) (room + 1);
        lines = out ++ take room (number_from (num + 1) ls);
        truncated = ltb room (length ls);
      }
  unfolding read_loop number_from
  read_loop_keep zero num out [] h k = ground (arith, append-nil out)
  read_loop_keep (suc room) num out [] h k = ground (arith, append-nil out)
  read_loop_keep zero num out (l ∷ ls) h k = ground (arith, append-nil out)
  read_loop_keep (suc room) num out (l ∷ ls) h k =
      let next = out ++ numbered (num + 1) l ∷ [] in
      let rest = take room (number_from (num + 1 + 1) ls) in
      ground (
        arith,
        read_loop_keep room (num + 1) next ls,
        length-append out (numbered (num + 1) l ∷ []),
        append_assoc out (numbered (num + 1) l ∷ []) rest,
      )

  -- With `skip` lines still to be skipped.
  read_loop_skip :
      (skip num : ℕ) (ls : List Bytes)
      → pos_part offset ≡ num + skip
      → read_loop offset limit num [] ls ≡ record {
        line_num = num + min (length ls) (skip + limit + 1);
        lines = take limit (drop skip (number_from (num + 1) ls));
        truncated = ltb (skip + limit) (length ls);
      }
  unfolding read_loop number_from
  read_loop_skip zero num ls h =
      rw zero-add (read_loop_keep limit num [] ls (omega arith) (omega arith))
  read_loop_skip (suc skip) num [] h = ground (arith, take_nil {A = Bytes} limit)
  read_loop_skip (suc skip) num (l ∷ ls) h = ground (arith, read_loop_skip skip (num + 1) ls)

abbrev pub start_window : ℤ → ℤ → List Bytes → Window
start_window offset limit ls = window (pos_part offset) (line_limit limit) ls

-- `ReadFile` on a readable file whose lines fit the buffer gives the numbered lines of the window.
pub read_file_window :
    (path content : Bytes) (offset limit : ℤ) (w : World)
    → w.disk path ≡ some (file content)
    → w.refuses stat path ≡ false
    → w.refuses open_file path ≡ false
    → (scan content).1 ≡ false
    → read_file path offset limit w ≡ (
      w,
      ok (record {
        content = join (10 ∷ []) (start_window offset limit (scan content).0).lines;
        size = length content;
        lines = (start_window offset limit (scan content).0).line_num;
        truncated = (start_window offset limit (scan content).0).truncated;
      }),
    )
unfolding read_file window node_at
read_file_window path content offset limit w here can_stat can_open fits = rw (
  stat_node-some path w here can_stat,
  read_file_bytes-file path w here can_open,
  read_loop_skip offset (line_limit limit) (pos_part offset) 0 (scan content).0 (omega arith),
  fits,
  zero-add (min (length (scan content).0) (pos_part offset + line_limit limit + 1)),
)
