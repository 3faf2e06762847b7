-- ===== src/Fileops/Lines.antt =====
-- `bufio.Scanner` with `ScanLines` over a file, as `ReadFile` and `readNonBinaryLines` of
-- internal/fileops/fileops.go set it up: a line that does not fit its buffer of 10 MB stops it.
use lokifix.Prelude.{
  ℕ, ◌*◌, Bool, true, false, ◌&&◌, List, [], ◌∷◌, ◌++◌, leb, ◌==◌, if◌then◌else◌, length, Bytes,
  is_empty,
}

abbrev pub max_line : ℕ
max_line = 10 * 1024 * 1024

-- A carriage return at the end of a line is dropped.
unfoldable pub drop_cr : Bytes → Bytes
drop_cr [] = []
drop_cr (c ∷ s) = if is_empty s && c == 13 then [] else c ∷ drop_cr s

-- The lines that the scanner gives, and whether it stopped with an error. `cur` is the line read so
-- far; a last line with no line end is given only if it is not empty.
unfoldable pub scan_from : Bytes → Bytes → List Bytes × Bool
unfolding drop_cr
scan_from cur [] =
    if is_empty cur
    then ([], false)
    else if leb max_line (length cur)
    then ([], true)
    else (drop_cr cur ∷ [], false)
scan_from cur (c ∷ s) =
    let (lines, failed) = scan_from [] s in
    let more = scan_from (cur ++ c ∷ []) s in
    if c == 10
    then (if leb max_line (length cur) then ([], true) else (drop_cr cur ∷ lines, failed))
    else more

unfoldable pub scan : Bytes → List Bytes × Bool
unfolding scan_from
scan s = scan_from [] s
