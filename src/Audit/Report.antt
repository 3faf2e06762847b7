-- ===== src/Audit/Report.antt =====
-- The session report (internal/audit/audit.go, `SessionSummary` and `WriteReport`).
use lokifix.Dict
use lokifix.Duration.{format_duration}
use lokifix.World.{World, ok, err, panic, write_file_bytes}
use lokifix.Audit.{Entry, Logger, Clock, left_justified}
use lokifix.Prelude.{
  ℕ, zero, suc, ◌+◌, ◌-◌, ◌||◌, Option, none, some, List, [], ◌∷◌, ◌++◌, if◌then◌else◌, length,
  take, drop, Bytes, codes, eq_bytes, show_nat,
}

abbrev pub Counts : Type 0
Counts = List (Bytes × ℕ)

-- `m[k]`, which is 0 for a missing key.
unfoldable pub or_zero : Option ℕ → ℕ
or_zero none = 0
or_zero (some n) = n

abbrev pub count_at : Bytes → Counts → ℕ
count_at a m = or_zero (Dict.lookup a m)

-- The loop that counts actions.
unfoldable pub count_actions : Counts → List Entry → Counts
unfolding or_zero
count_actions m [] = m
count_actions m (e ∷ es) = count_actions (Dict.insert e.action (count_at e.action m + 1) m) es

-- How many entries have an outcome: `errors` and `denied`.
unfoldable pub count_outcome : Bytes → List Entry → ℕ
count_outcome o [] = 0
count_outcome o (e ∷ es) = (if eq_bytes e.outcome o then 1 else 0) + count_outcome o es

-- The frame of the report: its upper, middle and lower lines and its left side.
abbrev double_line : Bytes
double_line = 226 ∷ 149 ∷ 144 ∷ []

unfoldable pub repeat : ℕ → Bytes → Bytes
repeat zero s = []
repeat (suc n) s = s ++ repeat n s

abbrev pub frame : ℕ → ℕ → Bytes
frame left right = 226 ∷ 149 ∷ left ∷ [] ++ (repeat 50 double_line ++ 226 ∷ 149 ∷ right ∷ 10 ∷ [])

abbrev side_line : Bytes
side_line = 226 ∷ 149 ∷ 145 ∷ []

abbrev pub row : Bytes → Bytes
row s = side_line ++ (s ++ 10 ∷ [])

-- The lines of the actions, without the start and the end of the session.
unfoldable pub action_rows : Counts → Bytes
unfolding left_justified
action_rows [] = []
action_rows ((a, n) ∷ m) =
    let rest = action_rows m in
    if eq_bytes a (codes "SESSION_START") || eq_bytes a (codes "SESSION_END")
    then rest
    else row (codes "    " ++ (left_justified 20 a ++ b' ' ∷ show_nat n)) ++ rest

-- The report up to the lines of the actions, and behind them. `filePath` is not kept in the logger and
-- is an argument; so is the time of the report.
unfoldable pub summary_head : Clock → ℕ → Logger → Bytes
unfolding repeat count_outcome format_duration
summary_head clock now l =
    frame 148 151
    ++ row (codes "          REPORT SESSIONE LOKIFIX                " ++ side_line)
    ++ frame 160 163
    ++ row (codes "  Sessione:  " ++ l.session_id)
    ++ row (codes "  Lato:      " ++ l.side)
    ++ row (codes "  Inizio:    " ++ clock.seconds l.start_time)
    ++ row (codes "  Fine:      " ++ clock.seconds now)
    ++ row (codes "  Durata:    " ++ format_duration (now - l.start_time))
    ++ row (
        codes "  Azioni:    "
        ++ show_nat (length l.entries)
        ++ codes " totali, "
        ++ show_nat (count_outcome (codes "ERROR") l.entries)
        ++ codes " errori, "
        ++ show_nat (count_outcome (codes "DENIED") l.entries)
        ++ codes " negate")
    ++ row []
    ++ row (codes "  Riepilogo azioni:")

unfoldable pub summary_tail : Bytes → Logger → Bytes
unfolding repeat
summary_tail file_path l =
    row []
    ++ row (codes "  Hash integrit" ++ 195 ∷ 160 ∷ [] ++ codes " finale: " ++ l.prev_hash)
    ++ row (codes "  Log file: " ++ file_path)
    ++ frame 154 157

unfoldable pub session_summary : Clock → Bytes → ℕ → Logger → Bytes
unfolding summary_head summary_tail action_rows count_actions
session_summary clock file_path now l =
    summary_head clock now l
    ++ (action_rows (count_actions [] l.entries) ++ summary_tail file_path l)

-- `strings.TrimSuffix`
unfoldable pub trim_suffix : Bytes → Bytes → Bytes
trim_suffix suffix s =
    let n = length s - length suffix in if eq_bytes (drop n s) suffix then take n s else s

abbrev pub report_path : Bytes → Bytes
report_path file_path = trim_suffix (codes ".log") file_path ++ codes "-report.txt"

abbrev pub with_summary : Bytes → Logger → Logger
with_summary summary l = record l {
  file = l.file ++ (codes "\n# === SESSION SUMMARY ===\n" ++ summary);
}

-- `WriteReport`: the summary stands in the log only after the report could be written.
unfoldable pub write_report : Clock → Bytes → ℕ → World → Logger → World × Logger × Option Bytes
unfolding session_summary trim_suffix write_file_bytes
write_report clock file_path now w l =
    let summary = session_summary clock file_path now l in
    let (w', r) = write_file_bytes (report_path file_path) summary w in
    elim r [
      | ok u ↦ (w', with_summary summary l, some (report_path file_path))
      | err e ↦ (w', l, none)
      | panic ↦ (w', l, none)
    ]
