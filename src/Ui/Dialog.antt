-- ===== src/Ui/Dialog.antt =====
-- The dialog in which the agent's user is asked, and the lines of the log on the console
-- (internal/ui/banner.go).
use lokifix.Audit.{left_justified}
use lokifix.Ui.{Theme, painted, gold, status_symbol, repeat}
use lokifix.Prelude.{
  ℕ, zero, suc, List, [], ◌∷◌, ◌++◌, ltb, if◌then◌else◌, length, take, drop, replicate, Bytes,
  codes, eq_bytes, is_empty,
}

abbrev pub part_width : ℕ
part_width = 38

-- The pieces of a detail behind its first one, in as many rounds as given; one round for each byte
-- is enough.
unfoldable pub pieces : ℕ → Bytes → List Bytes
pieces zero s = []
pieces (suc n) s =
    let rest = pieces n (drop part_width s) in if is_empty s then [] else take part_width s ∷ rest

-- The texts of the lines that show a detail. `limit` is the length up to which it stands in one line:
-- 38 bytes with colours, 40 without.
unfoldable pub detail_parts : ℕ → Bytes → List Bytes
unfolding pieces
detail_parts limit detail =
    if ltb limit (length detail)
    then take part_width detail ∷ pieces (length detail) (drop part_width detail)
    else detail ∷ []

abbrev pub limit_of : Theme → ℕ
limit_of t = if t.active then 38 else 40

abbrev side : Bytes
side = 226 ∷ 149 ∷ 145 ∷ []

abbrev frame : Theme → ℕ → ℕ → Bytes
frame t left right =
    codes "  "
    ++ (t.red
        ++ (226 ∷ 149 ∷ left ∷ []
            ++ (repeat 50 (226 ∷ 149 ∷ 144 ∷ [])
                ++ (226 ∷ 149 ∷ right ∷ [] ++ (t.reset ++ 10 ∷ [])))))

-- The end of a line of the dialog, and its beginning.
abbrev closed : Theme → Bytes → Bytes
closed t s = s ++ (t.red ++ (side ++ (t.reset ++ 10 ∷ [])))

abbrev opened : Theme → Bytes
opened t = codes "  " ++ (t.red ++ (side ++ t.reset))

-- A label in its colour, a gap, and a text padded to a width.
unfoldable pub dialog_row : Theme → Bytes → Bytes → Bytes → ℕ → Bytes → Bytes
unfolding left_justified
dialog_row t color label gap width text = closed t (
    opened t
    ++ (codes "  " ++ (color ++ (label ++ (t.reset ++ (gap ++ left_justified width text))))))

-- The lines of a detail behind its first one are indented as far as that.
unfoldable pub more_rows : Theme → List Bytes → Bytes
unfolding left_justified
more_rows t [] = []
more_rows t (p ∷ ps) =
    closed t (opened t ++ (replicate 13 b' ' ++ left_justified part_width p)) ++ more_rows t ps

unfoldable pub detail_rows : Theme → List Bytes → Bytes
unfolding dialog_row more_rows
detail_rows t [] = []
detail_rows t (p ∷ ps) =
    dialog_row t t.white (codes "Dettaglio:") (codes " ") part_width p ++ more_rows t ps

-- `PrintConfirmDialog`. Without colours the gap of its title is one space shorter.
unfoldable pub confirm_dialog : Theme → Bytes → Bytes → Bytes → Bytes
unfolding dialog_row detail_rows detail_parts repeat
confirm_dialog t action detail reason =
    10 ∷ frame t 148 151
    ++ (closed t (
          opened t
          ++ (codes "  "
              ++ (t.bold
                  ++ (t.red
                      ++ (226 ∷ 154 ∷ 160 ∷ []
                          ++ (codes "  OPERAZIONE PERICOLOSA"
                              ++ (t.reset ++ replicate (if t.active then 24 else 23) b' ')))))))
        ++ (frame t 160 163
            ++ (dialog_row t t.gold (codes "Azione:") (codes "   ") 40 action
                ++ (detail_rows t (detail_parts (limit_of t) detail)
                    ++ (dialog_row t t.gray (codes "Motivo:") (codes "   ") 40 reason
                        ++ frame t 154 157)))))

abbrev pub shown_detail : Bytes → Bytes
shown_detail detail = if ltb 60 (length detail) then take 57 detail ++ codes "..." else detail

unfoldable pub plain_symbol : Bytes → Bytes
plain_symbol outcome =
    if eq_bytes outcome (codes "ERROR")
    then codes "[!!]"
    else if eq_bytes outcome (codes "DENIED")
    then codes "[NO]"
    else codes "[OK]"

-- `FormatLogEntry`
unfoldable pub format_log_entry : Theme → Bytes → Bytes → Bytes → Bytes → Bytes
unfolding left_justified status_symbol painted plain_symbol
format_log_entry t timestamp outcome action detail =
    let rest = shown_detail detail in
    if t.active
    then codes "  "
      ++ (status_symbol t outcome
          ++ (b' ' ∷ t.gray
              ++ (timestamp
                  ++ (t.reset
                      ++ (b' ' ∷ left_justified 17 (gold t action)
                          ++ (b' ' ∷ t.white ++ (rest ++ t.reset)))))))
    else codes "  "
      ++ (plain_symbol outcome
          ++ (b' ' ∷ timestamp ++ (b' ' ∷ left_justified 17 action ++ b' ' ∷ rest)))
