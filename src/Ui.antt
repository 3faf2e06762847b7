-- ===== src/Ui.antt =====
-- The colours of the agent's console (internal/ui/colors.go). A text is a list of bytes in UTF-8; the
-- theme, a global variable of the source, is an argument.
pub mod Banner
pub mod Dialog
pub mod Shown
pub mod Tests
use lokifix.Prelude.{
  ℕ, zero, suc, ◌+◌, ◌-◌, ◌*◌, ◌/◌, ◌%◌, ◌^◌, ◌≤◌, ◌<◌, ◌≡◌, refl, sym, ap, ap₂, subst, ◌∙◌, ◌≢◌,
  ◌↔◌, ◌⊎◌, inl, inr, Bool, true, false, not, ◌&&◌, ◌||◌, Option, none, some, List, [], ◌∷◌, ◌++◌,
  map, append-nil, append_assoc, arith, ltb, leb, ◌==◌, if◌then◌else◌, ltb→lt, lt→ltb, leb→le,
  ==_iff, Bool-cases, Option-cases, length, get_elem?, length-append, take, drop, replicate,
  length-take, length-drop, length-replicate, take-append-drop, take-append, take_all, take_nil,
  nil_of_length, length-map, All, All-append, Bytes, codes, eq_bytes, eq_bytes_iff, eq_bytes_refl,
  eq_bytes→eq, is_empty, lower, upper, to_lower, to_upper, to_lower_idem, is_space, trim_left,
  trim_right, trim_space, split_on, split, push_left, cut_at, replace_byte, join, show_nat,
  has_prefix, contains, has_prefix_sound, has_prefix_complete, contains_sound, contains_complete,
}

pub record Theme : Type 0 where
  pub green : Bytes
  pub gold : Bytes
  pub red : Bytes
  pub cyan : Bytes
  pub gray : Bytes
  pub white : Bytes
  pub bold : Bytes
  pub reset : Bytes
  pub active : Bool

abbrev escape : Bytes → Bytes
escape s = 27 ∷ s

abbrev pub rich_theme : Theme
rich_theme = record {
  green = escape (codes "[38;5;35m");
  gold = escape (codes "[38;5;178m");
  red = escape (codes "[38;5;196m");
  cyan = escape (codes "[38;5;80m");
  gray = escape (codes "[38;5;245m");
  white = escape (codes "[38;5;255m");
  bold = escape (codes "[1m");
  reset = escape (codes "[0m");
  active = true;
}

abbrev pub plain_theme : Theme
plain_theme = record {
  green = [];
  gold = [];
  red = [];
  cyan = [];
  gray = [];
  white = [];
  bold = [];
  reset = [];
  active = false;
}

-- `Init`, by whether the terminal could be told to read the escapes.
unfoldable pub init : Bool → Theme
init enabled = if enabled then rich_theme else plain_theme

unfoldable pub painted : Theme → Bytes → Bytes → Bytes
painted t color s = if t.active then color ++ (s ++ t.reset) else s

abbrev pub green : Theme → Bytes → Bytes
green t = painted t t.green

abbrev pub gold : Theme → Bytes → Bytes
gold t = painted t t.gold

abbrev pub red : Theme → Bytes → Bytes
red t = painted t t.red

abbrev pub cyan : Theme → Bytes → Bytes
cyan t = painted t t.cyan

abbrev pub gray : Theme → Bytes → Bytes
gray t = painted t t.gray

abbrev pub bold_text : Theme → Bytes → Bytes
bold_text t = painted t t.bold

abbrev pub bold_green : Theme → Bytes → Bytes
bold_green t = painted t (t.bold ++ t.green)

abbrev pub bold_gold : Theme → Bytes → Bytes
bold_gold t = painted t (t.bold ++ t.gold)

abbrev pub bold_red : Theme → Bytes → Bytes
bold_red t = painted t (t.bold ++ t.red)

-- `strings.Repeat`
unfoldable pub repeat : ℕ → Bytes → Bytes
repeat zero s = []
repeat (suc n) s = s ++ repeat n s

abbrev pub full_block : Bytes
full_block = 226 ∷ 150 ∷ 136 ∷ []

abbrev pub empty_block : Bytes
empty_block = 226 ∷ 150 ∷ 145 ∷ []

-- `%3d`
unfoldable pub in_three : ℕ → Bytes
in_three n = replicate (3 - length (show_nat n)) b' ' ++ show_nat n

abbrev pub at_least_one : ℕ → ℕ
at_least_one total = if total == 0 then 1 else total

-- The full blocks of a bar.
unfoldable pub filled_of : ℕ → ℕ → ℕ → ℕ
filled_of current total width = width * (current * 100 / at_least_one total) / 100

-- `ProgressBar` of numbers that are not negative; `none` is the panic of `strings.Repeat` for a
-- negative count.
unfoldable pub progress_bar : Theme → ℕ → ℕ → ℕ → Option Bytes
unfolding filled_of repeat in_three
progress_bar t current total width =
    let filled = filled_of current total width in
    let bar = repeat filled full_block ++ repeat (width - filled) empty_block in
    let percent = in_three (current * 100 / at_least_one total) ++ codes "%" in
    if ltb width filled
    then none
    else some (
        if t.active
        then t.cyan ++ (bar ++ (t.reset ++ (b' ' ∷ t.white ++ (percent ++ t.reset))))
        else bar ++ b' ' ∷ percent)

unfoldable pub status_symbol : Theme → Bytes → Bytes
unfolding painted
status_symbol t status =
    if eq_bytes status (codes "OK")
    then green t (226 ∷ 156 ∷ 147 ∷ [])
    else if eq_bytes status (codes "ERROR")
    then red t (226 ∷ 156 ∷ 151 ∷ [])
    else if eq_bytes status (codes "DENIED")
    then gray t (226 ∷ 138 ∷ 152 ∷ [])
    else if eq_bytes status (codes "PROGRESS")
    then cyan t (226 ∷ 154 ∷ 161 ∷ [])
    else if eq_bytes status (codes "APPROVED")
    then gold t (226 ∷ 156 ∷ 147 ∷ [])
    else gray t (194 ∷ 183 ∷ [])

unfoldable pub separator : Theme → ℕ → Bytes
unfolding painted repeat
separator t width = gray t (repeat width (226 ∷ 148 ∷ 128 ∷ []))
