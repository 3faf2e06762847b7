-- ===== src/Ui/Tests.antt =====
-- What the console shows, and a concrete case of what is proved about it.
use mathlib.Core.List.{flatten}
use lokifix.Ui.{plain_theme, rich_theme, progress_bar, filled_of}
use lokifix.Ui.Banner.{pad, pad_right, center_pad}
use lokifix.Ui.Dialog.{detail_parts, limit_of, pieces, format_log_entry, plain_symbol}
use lokifix.Ui.Shown.{detail_parts_lem}
use lokifix.Prelude.{◌≤◌, ◌≡◌, refl, none, [], ◌∷◌, length, replicate, All, Bytes, codes, eq_bytes}

centred : center_pad (codes "ab") 5 ≡ codes " ab  "
unfolding center_pad pad
centred = refl

cut : pad_right (codes "abcdef") 4 ≡ codes "abcd"
unfolding pad_right
cut = refl

-- More than the whole is a panic.
too_full : progress_bar plain_theme 3 2 10 ≡ none
unfolding progress_bar filled_of
too_full = refl

logged_line :
    format_log_entry plain_theme
      (codes "10:00:00")
      (codes "DENIED")
      (codes "FILE_DELETE")
      (codes "a")
    ≡ codes "  [NO] 10:00:00 FILE_DELETE       a"
unfolding format_log_entry plain_symbol eq_bytes
logged_line = refl

abbrev long_detail : Bytes
long_detail = replicate 80 b'x'

in_three_lines :
    detail_parts (limit_of rich_theme) long_detail
    ≡ replicate 38 b'x' ∷ replicate 38 b'x' ∷ replicate 4 b'x' ∷ []
unfolding detail_parts pieces
in_three_lines = refl

detail_parts_lem_example :
    (flatten (detail_parts (limit_of rich_theme) long_detail) ≡ long_detail)
    × All (λ p. length p ≤ 40) (detail_parts (limit_of rich_theme) long_detail)
detail_parts_lem_example = detail_parts_lem rich_theme long_detail
