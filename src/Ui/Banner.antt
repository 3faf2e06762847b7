-- ===== src/Ui/Banner.antt =====
-- Padding and the banner of the agent's console (internal/ui/banner.go).
use lokifix.Ui.{Theme}
use lokifix.Prelude.{
  ℕ, ◌-◌, ◌/◌, [], ◌∷◌, ◌++◌, leb, if◌then◌else◌, length, take, replicate, Bytes, codes,
}

unfoldable pub pad : ℕ → ℕ → Bytes
pad c n = replicate n c

unfoldable pub pad_right : Bytes → ℕ → Bytes
unfolding pad
pad_right s width = if leb width (length s) then take width s else s ++ pad b' ' (width - length s)

unfoldable pub center_pad : Bytes → ℕ → Bytes
unfolding pad
center_pad s width =
    let total = width - length s in
    let left = total / 2 in
    if leb width (length s) then take width s else pad b' ' left ++ (s ++ pad b' ' (total - left))

abbrev inner_width : ℕ
inner_width = 42

abbrev title : Bytes
title = codes "<  L . O . K . I . F . I . X  >"

abbrev dashes : Bytes
dashes = codes "----------------------------------"

abbrev version_text : Bytes
version_text = codes "Remote Agent  v1.2.0"

abbrev powered : Bytes
powered = codes "Powered by Claude - Anthropic"

abbrev line : Bytes → Bytes
line s = s ++ 10 ∷ []

-- A row of the banner with a green border.
unfoldable pub banner_row : Theme → Bytes → Bytes → Bytes
unfolding center_pad
banner_row t color text = line (
    codes "  "
    ++ (t.green
        ++ (b'|' ∷ color
            ++ (center_pad text inner_width ++ (t.reset ++ (t.green ++ (b'|' ∷ t.reset)))))))

abbrev color_edge : Theme → Bytes
color_edge t = line (codes "  " ++ (t.green ++ (b'+' ∷ pad b'-' inner_width ++ (b'+' ∷ t.reset))))

unfoldable pub color_banner : Theme → Bytes
unfolding banner_row pad
color_banner t =
    line []
    ++ (color_edge t
        ++ (banner_row t [] []
            ++ (banner_row t (t.bold ++ t.gold) title
                ++ (banner_row t t.gray dashes
                    ++ (banner_row t t.white version_text
                        ++ (banner_row t t.cyan powered
                            ++ (banner_row t [] [] ++ (color_edge t ++ line []))))))))

abbrev plain_edge : Bytes
plain_edge = line (codes "  +" ++ (pad b'-' inner_width ++ codes "+"))

abbrev plain_row : Bytes → Bytes
plain_row s = line (codes "  |" ++ (s ++ codes "|"))

unfoldable pub plain_banner : Bytes
unfolding pad center_pad
plain_banner =
    line []
    ++ (plain_edge
        ++ (plain_row (pad b' ' inner_width)
            ++ (plain_row (center_pad title inner_width)
                ++ (plain_row (center_pad dashes inner_width)
                    ++ (plain_row (center_pad version_text inner_width)
                        ++ (plain_row (center_pad powered inner_width)
                            ++ (plain_row (pad b' ' inner_width) ++ (plain_edge ++ line []))))))))

-- `PrintBanner`
unfoldable pub banner : Theme → Bytes
unfolding color_banner plain_banner
banner t = if t.active then color_banner t else plain_banner
