-- ===== src/Sysinfo/Csv.antt =====
-- The lines of `ConvertTo-Csv`, which puts every field in quotes, and how they are read.
use lokifix.Sysinfo.{to_valid, csv_loop, parse_csv_line, double_quote}
use lokifix.Prelude.{
  ℕ, ◌≡◌, refl, sym, ap, ◌∙◌, true, false, List, [], ◌∷◌, ◌++◌, map, append-nil, append_assoc,
  arith, ◌==◌, All, Bytes, is_empty, is_space, trim_left, trim_right, trim_space,
}

abbrev pub quoted : Bytes → Bytes
quoted f = double_quote ∷ (f ++ double_quote ∷ [])

-- The fields behind the first, each with its comma.
abbrev pub more_fields : List Bytes → Bytes
more_fields [] = []
more_fields (f ∷ fs) = b',' ∷ (quoted f ++ more_fields fs)

-- A line with a field at least, without the end of the line.
abbrev pub csv_line : Bytes → List Bytes → Bytes
csv_line f fs = quoted f ++ more_fields fs

abbrev pub NoQuote : Bytes → Type 0
NoQuote f = All (λ c. (c == double_quote) ≡ false) f

in_quotes-field :
    (f cur rest : Bytes)
    → NoQuote f
    → csv_loop true cur (f ++ double_quote ∷ rest) ≡ csv_loop false (cur ++ f) rest
unfolding csv_loop
in_quotes-field [] cur rest h = ap (λ r. csv_loop false r rest) (sym (append-nil cur))
in_quotes-field (c ∷ f) cur rest h =
    let step : csv_loop true cur (c ∷ (f ++ double_quote ∷ rest))
        ≡ csv_loop true (cur ++ c ∷ []) (f ++ double_quote ∷ rest) =
      ground (arith, h.0) in
    step
    ∙ in_quotes-field f (cur ++ c ∷ []) rest h.1
    ∙ ap (λ r. csv_loop false r rest) (append_assoc cur (c ∷ []) f)

quoted-field :
    (f rest : Bytes) → NoQuote f → csv_loop false [] (quoted f ++ rest) ≡ csv_loop false f rest
unfolding csv_loop
quoted-field f rest h =
    ap (λ r. csv_loop true [] r) (append_assoc f (double_quote ∷ []) rest)
    ∙ in_quotes-field f [] rest h

csv_loop-more :
    (f : Bytes) (fs : List Bytes)
    → All NoQuote fs
    → csv_loop false f (more_fields fs) ≡ trim_space f ∷ map trim_space fs
unfolding csv_loop
csv_loop-more f [] h = refl
csv_loop-more f (g ∷ fs) h =
    ap (λ r. trim_space f ∷ r) (quoted-field g (more_fields fs) h.0 ∙ csv_loop-more g fs h.1)

-- The last byte of a line is its last quote.
ends_quoted : (f : Bytes) (fs : List Bytes) → (s : Bytes) × (csv_line f fs ≡ s ++ double_quote ∷ [])
ends_quoted f [] = (double_quote ∷ f, append-nil _)
ends_quoted f (g ∷ fs) =
    let (s, e) = ends_quoted g fs in
    (
      quoted f ++ b',' ∷ s,
      ap (λ r. quoted f ++ b',' ∷ r) e ∙ sym (append_assoc (quoted f) (b',' ∷ s) _),
    )

is_empty-snoc : (s : Bytes) (c : ℕ) → is_empty (s ++ c ∷ []) ≡ false
is_empty-snoc [] c = refl
is_empty-snoc (d ∷ s) c = refl

trim_right-solid :
    (s : Bytes) (tail : Bytes)
    → trim_right tail ≡ []
    → trim_right (s ++ double_quote ∷ tail) ≡ s ++ double_quote ∷ []
unfolding trim_right is_space
trim_right-solid [] tail h = rw h refl
trim_right-solid (c ∷ s) tail h = rw (trim_right-solid s tail h, is_empty-snoc s double_quote) refl

-- A line is trimmed to its fields: what stands behind the last quote are the marks of its end.
trim_space-line :
    (f : Bytes) (fs : List Bytes) (tail : Bytes)
    → trim_right tail ≡ []
    → trim_space (csv_line f fs ++ tail) ≡ csv_line f fs
unfolding trim_space trim_left is_space
trim_space-line f fs tail h =
    let (s, e) = ends_quoted f fs in
    let start : trim_space (csv_line f fs ++ tail) ≡ trim_right (csv_line f fs ++ tail) = refl in
    start
    ∙ ap (λ r. trim_right (r ++ tail)) e
    ∙ ap trim_right (append_assoc s (double_quote ∷ []) tail)
    ∙ trim_right-solid s tail h
    ∙ sym e

-- A line of fields without quotes that is valid UTF-8 is read as its fields, each without the white space around it;
-- the white space behind the line, such as a carriage return, is dropped.
pub parse_csv_line-csv_line :
    (f : Bytes) (fs : List Bytes) (tail : Bytes)
    → All NoQuote (f ∷ fs)
    → to_valid (csv_line f fs) ≡ csv_line f fs
    → trim_right tail ≡ []
    → parse_csv_line (csv_line f fs ++ tail) ≡ map trim_space (f ∷ fs)
unfolding parse_csv_line
parse_csv_line-csv_line f fs tail h valid space =
    ap (λ s. csv_loop false [] (to_valid s)) (trim_space-line f fs tail space)
    ∙ ap (csv_loop false []) valid
    ∙ quoted-field f (more_fields fs) h.0
    ∙ csv_loop-more f fs h.1
