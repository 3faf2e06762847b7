-- ===== src/Sysinfo/Quoting.antt =====
-- A client's text inside a command for PowerShell: what the quotes around it are worth, and the
-- other parts of the commands that a client may choose.
use lokifix.Prelude.Int.{ℤ, pos, negsuc}
use lokifix.Sysinfo.{
  escape_ps_string, quote, validate_safe_string, is_in, forbidden, log_name_of, max_items_of,
  allowed_logs, registry_command,
}
use lokifix.Prelude.{
  is_listed, ℕ, ◌≤◌, ◌≡◌, refl, sym, ap, ◌∙◌, ◌≢◌, inl, inr, true, false, Option, none, some, [],
  ◌∷◌, ◌++◌, append-nil, append_assoc, arith, leb, ◌==◌, ◌&&◌, if◌then◌else◌, ==_iff, Bool-cases,
  All, All-append, Bytes, codes, eq_bytes, replace_byte,
}

-- The rest of a text in single quotes, by PowerShell's rules for quoting: a quote that is doubled
-- is a character of the text, any other ends it. The result is the text and what follows the end.
unfoldable pub read_quoted : Bytes → Bytes → Option (Bytes × Bytes)
read_quoted cur [] = none
read_quoted cur (c ∷ []) = if c == quote then some (cur, []) else none
read_quoted cur (c ∷ d ∷ s) =
    let double = read_quoted (cur ++ quote ∷ []) s in
    let add = read_quoted (cur ++ c ∷ []) (d ∷ s) in
    if c == quote then (if d == quote then double else some (cur, d ∷ s)) else add

-- PowerShell takes the quotes U+2018 to U+201B for the ASCII quote.
unfoldable pub ascii_quotes : Bytes → Bytes
ascii_quotes [] = []
ascii_quotes (c ∷ []) = c ∷ []
ascii_quotes (c ∷ d ∷ []) = c ∷ d ∷ []
ascii_quotes (c ∷ d ∷ e ∷ s) =
    let quoted = quote ∷ ascii_quotes s in
    let other = c ∷ ascii_quotes (d ∷ e ∷ s) in
    if c == 226 && (d == 128 && (leb 152 e && leb e 155)) then quoted else other

-- A text without characters from U+2000 to U+2FFF, to which those quotes belong.
abbrev pub IsPlain : Bytes → Type 0
IsPlain s = All (λ c. c ≢ 226) s

ascii_quotes-other :
    (c : ℕ) (s : Bytes) → (c == 226) ≡ false → ascii_quotes (c ∷ s) ≡ c ∷ ascii_quotes s
unfolding ascii_quotes
ascii_quotes-other c [] h = refl
ascii_quotes-other c (d ∷ []) h = refl
ascii_quotes-other c (d ∷ e ∷ s) h = rw h refl

ascii_quotes-IsPlain : (s : Bytes) → IsPlain s → ascii_quotes s ≡ s
ascii_quotes-IsPlain [] h = unfold ascii_quotes in refl
ascii_quotes-IsPlain (c ∷ s) h =
    let miss : (c == 226) ≡ false = ground (arith, h.0) in
    ascii_quotes-other c s miss ∙ ap (λ r. c ∷ r) (ascii_quotes-IsPlain s h.1)

-- The text that stands behind the closing quote does not begin with a quote.
abbrev pub Apart : Bytes → Type 0
Apart [] = Unit
Apart (c ∷ s) = (c == quote) ≡ false

closing : (cur rest : Bytes) → Apart rest → read_quoted cur (quote ∷ rest) ≡ some (cur, rest)
unfolding read_quoted
closing cur [] h = refl
closing cur (c ∷ rest) h = rw h refl

adding :
    (c : ℕ) (x cur rest : Bytes)
    → (c == quote) ≡ false
    → read_quoted cur (c ∷ (x ++ quote ∷ rest)) ≡ read_quoted (cur ++ c ∷ []) (x ++ quote ∷ rest)
unfolding read_quoted
adding c [] cur rest h = rw h refl
adding c (d ∷ x) cur rest h = rw h refl

escape_ps_string-quote :
    (s : Bytes) → escape_ps_string (quote ∷ s) ≡ quote ∷ quote ∷ escape_ps_string s
unfolding escape_ps_string replace_byte
escape_ps_string-quote s = refl

escape_ps_string-other :
    (c : ℕ) (s : Bytes) → (c == quote) ≡ false → escape_ps_string (c ∷ s) ≡ c ∷ escape_ps_string s
unfolding escape_ps_string replace_byte
escape_ps_string-other c s h = rw h refl

read_quoted-doubled :
    (x cur : Bytes) → read_quoted cur (quote ∷ quote ∷ x) ≡ read_quoted (cur ++ quote ∷ []) x
unfolding read_quoted
read_quoted-doubled x cur = refl

read_quoted-from :
    (s cur rest : Bytes)
    → Apart rest
    → read_quoted cur (escape_ps_string s ++ quote ∷ rest) ≡ some (cur ++ s, rest)
unfolding replace_byte
read_quoted-from [] cur rest h = unfold escape_ps_string in rw append-nil (closing cur rest h)
read_quoted-from (c ∷ s) cur rest h = elim (Bool-cases (c == quote)) [
  | inl e ↦
      let same : c ≡ quote = (==_iff c quote).0 e in
      ap (λ x. read_quoted cur (x ++ quote ∷ rest))
        (ap (λ d. escape_ps_string (d ∷ s)) same ∙ escape_ps_string-quote s)
      ∙ read_quoted-doubled (escape_ps_string s ++ quote ∷ rest) cur
      ∙ read_quoted-from s (cur ++ quote ∷ []) rest h
      ∙ ap (λ t. some (t, rest))
          (append_assoc cur (quote ∷ []) s ∙ ap (λ d. cur ++ d ∷ s) (sym same))
  | inr e ↦
      ap (λ x. read_quoted cur (x ++ quote ∷ rest)) (escape_ps_string-other c s e)
      ∙ adding c (escape_ps_string s) cur rest e
      ∙ read_quoted-from s (cur ++ c ∷ []) rest h
      ∙ ap (λ t. some (t, rest)) (append_assoc cur (c ∷ []) s)
]

-- Whatever text is escaped and put in quotes is read as that text, and the command goes on where
-- the program meant it to.
pub read_quoted-escape_ps_string :
    (s rest : Bytes)
    → Apart rest
    → read_quoted [] (escape_ps_string s ++ quote ∷ rest) ≡ some (s, rest)
read_quoted-escape_ps_string s rest h = read_quoted-from s [] rest h

is_in_sound : (c : ℕ) (ds : Bytes) → is_in c ds ≡ false → All (λ d. (c == d) ≡ false) ds
unfolding is_in
is_in_sound c [] h = tt
is_in_sound c (d ∷ ds) h = (ground arith, is_in_sound c ds (ground arith))

-- A name in which `validate_safe_string` finds nothing forbidden consists of other characters.
pub validate_safe_string-none :
    (s : Bytes) → validate_safe_string s ≡ none → All (λ c. All (λ d. (c == d) ≡ false) forbidden) s
unfolding validate_safe_string
validate_safe_string-none [] h = tt
validate_safe_string-none (c ∷ s) h = elim (Bool-cases (is_in c forbidden)) [
  | inl e ↦ absurd (ground (arith, e))
  | inr e ↦ (is_in_sound c forbidden e, validate_safe_string-none s (ground (arith, e)))
]

system_is_listed : is_listed (codes "System") allowed_logs ≡ true
unfolding is_listed eq_bytes
system_is_listed = refl

log_name_of_listed : (name : Bytes) → is_listed (log_name_of name) allowed_logs ≡ true
unfolding log_name_of
log_name_of_listed name = elim (Bool-cases (is_listed name allowed_logs)) [
  | inl e ↦ ap (λ n. is_listed n allowed_logs) (rw (log_name_of, e) refl) ∙ e
  | inr e ↦ ap (λ n. is_listed n allowed_logs) (rw (log_name_of, e) refl) ∙ system_is_listed
]

-- Whatever a client asks for, the event log is one of the three allowed, and between 1 and 500
-- events are read.
pub event_filter_bounds :
    (name : Bytes) (max_items : ℤ)
    → (is_listed (log_name_of name) allowed_logs ≡ true)
      × (1 ≤ max_items_of max_items)
      × (max_items_of max_items ≤ 500)
unfolding max_items_of
event_filter_bounds name (pos n) = (log_name_of_listed name, ground arith, ground arith)
event_filter_bounds name (negsuc n) = (log_name_of_listed name, omega arith, omega arith)

abbrev pub get_value : Bytes
get_value = codes "; (Get-ItemProperty -Path $k).$v"

abbrev pub get_all : Bytes
get_all = codes "Get-ItemProperty -Path $k | ConvertTo-Json -Depth 2"

escape_ps_string-IsPlain : (s : Bytes) → IsPlain s → IsPlain (escape_ps_string s)
escape_ps_string-IsPlain [] h = unfold escape_ps_string replace_byte in tt
escape_ps_string-IsPlain (c ∷ s) h = elim (Bool-cases (c == quote)) [
  | inl e ↦
      let same : c ≡ quote = (==_iff c quote).0 e in
      rw (same, escape_ps_string-quote s)
        (omega arith, (omega arith, escape_ps_string-IsPlain s h.1))
  | inr e ↦ rw (escape_ps_string-other c s e) (h.0, escape_ps_string-IsPlain s h.1)
]

-- What PowerShell reads of a text in quotes, up to the closing quote and behind it.
read_plain :
    (s rest : Bytes)
    → IsPlain s
    → IsPlain rest
    → Apart rest
    → read_quoted [] (ascii_quotes (escape_ps_string s ++ quote ∷ rest)) ≡ some (s, rest)
read_plain s rest h k a =
    ap (read_quoted []) (
      ascii_quotes-IsPlain (escape_ps_string s ++ quote ∷ rest) (
        All-append (λ c. c ≢ 226) (escape_ps_string s) (quote ∷ rest) (escape_ps_string-IsPlain s h)
          (omega arith, k)))
    ∙ read_quoted-escape_ps_string s rest a

get_value-IsPlain : IsPlain get_value
get_value-IsPlain = omega arith

-- The command that reads a registry key sets `$k` to the key and, if there is a name, `$v` to the
-- name, if neither has a character from U+2000 to U+2FFF, to which PowerShell's other quotes belong,
-- and goes on with what the program meant to run.
pub registry_command_lem :
    (key name : Bytes)
    → IsPlain key
    → IsPlain name
    → (t rest : Bytes) × (registry_command key name ≡ codes "$k = '" ++ t)
      × (read_quoted [] (ascii_quotes t) ≡ some (key, codes "; " ++ rest))
      × ((name ≡ [] → rest ≡ get_all)
          × (name ≢ []
              → (u : Bytes) × (rest ≡ codes "$v = '" ++ u)
                × (read_quoted [] (ascii_quotes u) ≡ some (name, get_value))))
unfolding registry_command
registry_command_lem key [] h k =
    let rest = codes "; " ++ get_all in
    (
      escape_ps_string key ++ quote ∷ rest,
      get_all,
      refl,
      read_plain key rest h (omega arith) refl,
      (λ h. refl, λ h. absurd (h refl)),
    )
registry_command_lem key (c ∷ name) h k =
    let u = escape_ps_string (c ∷ name) ++ quote ∷ get_value in
    let rest = codes "; " ++ (codes "$v = '" ++ u) in
    let plain : IsPlain u =
      All-append (λ c. c ≢ 226) (escape_ps_string (c ∷ name)) (quote ∷ get_value)
        (escape_ps_string-IsPlain (c ∷ name) k) (omega arith, get_value-IsPlain) in
    (
      escape_ps_string key ++ quote ∷ rest,
      codes "$v = '" ++ u,
      refl,
      read_plain key rest h (All-append (λ c. c ≢ 226) (codes "; $v = '") u (omega arith) plain)
          refl,
      (
        λ h. absurd (ground (arith, h)),
        λ h. (u, refl, read_plain (c ∷ name) get_value k get_value-IsPlain refl),
      ),
    )
