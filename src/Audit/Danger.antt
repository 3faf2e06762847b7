-- ===== src/Audit/Danger.antt =====
-- The tests for dangerous commands and protected paths (internal/audit/dangerous.go). `(true, p)` of
-- the source is `some p`. Lower case is that of ASCII.
use lokifix.Prelude.{
  ◌≡◌, refl, ap, ◌∙◌, ◌≢◌, ◌↔◌, inl, inr, true, Option, none, some, List, [], ◌∷◌, ◌++◌,
  append_assoc, arith, if◌then◌else◌, Bool-cases, All, Bytes, codes, lower, to_lower, to_lower_idem,
  contains, contains_sound, contains_complete,
}

abbrev pub dangerous_patterns : List Bytes
dangerous_patterns =
    codes "rm "
    ∷ codes "rm\t"
    ∷ codes "rmdir"
    ∷ codes "del "
    ∷ codes "del\t"
    ∷ codes "format "
    ∷ codes "format\t"
    ∷ codes "Remove-Item"
    ∷ codes "Remove-"
    ∷ codes "Clear-Content"
    ∷ codes "Stop-Service"
    ∷ codes "Stop-Process"
    ∷ codes "Restart-Service"
    ∷ codes "Restart-Computer"
    ∷ codes "Set-ItemProperty"
    ∷ codes "New-ItemProperty"
    ∷ codes "Remove-ItemProperty"
    ∷ codes "Disable-NetAdapter"
    ∷ codes "diskpart"
    ∷ codes "cipher /w"
    ∷ codes "reg delete"
    ∷ codes "reg add"
    ∷ codes "net stop"
    ∷ codes "net user"
    ∷ codes "sc delete"
    ∷ codes "sc stop"
    ∷ codes "shutdown"
    ∷ codes "taskkill"
    ∷ codes "bcdedit"
    ∷ codes "sfc "
    ∷ codes "dism "
    ∷ codes "wmic os"
    ∷ codes "wmic process call terminate"
    ∷ []

abbrev pub dangerous_file_paths : List Bytes
dangerous_file_paths =
    codes "C:\\Windows\\"
    ∷ codes "C:\\Program Files\\"
    ∷ codes "C:\\Program Files (x86)\\"
    ∷ codes "C:\\ProgramData\\"
    ∷ codes "\\System32\\"
    ∷ codes "\\SysWOW64\\"
    ∷ codes "\\drivers\\"
    ∷ codes ".exe"
    ∷ codes ".dll"
    ∷ codes ".sys"
    ∷ codes ".bat"
    ∷ codes ".cmd"
    ∷ codes ".ps1"
    ∷ codes ".reg"
    ∷ codes "hosts"
    ∷ []

-- The first pattern that a text in lower case contains.
unfoldable pub first_pattern : List Bytes → Bytes → Option Bytes
unfolding contains
first_pattern [] low = none
first_pattern (p ∷ ps) low = if contains low (to_lower p) then some p else first_pattern ps low

unfoldable pub is_dangerous_command : Bytes → Option Bytes
unfolding first_pattern
is_dangerous_command command = first_pattern dangerous_patterns (to_lower command)

unfoldable pub is_dangerous_file_path : Bytes → Option Bytes
unfolding first_pattern
is_dangerous_file_path path = first_pattern dangerous_file_paths (to_lower path)

-- A text stands somewhere in another, upper and lower case being the same.
abbrev pub Inside : Bytes → Bytes → Type 0
Inside p s = (a b : Bytes) × (to_lower s ≡ a ++ (to_lower p ++ b))

contains-Inside : (s p : Bytes) → (contains (to_lower s) (to_lower p) ≡ true) ↔ Inside p s
contains-Inside s p = (
  contains_sound (to_lower s) (to_lower p),
  λ (a, b, e). rw e (contains_complete a (to_lower p) b),
)

first_pattern-none :
    (ps : List Bytes) (s : Bytes)
    → (first_pattern ps (to_lower s) ≡ none) ↔ All (λ p. ¬ Inside p s) ps
unfolding first_pattern
first_pattern-none [] s = (λ h. tt, λ h. refl)
first_pattern-none (p ∷ ps) s = elim (Bool-cases (contains (to_lower s) (to_lower p))) [
  | inl e ↦ (λ h. absurd (ground (arith, e)), λ h. absurd (h.0 ((contains-Inside s p).0 e)))
  | inr e ↦ (
    λ h. (
      λ i. absurd (ground (arith, (contains-Inside s p).1 i)),
      (first_pattern-none ps s).0 (ground arith),
    ),
    λ h. ground (arith, (first_pattern-none ps s).1 h.1),
  )
]

-- A command needs no confirmation exactly if none of the patterns stands in it, and a path exactly
-- if none of the protected parts does, upper and lower case being the same.
pub is_dangerous_iff :
    (s : Bytes)
    → ((is_dangerous_command s ≡ none) ↔ All (λ p. ¬ Inside p s) dangerous_patterns)
      × ((is_dangerous_file_path s ≡ none) ↔ All (λ p. ¬ Inside p s) dangerous_file_paths)
unfolding is_dangerous_command is_dangerous_file_path
is_dangerous_iff s =
    (first_pattern-none dangerous_patterns s, first_pattern-none dangerous_file_paths s)

to_lower-append : (s t : Bytes) → to_lower (s ++ t) ≡ to_lower s ++ to_lower t
to_lower-append [] t = refl
to_lower-append (c ∷ s) t = ap (λ r. lower c ∷ r) (to_lower-append s t)

widened :
    (a u p v b : Bytes) {s : Bytes}
    → s ≡ u ++ (p ++ v)
    → a ++ (s ++ b) ≡ (a ++ u) ++ (p ++ (v ++ b))
widened a u p v b e = rw e (simp append_assoc)

Inside-within : (a b p s : Bytes) → Inside p s → Inside p (a ++ (s ++ b))
Inside-within a b p s (u, v, e) =
    let all : to_lower (a ++ (s ++ b)) ≡ to_lower a ++ (to_lower s ++ to_lower b) =
      rw (to_lower-append a (s ++ b), to_lower-append s b) in
    (to_lower a ++ u, v ++ to_lower b, all ∙ widened (to_lower a) u (to_lower p) v (to_lower b) e)

All-outside :
    (a b s : Bytes) (ps : List Bytes)
    → All (λ p. ¬ Inside p (a ++ (s ++ b))) ps
    → All (λ p. ¬ Inside p s) ps
All-outside a b s [] h = tt
All-outside a b s (p ∷ ps) h = (λ i. h.0 (Inside-within a b p s i), All-outside a b s ps h.1)

-- What is dangerous by itself is dangerous with any text before and behind it, and writing it in
-- lower case changes nothing.
pub is_dangerous_within :
    (a s b : Bytes)
    → (is_dangerous_command s ≢ none → is_dangerous_command (a ++ (s ++ b)) ≢ none)
      × (is_dangerous_file_path s ≢ none → is_dangerous_file_path (a ++ (s ++ b)) ≢ none)
      × (is_dangerous_command (to_lower s) ≡ is_dangerous_command s)
      × (is_dangerous_file_path (to_lower s) ≡ is_dangerous_file_path s)
is_dangerous_within a s b =
    let iff = is_dangerous_iff s in
    let within = is_dangerous_iff (a ++ (s ++ b)) in
    (
      λ h e. h (iff.0.1 (All-outside a b s dangerous_patterns (within.0.0 e))),
      λ h e. h (iff.1.1 (All-outside a b s dangerous_file_paths (within.1.0 e))),
      unfold is_dangerous_command in rw to_lower_idem,
      unfold is_dangerous_file_path in rw to_lower_idem,
    )
