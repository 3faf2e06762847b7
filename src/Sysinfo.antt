-- ===== src/Sysinfo.antt =====
-- What the agent reports of its system (internal/sysinfo/sysinfo.go): commands for PowerShell made
-- of a client's texts, and the reading of the CSV that it prints.
pub mod Csv
pub mod State
pub mod Quoting
pub mod Tests
use lokifix.Prelude.Int.{ℤ, pos, negsuc, ltb_ℤ}
use lokifix.World.{World, Io, Result, ok, err}
use lokifix.Protocol.Message.{
  ProcessEntry, ServiceEntry, EventLogEntry, InstalledSoftwareEntry, ShellExecResult, Error,
  invalid_registry_key, invalid_value_name, registry_failed,
}
use lokifix.Executor.{Processes, run}
use lokifix.Prelude.{
  is_listed, ℕ, zero, suc, ◌+◌, ◌-◌, ◌*◌, ◌/◌, ◌%◌, ◌^◌, ◌≤◌, ◌<◌, ◌≡◌, refl, sym, ap, ap₂, subst,
  ◌∙◌, ◌≢◌, ◌↔◌, ◌⊎◌, inl, inr, Bool, true, false, not, ◌&&◌, ◌||◌, Option, none, some, List, [],
  ◌∷◌, ◌++◌, map, append-nil, append_assoc, arith, ltb, leb, ◌==◌, if◌then◌else◌, ltb→lt, lt→ltb,
  leb→le, ==_iff, Bool-cases, Option-cases, length, get_elem?, length-append, take, drop, replicate,
  length-take, length-drop, length-replicate, take-append-drop, take-append, take_all, take_nil,
  nil_of_length, length-map, All, All-append, Bytes, codes, eq_bytes, eq_bytes_iff, eq_bytes_refl,
  eq_bytes→eq, is_empty, lower, upper, to_lower, to_upper, to_lower_idem, is_space, trim_left,
  trim_right, trim_space, split_on, split, push_left, cut_at, replace_byte, join, show_nat,
  has_prefix, contains, has_prefix_sound, has_prefix_complete, contains_sound, contains_complete,
}

abbrev pub quote : ℕ
quote = 39

abbrev pub double_quote : ℕ
double_quote = 34

-- The loop of `parseCSVLine`: `cur` is the field so far.
-- How a text is read rune by rune: what is no valid UTF-8 becomes U+FFFD, byte by byte.
unfoldable pub continues : ℕ → Bytes → Bool
continues zero s = true
continues (suc n) [] = false
continues (suc n) (c ∷ s) = leb 128 c && (leb c 191 && continues n s)

-- `n` bytes that go on with a rune, the first of them in the given range.
unfoldable pub rune_tail : ℕ → ℕ → ℕ → Bytes → Option ℕ
unfolding continues
rune_tail n low high [] = none
rune_tail n low high (c ∷ s) =
    if leb low c && (leb c high && continues (n - 1) s) then some n else none

-- How many bytes of `s` belong to a rune that begins with `c`.
unfoldable pub rune_size : ℕ → Bytes → Option ℕ
unfolding rune_tail
rune_size c s =
    if ltb c 128
    then some 0
    else if ltb c 194
    then none
    else if ltb c 224
    then rune_tail 1 128 191 s
    else if ltb c 240
    then rune_tail 2 (if c == 224 then 160 else 128) (if c == 237 then 159 else 191) s
    else if ltb c 245
    then rune_tail 3 (if c == 240 then 144 else 128) (if c == 244 then 143 else 191) s
    else none

-- The first bytes of the text that are told off are copied.
unfoldable pub valid_from : ℕ → Bytes → Bytes
unfolding rune_size
valid_from n [] = []
valid_from (suc n) (c ∷ s) = c ∷ valid_from n s
valid_from zero (c ∷ s) = elim (rune_size c s) [
  | none ↦ 239 ∷ 191 ∷ 189 ∷ valid_from 0 s
  | some n ↦ c ∷ valid_from n s
]

unfoldable pub to_valid : Bytes → Bytes
unfolding valid_from
to_valid s = valid_from 0 s

-- The loop over a valid text. The two marks are no part of a longer rune, so that all bytes of other
-- runes are copied.
unfoldable pub csv_loop : Bool → Bytes → Bytes → List Bytes
unfolding trim_space
csv_loop in_quotes cur [] = trim_space cur ∷ []
csv_loop in_quotes cur (c ∷ s) =
    let flip = csv_loop (not in_quotes) cur s in
    let next = trim_space cur ∷ csv_loop in_quotes [] s in
    let add = csv_loop in_quotes (cur ++ c ∷ []) s in
    if c == double_quote then flip else if c == b',' && not in_quotes then next else add

unfoldable pub parse_csv_line : Bytes → List Bytes
unfolding csv_loop to_valid
parse_csv_line line = csv_loop false [] (to_valid (trim_space line))

-- The lines behind the header, each with its fields.
unfoldable pub behind {ℓ} : {A : Type ℓ} → List A → List A
behind [] = []
behind (x ∷ xs) = xs

unfoldable pub csv_rows : Bytes → List (List Bytes)
unfolding parse_csv_line split behind
csv_rows stdout = map parse_csv_line (behind (split 10 (trim_space stdout)))

-- The rows that have enough fields, as entries.
unfoldable pub services_of : List (List Bytes) → List ServiceEntry
services_of [] = []
services_of ((a ∷ b ∷ c ∷ more) ∷ rows) =
    record { name = a; status = b; start = c } ∷ services_of rows
services_of (short ∷ rows) = services_of rows

unfoldable pub software_of : List (List Bytes) → List InstalledSoftwareEntry
software_of [] = []
software_of ((a ∷ b ∷ c ∷ more) ∷ rows) =
    record { name = a; version = b; vendor = c } ∷ software_of rows
software_of (short ∷ rows) = software_of rows

unfoldable pub events_of : List (List Bytes) → List EventLogEntry
events_of [] = []
events_of ((a ∷ b ∷ c ∷ d ∷ more) ∷ rows) =
    record { time_created = a; level = b; source = c; message = d } ∷ events_of rows
events_of (short ∷ rows) = events_of rows

-- `atoi` is `strconv.Atoi` with 0 for an error that is out of its range or no number.
unfoldable pub processes_of : (Bytes → ℤ) → List (List Bytes) → List ProcessEntry
processes_of atoi [] = []
processes_of atoi ((a ∷ b ∷ c ∷ d ∷ more) ∷ rows) =
    record { pid = atoi a; name = b; cpu = c; mem_mb = d } ∷ processes_of atoi rows
processes_of atoi (short ∷ rows) = processes_of atoi rows

abbrev pub exited_well : ShellExecResult → Bool
exited_well r = elim r.exit_code [ pos n ↦ n == 0 | negsuc n ↦ false ]

-- The entries that a command prints; `nil` where it fails.
unfoldable pub entries_of :
    {A : Type 0} → (List (List Bytes) → List A) → World × ShellExecResult → World × List A
unfolding csv_rows
entries_of f (w, r) = (w, if exited_well r then f (csv_rows r.stdout) else [])

abbrev services_command : Bytes
services_command =
    codes "Get-Service | Select-Object Name, Status, StartType | ConvertTo-Csv -NoTypeInformation"

unfoldable pub get_services : Processes → World → World × List ServiceEntry
unfolding entries_of services_of run
get_services os w = entries_of services_of (run os services_command (codes "powershell") (pos 15) w)

abbrev processes_command : Bytes
processes_command =
    codes "Get-Process | Sort-Object CPU -Descending | Select-Object -First 50 Id, ProcessName, "
    ++ codes "@{N='CPU';E={[math]::Round($_.CPU,1)}}, "
    ++ codes "@{N='MemMB';E={[math]::Round($_.WorkingSet64/1MB,1)}} "
    ++ codes "| ConvertTo-Csv -NoTypeInformation"

unfoldable pub get_processes : (Bytes → ℤ) → Processes → World → World × List ProcessEntry
unfolding entries_of processes_of run
get_processes atoi os w =
    entries_of (processes_of atoi) (run os processes_command (codes "powershell") (pos 15) w)

abbrev software_command : Bytes
software_command =
    codes "\n$paths = @(\n"
    ++ codes "    'HKLM:\\SOFTWARE\\Microsoft\\Windows\\CurrentVersion\\Uninstall\\*',\n"
    ++ codes "    'HKLM:\\SOFTWARE\\WOW6432Node\\Microsoft\\Windows\\CurrentVersion\\"
    ++ codes "Uninstall\\*'\n)\n"
    ++ codes "Get-ItemProperty $paths -ErrorAction SilentlyContinue |\n"
    ++ codes "    Where-Object { $_.DisplayName } |\n"
    ++ codes "    Sort-Object DisplayName |\n"
    ++ codes "    Select-Object DisplayName, DisplayVersion, Publisher |\n"
    ++ codes "    ConvertTo-Csv -NoTypeInformation"

unfoldable pub get_installed_software : Processes → World → World × List InstalledSoftwareEntry
unfolding entries_of software_of run
get_installed_software os w =
    entries_of software_of (run os software_command (codes "powershell") (pos 15) w)

abbrev pub valid_registry_roots : List Bytes
valid_registry_roots =
    codes "HKLM:"
    ∷ codes "HKCU:"
    ∷ codes "HKCR:"
    ∷ codes "HKU:"
    ∷ codes "HKCC:"
    ∷ codes "HKEY_LOCAL_MACHINE:"
    ∷ codes "HKEY_CURRENT_USER:"
    ∷ codes "HKEY_CLASSES_ROOT:"
    ∷ codes "HKEY_USERS:"
    ∷ codes "HKEY_CURRENT_CONFIG:"
    ∷ []

unfoldable pub any_prefix : Bytes → List Bytes → Bool
any_prefix s [] = false
any_prefix s (p ∷ ps) = has_prefix s p || any_prefix s ps

unfoldable pub validate_registry_key : Bytes → Bool
unfolding any_prefix
validate_registry_key key =
    any_prefix (to_upper (replace_byte b'/' (92 ∷ []) key)) valid_registry_roots

abbrev pub forbidden : Bytes
forbidden = codes "'\";`$|&\n\r"

unfoldable pub is_in : ℕ → Bytes → Bool
is_in c [] = false
is_in c (d ∷ ds) = c == d || is_in c ds

-- The first character that is not allowed.
unfoldable pub validate_safe_string : Bytes → Option ℕ
unfolding is_in
validate_safe_string [] = none
validate_safe_string (c ∷ s) = if is_in c forbidden then some c else validate_safe_string s

unfoldable pub escape_ps_string : Bytes → Bytes
escape_ps_string s = replace_byte quote (quote ∷ quote ∷ []) s

unfoldable pub registry_command : Bytes → Bytes → Bytes
unfolding escape_ps_string
registry_command key value_name =
    let read =
      if is_empty value_name
      then codes "Get-ItemProperty -Path $k | ConvertTo-Json -Depth 2"
      else codes "$v = '"
        ++ (escape_ps_string value_name ++ codes "'; (Get-ItemProperty -Path $k).$v") in
    codes "$k = '" ++ (escape_ps_string key ++ (codes "'; " ++ read))

unfoldable pub registry_result : World × ShellExecResult → World × Result Bytes
registry_result (w, r) =
    (w, if exited_well r then ok (trim_space r.stdout) else err (registry_failed r.stderr))

unfoldable pub read_checked : Processes → Bytes → Bytes → Option ℕ → Io Bytes
unfolding registry_command registry_result run
read_checked os key value_name (some c) w = (w, err (invalid_value_name c))
read_checked os key value_name none w =
    registry_result (run os (registry_command key value_name) (codes "powershell") (pos 10) w)

-- `ReadRegistry`. An empty name is not looked at, and nothing in it would be forbidden.
unfoldable pub read_registry : Processes → Bytes → Bytes → Io Bytes
unfolding validate_registry_key validate_safe_string read_checked
read_registry os key value_name w =
    if validate_registry_key key
    then read_checked os key value_name (validate_safe_string value_name) w
    else (w, err invalid_registry_key)

abbrev pub allowed_logs : List Bytes
allowed_logs = codes "System" ∷ codes "Application" ∷ codes "Security" ∷ []

unfoldable pub log_name_of : Bytes → Bytes
unfolding is_listed
log_name_of name = if is_listed name allowed_logs then name else codes "System"

unfoldable pub max_items_of : ℤ → ℕ
max_items_of (pos n) = if n == 0 || ltb 500 n then 50 else n
max_items_of (negsuc n) = 50

unfoldable pub level_of : Bytes → Option Bytes
level_of level =
    if eq_bytes level (codes "Error")
    then some (codes "2")
    else if eq_bytes level (codes "Warning")
    then some (codes "3")
    else if eq_bytes level (codes "Information")
    then some (codes "4")
    else none

unfoldable pub event_filter : Bytes → ℤ → Bytes → Bytes
unfolding log_name_of max_items_of level_of
event_filter name max_items level = elim (level_of level) [
  | none ↦
      codes "-LogName '"
      ++ log_name_of name
      ++ codes "' -MaxEvents "
      ++ show_nat (max_items_of max_items)
  | some l ↦
      codes "-FilterHashtable @{LogName='"
      ++ log_name_of name
      ++ codes "'; Level="
      ++ l
      ++ codes "} -MaxEvents "
      ++ show_nat (max_items_of max_items)
]

abbrev event_command : Bytes → Bytes
event_command filter =
    codes "Get-WinEvent "
    ++ filter
    ++ codes " -ErrorAction SilentlyContinue | Select-Object TimeCreated, LevelDisplayName, "
    ++ codes "ProviderName, @{N='Msg';E={$_.Message -replace '[\\r\\n]+',' ' "
    ++ codes "| Select-Object -First 1}} | ConvertTo-Csv -NoTypeInformation"

unfoldable pub get_event_log : Processes → Bytes → ℤ → Bytes → World → World × List EventLogEntry
unfolding entries_of events_of event_filter run
get_event_log os name max_items level w =
    entries_of events_of
      (run os (event_command (event_filter name max_items level)) (codes "powershell") (pos 20) w)
