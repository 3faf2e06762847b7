-- ===== src/Sysinfo/State.antt =====
-- The state of the system, its network interfaces and its environment (internal/sysinfo/sysinfo.go,
-- `GetSysInfo`, `GetNetInfo`, `GetEnvVars`). What the system itself says is an argument; the hours
-- since the start are kept as the text of their number.
use lokifix.Prelude.Int.{ℤ, pos}
use lokifix.Dict
use lokifix.World.{World}
use lokifix.Executor.{Processes, run}
use lokifix.Protocol.Message.{SysInfoResult, NetInterface, ShellExecResult}
use lokifix.Sysinfo.{exited_well, double_quote}
use lokifix.Prelude.{
  ℕ, Bool, ◌&&◌, ◌||◌, Option, none, some, List, [], ◌∷◌, ◌++◌, ◌==◌, if◌then◌else◌, Bytes, codes,
  is_empty, trim_space, split, cut_at, contains,
}

-- `strings.Trim(s, "\",")`
abbrev is_mark : ℕ → Bool
is_mark c = c == double_quote || c == b','

unfoldable pub trim_marks_left : Bytes → Bytes
trim_marks_left [] = []
trim_marks_left (c ∷ s) = if is_mark c then trim_marks_left s else c ∷ s

unfoldable pub trim_marks_right : Bytes → Bytes
trim_marks_right [] = []
trim_marks_right (c ∷ s) =
    let r = trim_marks_right s in if is_empty r && is_mark c then [] else c ∷ r

unfoldable pub value_after : Option (Bytes × Bytes) → Bytes
unfolding trim_marks_left trim_marks_right trim_space
value_after none = []
value_after (some (key, rest)) = trim_marks_right (trim_marks_left (trim_space rest))

unfoldable pub extract_json_string : Bytes → Bytes
unfolding value_after cut_at
extract_json_string line = value_after (cut_at b':' line)

-- `parse_int` is `strconv.ParseInt` without its error. It reads an empty text as 0.
unfoldable pub extract_json_int : (Bytes → ℤ) → Bytes → ℤ
unfolding extract_json_string
extract_json_int parse_int line = parse_int (extract_json_string line)

abbrev quoted : Bytes → Bytes
quoted key = double_quote ∷ key ++ double_quote ∷ []

-- One line of what PowerShell prints.
unfoldable pub read_line : (Bytes → ℤ) → Bytes → SysInfoResult → SysInfoResult
unfolding extract_json_string extract_json_int contains
read_line parse_int line r =
    if contains line (quoted (codes "Version"))
    then record r { version = extract_json_string line }
    else if contains line (quoted (codes "MemTotal"))
    then record r { memory_total_mb = extract_json_int parse_int line }
    else if contains line (quoted (codes "MemFree"))
    then record r { memory_free_mb = extract_json_int parse_int line }
    else if contains line (quoted (codes "UptimeHours"))
    then record r { uptime_hours = extract_json_string line }
    else r

unfoldable pub read_lines : (Bytes → ℤ) → List Bytes → SysInfoResult → SysInfoResult
unfolding read_line trim_space
read_lines parse_int [] r = r
read_lines parse_int (line ∷ lines) r =
    read_lines parse_int lines (read_line parse_int (trim_space line) r)

abbrev sys_info_command : Bytes
sys_info_command =
    codes
      "\n$os = Get-CimInstance Win32_OperatingSystem\n$uptime = (Get-Date) - $os.LastBootUpTime\n@{\n    Version = $os.Caption + ' ' + $os.Version\n    MemTotal = [math]::Round($os.TotalVisibleMemorySize / 1024)\n    MemFree = [math]::Round($os.FreePhysicalMemory / 1024)\n    UptimeHours = [math]::Round($uptime.TotalHours, 2)\n} | ConvertTo-Json"

abbrev read_output : (Bytes → ℤ) → ShellExecResult → SysInfoResult → SysInfoResult
read_output parse_int out r =
    if exited_well out then read_lines parse_int (split 10 (trim_space out.stdout)) r else r

-- `GetSysInfo`, from what Go's runtime tells on.
unfoldable pub get_sys_info :
    (Bytes → ℤ) → Processes → SysInfoResult → World → World × SysInfoResult
unfolding read_lines run
get_sys_info parse_int os known w =
    let (w', out) = run os sys_info_command (codes "powershell") (pos 10) w in
    (w', read_output parse_int out known)

-- An interface as the package `net` shows it; `addrs` is `none` where they cannot be read.
pub record Interface : Type 0 where
  pub name : Bytes
  pub loopback : Bool
  pub up : Bool
  pub addrs : Option (List Bytes)

unfoldable pub net_interface : Interface → List Bytes → NetInterface
net_interface i addrs = record {
  name = i.name;
  addrs = addrs;
  status = if i.up then codes "up" else codes "down";
}

unfoldable pub known_addrs : Interface → Option (List Bytes) → List NetInterface
unfolding net_interface
known_addrs i none = []
known_addrs i (some addrs) = net_interface i addrs ∷ []

-- `GetNetInfo`; where the interfaces cannot be listed there are none.
unfoldable pub get_net_info : List Interface → List NetInterface
unfolding known_addrs
get_net_info [] = []
get_net_info (i ∷ is) =
    let rest = get_net_info is in if i.loopback then rest else known_addrs i i.addrs ++ rest

unfoldable pub add_variable : Option (Bytes × Bytes) → List (Bytes × Bytes) → List (Bytes × Bytes)
add_variable none m = m
add_variable (some (k, v)) m = Dict.insert k v m

-- The loop of `GetEnvVars`.
unfoldable pub env_loop : List (Bytes × Bytes) → List Bytes → List (Bytes × Bytes)
unfolding add_variable cut_at
env_loop m [] = m
env_loop m (e ∷ es) = env_loop (add_variable (cut_at b'=' e) m) es

unfoldable pub get_env_vars : List Bytes → List (Bytes × Bytes)
unfolding env_loop
get_env_vars environ = env_loop [] environ
