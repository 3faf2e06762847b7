-- ===== src/Executor.antt =====
-- Running a command (internal/executor/executor.go). What the process does is a parameter: the
-- system is given the program with its arguments and the time it has, in nanoseconds.
use lokifix.Prelude.Int.{ℤ, pos, negsuc}
use lokifix.Prelude.Int64.{wrap_int64}
use lokifix.World.{World}
use lokifix.Protocol.Message.{ShellExecResult}
use lokifix.Prelude.{
  ℕ, ◌*◌, Option, none, some, List, [], ◌∷◌, ◌++◌, ◌==◌, if◌then◌else◌, Bytes, codes, eq_bytes,
  to_lower,
}

-- Why `cmd.Run` reports an error: the process has exited with a code, the context ended, or it
-- could not be run, for a reason.
pub data Failure : Type 0 where
  exited : ℤ → Failure
  timed_out : Failure
  not_run : Bytes → Failure

pub record Outcome : Type 0 where
  pub stdout : Bytes
  pub stderr : Bytes
  pub failure : Option Failure

pub record Processes : Type 0 where
  pub spawn : List Bytes → ℤ → World → World × Outcome
  pub show_duration : ℤ → Bytes

abbrev pub second : ℕ
second = 1000000000

abbrev pub default_timeout : ℤ
default_timeout = pos (120 * second)

unfoldable pub timeout_of : ℤ → ℤ
unfolding wrap_int64
timeout_of (pos n) = if n == 0 then default_timeout else wrap_int64 (pos (n * second))
timeout_of (negsuc n) = default_timeout

unfoldable pub command_line : Bytes → Bytes → List Bytes
command_line command shell =
    if eq_bytes (to_lower shell) (codes "cmd")
    then codes "cmd.exe" ∷ codes "/C" ∷ command ∷ []
    else codes "powershell.exe"
      ∷ codes "-NoProfile"
      ∷ codes "-NonInteractive"
      ∷ codes "-ExecutionPolicy"
      ∷ codes "Bypass"
      ∷ codes "-Command"
      ∷ command
      ∷ []

unfoldable pub result_of : Processes → ℤ → Outcome → ShellExecResult
result_of os timeout o = elim o.failure [
  | none ↦ record { exit_code = pos 0; stdout = o.stdout; stderr = o.stderr }
  | some f ↦ elim f [
    | exited code ↦ record { exit_code = code; stdout = o.stdout; stderr = o.stderr }
    | timed_out ↦ record {
      exit_code = negsuc 0;
      stdout = o.stdout;
      stderr =
          codes "command timed out after " ++ os.show_duration timeout ++ codes ": " ++ o.stderr;
    }
    | not_run why ↦ record {
      exit_code = negsuc 0;
      stdout = o.stdout;
      stderr = codes "exec error: " ++ why ++ codes "\n" ++ o.stderr;
    }
  ]
]

-- `executor.Run`.
unfoldable pub run : Processes → Bytes → Bytes → ℤ → World → World × ShellExecResult
unfolding timeout_of command_line result_of
run os command shell timeout_sec w =
    let timeout = timeout_of timeout_sec in
    let (w', o) = os.spawn (command_line command shell) timeout w in (w', result_of os timeout o)
