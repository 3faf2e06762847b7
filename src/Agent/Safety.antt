-- ===== src/Agent/Safety.antt =====
-- When the agent asks its user, and what a refusal is worth.
use lokifix.Prelude.Int.{ℤ, pos, negsuc}
use lokifix.Json.{RawMessage}
use lokifix.Protocol.Message.{Request}
use lokifix.Protocol.Params.{
  ShellExecParams, FileUploadChunkParams, decode_shell_exec, decode_upload_chunk,
}
use lokifix.Protocol.Tool.{
  Tool, shell_exec, file_read, file_write, file_edit, file_delete, file_upload, file_upload_chunk,
  tool_of,
}
use lokifix.Audit.Danger.{
  Inside, dangerous_patterns, dangerous_file_paths, is_dangerous_iff, is_dangerous_command,
  is_dangerous_file_path,
}
use lokifix.Agent.{
  needs_confirmation, needs_confirmation_of, tool_confirmation, command_danger, path_danger,
  chunk_danger, path_param, is_some, is_zero,
}
use lokifix.Prelude.{
  ◌≡◌, refl, ap, ◌≢◌, ◌↔◌, true, Option, none, some, List, arith, ==_iff, All, Bytes,
}

-- A text in which some of the patterns stands.
abbrev pub Touches : List Bytes → Bytes → Type 0
Touches ps s = ¬ All (λ p. ¬ Inside p s) ps

-- The requests whose parameters can be read and are dangerous by the lists of patterns.
abbrev pub SensitiveCommand : Option ShellExecParams → Type 0
SensitiveCommand none = ⊥
SensitiveCommand (some p) = Touches dangerous_patterns p.command

abbrev pub SensitivePath : Option Bytes → Type 0
SensitivePath none = ⊥
SensitivePath (some path) = Touches dangerous_file_paths path

abbrev pub SensitiveChunk : Option FileUploadChunkParams → Type 0
SensitiveChunk none = ⊥
SensitiveChunk (some p) = (p.chunk_index ≡ pos 0) × Touches dangerous_file_paths p.path

abbrev pub Sensitive : Option Tool → RawMessage → Type 0
Sensitive (some shell_exec) j = SensitiveCommand (decode_shell_exec j)
Sensitive (some file_write) j = SensitivePath (path_param j)
Sensitive (some file_edit) j = SensitivePath (path_param j)
Sensitive (some file_upload) j = SensitivePath (path_param j)
Sensitive (some file_upload_chunk) j = SensitiveChunk (decode_upload_chunk j)
Sensitive (some file_delete) j = Unit
Sensitive _ j = ⊥

is_some_iff : (o : Option Bytes) → (is_some o ≡ true) ↔ (o ≢ none)
unfolding is_some
is_some_iff none = (λ h. cc, λ h. absurd (h refl))
is_some_iff (some a) = (λ h e. cc, λ h. refl)

dangerous_command_iff :
    (s : Bytes) → (is_some (is_dangerous_command s) ≡ true) ↔ Touches dangerous_patterns s
dangerous_command_iff s = (
  λ h a. (is_some_iff (is_dangerous_command s)).0 h ((is_dangerous_iff s).0.1 a),
  λ h. (is_some_iff (is_dangerous_command s)).1 (λ e. h ((is_dangerous_iff s).0.0 e)),
)

dangerous_path_iff :
    (s : Bytes) → (is_some (is_dangerous_file_path s) ≡ true) ↔ Touches dangerous_file_paths s
dangerous_path_iff s = (
  λ h a. (is_some_iff (is_dangerous_file_path s)).0 h ((is_dangerous_iff s).1.1 a),
  λ h. (is_some_iff (is_dangerous_file_path s)).1 (λ e. h ((is_dangerous_iff s).1.0 e)),
)

is_zero_iff : (z : ℤ) → (is_zero z ≡ true) ↔ (z ≡ pos 0)
unfolding is_zero
is_zero_iff (pos n) = (λ h. ap pos (ground (arith, ==_iff n 0)), λ h. ap is_zero h)
is_zero_iff (negsuc n) = (λ h. cc, λ h. ap is_zero h)

command_danger_iff : (o : Option ShellExecParams) → (command_danger o ≡ true) ↔ SensitiveCommand o
unfolding command_danger
command_danger_iff none = (λ h. cc, λ h. absurd h)
command_danger_iff (some p) = dangerous_command_iff p.command

path_danger_iff : (o : Option Bytes) → (path_danger o ≡ true) ↔ SensitivePath o
unfolding path_danger
path_danger_iff none = (λ h. cc, λ h. absurd h)
path_danger_iff (some path) = dangerous_path_iff path

chunk_danger_iff : (o : Option FileUploadChunkParams) → (chunk_danger o ≡ true) ↔ SensitiveChunk o
unfolding chunk_danger
chunk_danger_iff none = (λ h. cc, λ h. absurd h)
chunk_danger_iff (some p) =
    let zero_iff = is_zero_iff p.chunk_index in
    let path_iff = dangerous_path_iff p.path in
    (
      λ h. (zero_iff.0 (ground arith), path_iff.0 (ground arith)),
      λ (z, t). let a = zero_iff.1 z in let b = path_iff.1 t in ground (arith, a, b),
    )

tool_confirmation_iff :
    (o : Option Tool) (j : RawMessage) → (needs_confirmation_of o j ≡ true) ↔ Sensitive o j
unfolding needs_confirmation_of tool_confirmation
tool_confirmation_iff none j = (λ h. cc, λ h. absurd h)
tool_confirmation_iff (some shell_exec) j = command_danger_iff (decode_shell_exec j)
tool_confirmation_iff (some file_write) j = path_danger_iff (path_param j)
tool_confirmation_iff (some file_edit) j = path_danger_iff (path_param j)
tool_confirmation_iff (some file_upload) j = path_danger_iff (path_param j)
tool_confirmation_iff (some file_upload_chunk) j = chunk_danger_iff (decode_upload_chunk j)
tool_confirmation_iff (some file_delete) j = (λ h. tt, λ h. refl)
tool_confirmation_iff (some file_read) j = (λ h. cc, λ h. absurd h)
tool_confirmation_iff (some _) j = (λ h. cc, λ h. absurd h)

-- The user is asked exactly before a deletion, a command in which a dangerous pattern stands, a
-- write, an edit or an upload of a path in which a protected part stands, and the chunk with index
-- 0 of an upload to such a path.
pub needs_confirmation_iff :
    (req : Request) → (needs_confirmation req ≡ true) ↔ Sensitive (tool_of req.tool) req.params
unfolding needs_confirmation
needs_confirmation_iff req = tool_confirmation_iff (tool_of req.tool) req.params
