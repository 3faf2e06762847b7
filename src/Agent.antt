-- ===== src/Agent.antt =====
-- The agent's request handler (internal/agent/handler.go): what of the system it uses, the names of
-- its actions, the detail of a request, and which requests have to be confirmed.
pub mod Handlers
pub mod Handler
pub mod World
pub mod Safety
pub mod Tests
pub mod Progress
pub mod Refusal
use lokifix.Prelude.Int.{ℤ, pos, negsuc, ◌+ℤ◌}
use lokifix.Prelude.Int64.{wrap_int64, show_int}
use lokifix.Json.{RawMessage, ◌>>=◌}
use lokifix.Protocol.Message.{Request}
use lokifix.Protocol.Tool.{
  Tool, shell_exec, file_read, file_write, file_edit, file_list, file_delete, glob, grep, sys_info,
  processes, services, registry, net_info, env_vars, installed_software, event_log, file_upload,
  file_download, file_upload_chunk, file_download_chunk, tool_of,
}
use lokifix.Protocol.Params.{
  decode_shell_exec, decode_file_read, decode_file_write, decode_file_edit, decode_path,
  decode_glob, decode_grep, decode_registry, decode_event_log, decode_file_upload,
  decode_upload_chunk, decode_download_chunk, ShellExecParams, FileUploadChunkParams,
}
use lokifix.Audit.Danger.{is_dangerous_command, is_dangerous_file_path}
use lokifix.Prelude.{
  ℕ, zero, suc, ◌+◌, ◌-◌, ◌*◌, ◌/◌, ◌%◌, ◌^◌, ◌≤◌, ◌<◌, ◌≡◌, refl, sym, ap, ap₂, subst, ◌∙◌, ◌≢◌,
  ◌↔◌, ◌⊎◌, inl, inr, Bool, true, false, not, ◌&&◌, ◌||◌, Option, none, some, List, [], ◌∷◌, ◌++◌,
  map, append-nil, append_assoc, arith, ltb, leb, ◌==◌, if◌then◌else◌, ltb→lt, lt→ltb, leb→le,
  ==_iff, Bool-cases, Option-cases, length, get_elem?, length-append, take, drop, replicate,
  length-take, length-drop, length-replicate, take-append-drop, take-append, take_all, take_nil,
  nil_of_length, length-map, All, All-append, Bytes, codes, eq_bytes, eq_bytes_iff, eq_bytes_refl,
  eq_bytes→eq, is_empty, lower, upper, to_lower, to_upper, to_lower_idem, is_space, trim_left,
  trim_right, trim_space, split_on, split, push_left, cut_at, replace_byte, join, show_nat,
  has_prefix, contains, has_prefix_sound, has_prefix_complete, contains_sound, contains_complete,
}

-- `toolActionMap`.
unfoldable pub action_name : Tool → Bytes
action_name shell_exec = codes "SHELL_EXEC"
action_name file_read = codes "FILE_READ"
action_name file_write = codes "FILE_WRITE"
action_name file_edit = codes "FILE_EDIT"
action_name file_list = codes "FILE_LIST"
action_name file_delete = codes "FILE_DELETE"
action_name glob = codes "GLOB"
action_name grep = codes "GREP"
action_name sys_info = codes "SYSINFO"
action_name processes = codes "PROCESSES"
action_name services = codes "SERVICES"
action_name registry = codes "REGISTRY"
action_name net_info = codes "NETINFO"
action_name env_vars = codes "ENV_VARS"
action_name installed_software = codes "INSTALLED_SW"
action_name event_log = codes "EVENT_LOG"
action_name file_upload = codes "FILE_UPLOAD"
action_name file_download = codes "FILE_DOWNLOAD"
action_name file_upload_chunk = codes "FILE_UPLOAD_CHUNK"
action_name file_download_chunk = codes "FILE_DOWNLOAD_CHUNK"

unfoldable pub or_else {ℓ} : {A : Type ℓ} → A → Option A → A
or_else a none = a
or_else a (some b) = b

unfoldable pub action_of : Bytes → Bytes
unfolding action_name or_else
action_of name = or_else name (do t ← tool_of name; some (action_name t))

unfoldable pub is_some {ℓ} : {A : Type ℓ} → Option A → Bool
is_some none = false
is_some (some a) = true

-- The test of `FileUploadChunk`: only the first chunk is looked at.
unfoldable pub is_zero : ℤ → Bool
is_zero (pos n) = n == 0
is_zero (negsuc n) = false

unfoldable pub command_danger : Option ShellExecParams → Bool
unfolding is_some
command_danger none = false
command_danger (some p) = is_some (is_dangerous_command p.command)

unfoldable pub path_danger : Option Bytes → Bool
unfolding is_some
path_danger none = false
path_danger (some path) = is_some (is_dangerous_file_path path)

unfoldable pub chunk_danger : Option FileUploadChunkParams → Bool
unfolding is_some is_zero
chunk_danger none = false
chunk_danger (some p) = is_zero p.chunk_index && is_some (is_dangerous_file_path p.path)

-- The path of the parameters, read as `struct { Path string }`.
abbrev pub path_param : RawMessage → Option Bytes
path_param params = do p ← decode_path params; some p.path

unfoldable pub tool_confirmation : Tool → RawMessage → Bool
unfolding command_danger path_danger chunk_danger
tool_confirmation shell_exec params = command_danger (decode_shell_exec params)
tool_confirmation file_write params = path_danger (path_param params)
tool_confirmation file_edit params = path_danger (path_param params)
tool_confirmation file_upload params = path_danger (path_param params)
tool_confirmation file_upload_chunk params = chunk_danger (decode_upload_chunk params)
tool_confirmation file_delete params = true
tool_confirmation _ params = false

unfoldable pub needs_confirmation_of : Option Tool → RawMessage → Bool
unfolding tool_confirmation
needs_confirmation_of none params = false
needs_confirmation_of (some t) params = tool_confirmation t params

unfoldable pub needs_confirmation : Request → Bool
unfolding needs_confirmation_of
needs_confirmation req = needs_confirmation_of (tool_of req.tool) req.params

unfoldable pub path_reason : RawMessage → Option Bytes
path_reason params = do
  path ← path_param params
  some (codes "File in area protetta: " ++ or_else [] (is_dangerous_file_path path))

unfoldable pub reason_of : Option Tool → RawMessage → Option Bytes
unfolding path_reason or_else
reason_of (some shell_exec) params = do
  p ← decode_shell_exec params
  some
      (codes "Comando contiene pattern pericoloso: " ++ or_else [] (is_dangerous_command p.command))
reason_of (some file_write) params = path_reason params
reason_of (some file_edit) params = path_reason params
reason_of (some file_upload) params = path_reason params
reason_of (some file_upload_chunk) params = path_reason params
reason_of (some file_delete) params = some (codes "Eliminazione file")
reason_of _ params = none

unfoldable pub get_danger_reason : Request → Bytes
unfolding reason_of or_else
get_danger_reason req =
    or_else (codes "Operazione potenzialmente pericolosa") (reason_of (tool_of req.tool) req.params)

unfoldable pub shell_detail : ShellExecParams → Bytes
shell_detail p =
    let shell = if is_empty p.shell then codes "powershell" else p.shell in
    let detail = codes "[" ++ shell ++ codes "] " ++ p.command in
    if is_empty p.description then detail else p.description ++ codes " | " ++ detail

unfoldable pub detail_of : Option Tool → RawMessage → Option Bytes
unfolding shell_detail
detail_of (some shell_exec) params = do p ← decode_shell_exec params; some (shell_detail p)
detail_of (some file_read) params = do p ← decode_file_read params; some p.path
detail_of (some file_write) params = do p ← decode_file_write params; some p.path
detail_of (some file_edit) params = do p ← decode_file_edit params; some p.path
detail_of (some file_list) params = path_param params
detail_of (some file_delete) params = path_param params
detail_of (some glob) params = do
  p ← decode_glob params
  some (p.pattern_text ++ codes " in " ++ p.path)
detail_of (some grep) params = do
  p ← decode_grep params
  some (codes "'" ++ p.pattern_text ++ codes "' in " ++ p.path)
detail_of (some file_upload) params = do
  p ← decode_file_upload params
  some (codes "upload -> " ++ p.path)
detail_of (some file_download) params = do
  path ← path_param params
  some (codes "download <- " ++ path)
detail_of (some file_upload_chunk) params = do
  p ← decode_upload_chunk params
  some (
      codes "upload chunk "
      ++ show_int (wrap_int64 (p.chunk_index +ℤ pos 1))
      ++ codes "/"
      ++ show_int p.total_chunks
      ++ codes " -> "
      ++ p.path)
detail_of (some file_download_chunk) params = do
  p ← decode_download_chunk params
  some (codes "download chunk offset=" ++ show_int p.offset ++ codes " <- " ++ p.path)
detail_of (some registry) params = do p ← decode_registry params; some p.key
detail_of (some event_log) params = do p ← decode_event_log params; some p.log_name
detail_of _ params = none

unfoldable pub extract_detail : Request → Bytes
unfolding detail_of or_else
extract_detail req = or_else req.tool (detail_of (tool_of req.tool) req.params)
