-- ===== src/Protocol/Tool.antt =====
-- The names of the agent's tools (internal/protocol/protocol.go, the `Tool…` constants), as a data
-- type with the name of each.
use lokifix.Prelude.{
  ◌≡◌, refl, ◌↔◌, inl, inr, Option, none, some, List, [], ◌∷◌, if◌then◌else◌, Bool-cases, Bytes,
  codes, eq_bytes, eq_bytes→eq,
}

pub data Tool : Type 0 where
  shell_exec file_read file_write file_edit file_list file_delete glob grep : Tool
  sys_info processes services registry net_info env_vars installed_software event_log : Tool
  file_upload file_download file_upload_chunk file_download_chunk : Tool

unfoldable pub tool_name : Tool → Bytes
tool_name shell_exec = codes "shell_exec"
tool_name file_read = codes "file_read"
tool_name file_write = codes "file_write"
tool_name file_edit = codes "file_edit"
tool_name file_list = codes "file_list"
tool_name file_delete = codes "file_delete"
tool_name glob = codes "glob"
tool_name grep = codes "grep"
tool_name sys_info = codes "sys_info"
tool_name processes = codes "processes"
tool_name services = codes "services"
tool_name registry = codes "registry_read"
tool_name net_info = codes "net_info"
tool_name env_vars = codes "env_vars"
tool_name installed_software = codes "installed_software"
tool_name event_log = codes "event_log"
tool_name file_upload = codes "file_upload"
tool_name file_download = codes "file_download"
tool_name file_upload_chunk = codes "file_upload_chunk"
tool_name file_download_chunk = codes "file_download_chunk"

abbrev pub all_tools : List Tool
all_tools =
    shell_exec ∷ file_read ∷ file_write ∷ file_edit ∷ file_list ∷ file_delete ∷ glob ∷ grep
    ∷ sys_info ∷ processes ∷ services ∷ registry ∷ net_info ∷ env_vars ∷ installed_software
    ∷ event_log ∷ file_upload ∷ file_download ∷ file_upload_chunk ∷ file_download_chunk ∷ []

unfoldable pub find_tool : List Tool → Bytes → Option Tool
unfolding tool_name
find_tool [] name = none
find_tool (t ∷ ts) name = if eq_bytes name (tool_name t) then some t else find_tool ts name

-- The tool that a name selects in a `switch`; `none` is its default case.
unfoldable pub tool_of : Bytes → Option Tool
unfolding find_tool
tool_of name = find_tool all_tools name

-- A tool's name selects it, so that no two tools share a name.
pub tool_of-tool_name : (t : Tool) → tool_of (tool_name t) ≡ some t
unfolding tool_of eq_bytes
tool_of-tool_name shell_exec = refl
tool_of-tool_name _ = refl

find_tool_sound :
    (ts : List Tool) (name : Bytes) (t : Tool) → find_tool ts name ≡ some t → name ≡ tool_name t
unfolding find_tool
find_tool_sound [] name t h = cc
find_tool_sound (u ∷ ts) name t h = elim (Bool-cases (eq_bytes name (tool_name u))) [
  | inl e ↦ let found : some u ≡ some t = rw e at h in cc (found, eq_bytes→eq name (tool_name u) e)
  | inr e ↦ find_tool_sound ts name t (rw e at h)
]

-- The tools are selected by their names and by nothing else.
pub tool_of_iff : (name : Bytes) (t : Tool) → (tool_of name ≡ some t) ↔ (name ≡ tool_name t)
tool_of_iff name t =
    (unfold tool_of in find_tool_sound all_tools name t, λ e. rw e (tool_of-tool_name t))
