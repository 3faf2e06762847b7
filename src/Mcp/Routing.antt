-- ===== src/Mcp/Routing.antt =====
-- The tools that the MCP server offers are the tools whose calls it knows.
use lokifix.Json.{Json}
use lokifix.Protocol.Tool.{Tool}
use lokifix.Mcp.{Mcp}
use lokifix.Mcp.ToolList.{ToolSpec, tools_list}
use lokifix.Prelude.{◌≢◌, List, [], ◌∷◌, map, All, Bytes, codes}

-- No tool of the list has the name.
abbrev pub NotOffered : Bytes → Type 0
NotOffered name = All (λ n. name ≢ n) (map (λ (t : ToolSpec). t.name) tools_list)

abbrev Absent : Bytes → List (Bytes × Tool) → Type 0
Absent name m = All (λ n. name ≢ n) (map (λ (e : Bytes × Tool). e.0) m)

abbrev local_names : List Bytes
local_names =
    codes "remote_file_upload"
    ∷ codes "remote_file_download"
    ∷ codes "remote_connection_status"
    ∷ []

-- Which action of the protocol a tool of the server is meant for.
pub data Forwards : Bytes → Bytes → Type 0 where
  shell_exec_of : Forwards (codes "remote_shell") (codes "shell_exec")
  file_read_of : Forwards (codes "remote_file_read") (codes "file_read")
  file_write_of : Forwards (codes "remote_file_write") (codes "file_write")
  file_edit_of : Forwards (codes "remote_file_edit") (codes "file_edit")
  file_list_of : Forwards (codes "remote_file_list") (codes "file_list")
  file_delete_of : Forwards (codes "remote_file_delete") (codes "file_delete")
  glob_of : Forwards (codes "remote_glob") (codes "glob")
  grep_of : Forwards (codes "remote_grep") (codes "grep")
  system_of : Forwards (codes "remote_sysinfo") (codes "sys_info")
  processes_of : Forwards (codes "remote_processes") (codes "processes")
  services_of : Forwards (codes "remote_services") (codes "services")
  registry_of : Forwards (codes "remote_registry") (codes "registry_read")
  netinfo_of : Forwards (codes "remote_netinfo") (codes "net_info")
  env_vars_of : Forwards (codes "remote_env_vars") (codes "env_vars")
  installed_software_of : Forwards (codes "remote_installed_software") (codes "installed_software")
  event_log_of : Forwards (codes "remote_event_log") (codes "event_log")
