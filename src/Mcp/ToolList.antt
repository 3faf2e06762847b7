-- ===== src/Mcp/ToolList.antt =====
-- The tools that the MCP server offers (internal/mcp/server.go, `handleToolsList`).
use lokifix.Prelude.{List, [], ◌∷◌, Bytes, codes}

pub data Kind : Type 0 where
  string integer boolean : Kind

pub record Property : Type 0 where
  pub name : Bytes
  pub kind : Kind
  pub choices : List Bytes
  pub description : Bytes

pub record ToolSpec : Type 0 where
  pub name : Bytes
  pub description : Bytes
  pub properties : List Property
  pub required : List Bytes

abbrev property : Bytes → Kind → List Bytes → Bytes → Property
property n k cs d = record { name = n; kind = k; choices = cs; description = d }

abbrev shell_spec : ToolSpec
shell_spec = record {
  name = codes "remote_shell";
  description =
      codes
        "Execute a shell command on the remote Windows machine. Uses PowerShell by default. Use 'cmd' shell for CMD commands.";
  properties =
      property (codes "command") string ([]) (codes "The command to execute")
      ∷ property (codes "shell") string (codes "powershell" ∷ codes "cmd" ∷ [])
          (codes "Shell to use (default: powershell)")
      ∷ property (codes "timeout") integer ([]) (codes "Timeout in seconds (default: 120)")
      ∷ property (codes "description") string ([])
          (codes "Human-readable description of what this command does (for audit logging)")
      ∷ [];
  required = codes "command" ∷ [];
}

abbrev file_read_spec : ToolSpec
file_read_spec = record {
  name = codes "remote_file_read";
  description = codes "Read a file from the remote machine. Returns content with line numbers.";
  properties =
      property (codes "path") string ([]) (codes "Absolute path to the file")
      ∷ property (codes "offset") integer ([]) (codes "Start from this line number")
      ∷ property (codes "limit") integer ([]) (codes "Max lines to read (default: 2000)")
      ∷ [];
  required = codes "path" ∷ [];
}

abbrev file_write_spec : ToolSpec
file_write_spec = record {
  name = codes "remote_file_write";
  description =
      codes "Write content to a file on the remote machine. Creates directories if needed.";
  properties =
      property (codes "path") string ([]) (codes "Absolute path to the file")
      ∷ property (codes "content") string ([]) (codes "Content to write")
      ∷ [];
  required = codes "path" ∷ codes "content" ∷ [];
}

abbrev file_edit_spec : ToolSpec
file_edit_spec = record {
  name = codes "remote_file_edit";
  description =
      codes
        "Edit a file on the remote machine by replacing a string. By default old_string must be unique; use replace_all to replace every occurrence.";
  properties =
      property (codes "path") string ([]) (codes "Absolute path to the file")
      ∷ property (codes "old_string") string ([]) (codes "Exact string to find")
      ∷ property (codes "new_string") string ([]) (codes "Replacement string")
      ∷ property (codes "replace_all") boolean ([])
          (codes "Replace all occurrences (default: false, requires unique match)")
      ∷ [];
  required = codes "path" ∷ codes "old_string" ∷ codes "new_string" ∷ [];
}

abbrev file_list_spec : ToolSpec
file_list_spec = record {
  name = codes "remote_file_list";
  description = codes "List files and directories at the given path on the remote machine.";
  properties = property (codes "path") string ([]) (codes "Directory path to list") ∷ [];
  required = codes "path" ∷ [];
}

abbrev file_delete_spec : ToolSpec
file_delete_spec = record {
  name = codes "remote_file_delete";
  description =
      codes
        "Delete a file or directory (recursively) on the remote machine. Always requires user confirmation.";
  properties =
      property (codes "path") string ([]) (codes "Path to file or directory to delete") ∷ [];
  required = codes "path" ∷ [];
}

abbrev glob_spec : ToolSpec
glob_spec = record {
  name = codes "remote_glob";
  description =
      codes
        "Find files matching a glob pattern on the remote machine. Supports ** for recursive matching (e.g. src/**/*.go). Results sorted by modification time.";
  properties =
      property (codes "pattern") string ([])
        (codes "Glob pattern (e.g. *.log, src/**/*.go, **/*.txt)")
      ∷ property (codes "path") string ([])
          (codes "Base directory to search in (default: current dir)")
      ∷ [];
  required = codes "pattern" ∷ [];
}

abbrev grep_spec : ToolSpec
grep_spec = record {
  name = codes "remote_grep";
  description =
      codes
        "Search for a regex pattern in files on the remote machine. Supports multiple output modes, context lines, case-insensitive and multiline matching.";
  properties =
      property (codes "pattern") string ([]) (codes "Regex pattern to search for")
      ∷ property (codes "path") string ([])
          (codes "File or directory to search in (default: current dir)")
      ∷ property (codes "glob") string ([])
          (codes "Glob pattern to filter files (e.g. *.js, *.{ts,tsx})")
      ∷ property (codes "type") string ([])
          (codes "File type filter: go, js, ts, py, java, rust, c, cpp, etc.")
      ∷ property (codes "output_mode") string
          (codes "content" ∷ codes "files_with_matches" ∷ codes "count" ∷ [])
          (codes "Output mode (default: content)")
      ∷ property (codes "case_insensitive") boolean ([]) (codes "Case-insensitive search")
      ∷ property (codes "context_before") integer ([])
          (codes "Lines to show before each match (-B)")
      ∷ property (codes "context_after") integer ([]) (codes "Lines to show after each match (-A)")
      ∷ property (codes "context") integer ([])
          (codes "Lines to show before and after each match (-C)")
      ∷ property (codes "head_limit") integer ([]) (codes "Max results to return (default: 250)")
      ∷ property (codes "multiline") boolean ([])
          (codes "Enable multiline matching where . matches newlines")
      ∷ [];
  required = codes "pattern" ∷ [];
}

abbrev sysinfo_spec : ToolSpec
sysinfo_spec = record {
  name = codes "remote_sysinfo";
  description = codes "Get system information from the remote machine (OS, CPU, memory, uptime).";
  properties = [];
  required = [];
}

abbrev processes_spec : ToolSpec
processes_spec = record {
  name = codes "remote_processes";
  description = codes "List running processes on the remote machine (top 50 by CPU).";
  properties = [];
  required = [];
}

abbrev services_spec : ToolSpec
services_spec = record {
  name = codes "remote_services";
  description = codes "List Windows services on the remote machine.";
  properties = [];
  required = [];
}

abbrev registry_spec : ToolSpec
registry_spec = record {
  name = codes "remote_registry";
  description = codes "Read a Windows registry key or value from the remote machine.";
  properties =
      property (codes "key") string ([])
        (codes "Registry key path (e.g. HKLM:\\SOFTWARE\\Microsoft\\Windows NT\\CurrentVersion)")
      ∷ property (codes "value") string ([])
          (codes "Specific value name (optional, reads all if omitted)")
      ∷ [];
  required = codes "key" ∷ [];
}

abbrev netinfo_spec : ToolSpec
netinfo_spec = record {
  name = codes "remote_netinfo";
  description = codes "Get network interface information from the remote machine.";
  properties = [];
  required = [];
}

abbrev env_vars_spec : ToolSpec
env_vars_spec = record {
  name = codes "remote_env_vars";
  description = codes "Get all environment variables from the remote machine.";
  properties = [];
  required = [];
}

abbrev installed_software_spec : ToolSpec
installed_software_spec = record {
  name = codes "remote_installed_software";
  description = codes "List all installed software on the remote Windows machine.";
  properties = [];
  required = [];
}

abbrev event_log_spec : ToolSpec
event_log_spec = record {
  name = codes "remote_event_log";
  description = codes "Read Windows Event Log entries from the remote machine.";
  properties =
      property (codes "log_name") string
        (codes "System" ∷ codes "Application" ∷ codes "Security" ∷ [])
        (codes "Event log name (default: System)")
      ∷ property (codes "max_items") integer ([]) (codes "Max entries to return (default: 50)")
      ∷ property (codes "level") string (codes "Error" ∷ codes "Warning" ∷ codes "Information" ∷ [])
          (codes "Filter by severity level")
      ∷ [];
  required = [];
}

abbrev file_upload_spec : ToolSpec
file_upload_spec = record {
  name = codes "remote_file_upload";
  description =
      codes
        "Upload a file from the operator machine to the remote machine. Reads a local file, encodes it as base64, and writes it on the remote. Supports binary files up to 50MB.";
  properties =
      property (codes "local_path") string ([])
        (codes "Absolute path of the file on the OPERATOR machine to upload")
      ∷ property (codes "remote_path") string ([])
          (codes "Absolute path where the file will be written on the REMOTE machine")
      ∷ property (codes "overwrite") boolean ([])
          (codes "Overwrite if file already exists on remote (default: false)")
      ∷ [];
  required = codes "local_path" ∷ codes "remote_path" ∷ [];
}

abbrev file_download_spec : ToolSpec
file_download_spec = record {
  name = codes "remote_file_download";
  description =
      codes
        "Download a file from the remote machine to the operator machine. Reads the remote file, encodes it as base64, and writes it locally. Supports binary files up to 50MB.";
  properties =
      property (codes "remote_path") string ([])
        (codes "Absolute path of the file on the REMOTE machine to download")
      ∷ property (codes "local_path") string ([])
          (codes "Absolute path where the file will be saved on the OPERATOR machine")
      ∷ [];
  required = codes "remote_path" ∷ codes "local_path" ∷ [];
}

abbrev connection_status_spec : ToolSpec
connection_status_spec = record {
  name = codes "remote_connection_status";
  description =
      codes
        "Check the connection status of the remote agent. Returns hostname, OS, architecture, connection time, and duration.";
  properties = [];
  required = [];
}

abbrev pub tools_list : List ToolSpec
tools_list =
    shell_spec ∷ file_read_spec ∷ file_write_spec ∷ file_edit_spec ∷ file_list_spec
    ∷ file_delete_spec ∷ glob_spec ∷ grep_spec ∷ sysinfo_spec ∷ processes_spec ∷ services_spec
    ∷ registry_spec ∷ netinfo_spec ∷ env_vars_spec ∷ installed_software_spec ∷ event_log_spec
    ∷ file_upload_spec ∷ file_download_spec ∷ connection_status_spec ∷ []
