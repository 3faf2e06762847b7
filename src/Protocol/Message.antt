-- ===== src/Protocol/Message.antt =====
-- The messages of internal/protocol/protocol.go and the results of the tools. An error is kept as
-- the case that it reports; the program prints a sentence for each.
use lokifix.Prelude.Int.{ℤ}
use lokifix.Json.{RawMessage}
use lokifix.Prelude.{ℕ, Bool, true, false, Option, none, some, List, Bytes, codes}

pub data MessageType : Type 0 where
  request response ping pong confirm_request confirm_response : MessageType

pub record Request : Type 0 where
  pub tool : Bytes
  pub params : RawMessage

-- The calls of the operating system that can fail.
pub data Call : Type 0 where
  stat open_file read_at mkdir write remove read_dir rename : Call

pub data Error : Type 0 where
  invalid_params : Error
  invalid_request : Error
  unknown_tool : Bytes → Error
  denied : Bytes → Error
  refused : Call → Error
  scan_failed : Error
  old_string_missing : Error
  old_string_repeated : ℕ → Error
  file_exists : Error
  is_directory : Error
  invalid_base64 : Error
  too_large : ℕ → Error
  past_the_end : Error
  invalid_regex : Error
  walk_failed : Error
  invalid_registry_key : Error
  invalid_value_name : ℕ → Error
  registry_failed : Bytes → Error

pub record ShellExecResult : Type 0 where
  pub exit_code : ℤ
  pub stdout : Bytes
  pub stderr : Bytes

pub record FileReadResult : Type 0 where
  pub content : Bytes
  pub size : ℕ
  pub lines : ℕ
  pub truncated : Bool

pub record FileListEntry : Type 0 where
  pub name : Bytes
  pub is_dir : Bool
  pub size : ℕ
  pub mod_time : ℕ

pub record GrepMatch : Type 0 where
  pub file : Bytes
  pub line : ℕ
  pub content : Bytes

pub record GrepCountEntry : Type 0 where
  pub file : Bytes
  pub count : ℕ

pub record SysInfoResult : Type 0 where
  pub hostname : Bytes
  pub os : Bytes
  pub version : Bytes
  pub arch : Bytes
  pub cpus : ℕ
  pub memory_total_mb : ℤ
  pub memory_free_mb : ℤ
  pub uptime_hours : Bytes

pub record NetInterface : Type 0 where
  pub name : Bytes
  pub addrs : List Bytes
  pub status : Bytes

pub record ProcessEntry : Type 0 where
  pub pid : ℤ
  pub name : Bytes
  pub cpu : Bytes
  pub mem_mb : Bytes

pub record ServiceEntry : Type 0 where
  pub name : Bytes
  pub status : Bytes
  pub start : Bytes

pub record EventLogEntry : Type 0 where
  pub time_created : Bytes
  pub level : Bytes
  pub source : Bytes
  pub message : Bytes

pub record InstalledSoftwareEntry : Type 0 where
  pub name : Bytes
  pub version : Bytes
  pub vendor : Bytes

pub record FileDownloadResult : Type 0 where
  pub content_base64 : Bytes
  pub size : ℕ
  pub name : Bytes

pub record FileDownloadChunkResult : Type 0 where
  pub content_base64 : Bytes
  pub bytes_read : ℕ
  pub total_size : ℕ
  pub name : Bytes

-- What `Response.Data` holds.
pub data Payload : Type 0 where
  nothing : Payload
  shell : ShellExecResult → Payload
  read : FileReadResult → Payload
  message : Bytes → Payload
  listing : List FileListEntry → Payload
  paths : List Bytes → Payload
  matches : List GrepMatch → Payload
  counts : List GrepCountEntry → Payload
  download : FileDownloadResult → Payload
  download_chunk : FileDownloadChunkResult → Payload
  system : Bytes → Payload
  sys_info : SysInfoResult → Payload
  processes : List ProcessEntry → Payload
  services : List ServiceEntry → Payload
  interfaces : List NetInterface → Payload
  variables : List (Bytes × Bytes) → Payload
  software : List InstalledSoftwareEntry → Payload
  events : List EventLogEntry → Payload

pub record Response : Type 0 where
  pub success : Bool
  pub content : Payload
  pub error : Option Error

abbrev pub success_of : Payload → Response
success_of p = record { success = true; content = p; error = none }

abbrev pub failure_of : Error → Response
failure_of e = record { success = false; content = nothing; error = some e }

-- First message of the agent, and the server's answer.
pub record AuthHandshake : Type 0 where
  pub token : Bytes
  pub session_token : Bytes
  pub hostname : Bytes
  pub os : Bytes
  pub arch : Bytes

pub record AuthResult : Type 0 where
  pub accepted : Bool
  pub message : Bytes
  pub session_token : Bytes

-- What travels over the WebSocket; the payload is JSON text.
pub record Envelope : Type 0 where
  pub kind : Bytes
  pub id : Bytes
  pub timestamp : ℕ
  pub payload : Bytes

unfoldable pub type_name : MessageType → Bytes
type_name request = codes "request"
type_name response = codes "response"
type_name ping = codes "ping"
type_name pong = codes "pong"
type_name confirm_request = codes "confirm_request"
type_name confirm_response = codes "confirm_response"

-- `NewEnvelope` of a payload whose JSON text is given; the time is in milliseconds.
unfoldable pub new_envelope : MessageType → Bytes → ℕ → Bytes → Envelope
unfolding type_name
new_envelope t id now payload = record {
  kind = type_name t;
  id = id;
  timestamp = now;
  payload = payload;
}
