-- ===== src/Agent/Handlers.antt =====
-- The handler of each tool and the choice among them (internal/agent/handler.go, `handle…` and
-- `dispatch`), which use the operations of Fileops, Executor and Sysinfo.
use lokifix.Prelude.Int.{ℤ, pos, ◌+ℤ◌, ◌*ℤ◌, ltb_ℤ}
use lokifix.Prelude.Int64.{eq_int, wrap_int64, quotient, show_int}
use lokifix.Json.{RawMessage}
use lokifix.World.{World, Result, ok, err, panic, Io}
use lokifix.Protocol.Message.{
  Request, Response, success_of, failure_of, Payload, shell, read, message, listing, paths, matches,
  counts, download, download_chunk, system, invalid_params, unknown_tool, FileListEntry,
  SysInfoResult,
}
use lokifix.Protocol.Params.{
  ShellExecParams, FileReadParams, FileWriteParams, FileEditParams, PathParams, GlobParams,
  GrepParams, RegistryReadParams, EventLogParams, FileUploadParams, FileUploadChunkParams,
  FileDownloadChunkParams, decode_shell_exec, decode_file_read, decode_file_write, decode_file_edit,
  decode_path, decode_glob, decode_grep, decode_registry, decode_event_log, decode_file_upload,
  decode_upload_chunk, decode_download_chunk,
}
use lokifix.Protocol.Tool.{
  Tool, shell_exec, file_read, file_write, file_edit, file_list, file_delete, glob, grep, registry,
  sys_info, processes, services, net_info, env_vars, installed_software, event_log, file_upload,
  file_download, file_upload_chunk, file_download_chunk, tool_of,
}
use lokifix.Executor.{Processes, run}
use lokifix.Sysinfo.{
  read_registry, get_services, get_processes, get_installed_software, get_event_log,
}
use lokifix.Sysinfo.State.{Interface, get_sys_info, get_net_info, get_env_vars}
use lokifix.Fileops.Glob.{Tree}
use lokifix.Fileops.Grep.{Visit, GrepOptions, GrepResult, contents, files, counts}
use lokifix.Fileops.Read
use lokifix.Fileops.Edit
use lokifix.Fileops.Glob
use lokifix.Fileops.Grep
use lokifix.Fileops.Transfer
use lokifix.Prelude.{Bool, Option, none, some, List, [], ◌∷◌, ◌++◌, if◌then◌else◌, Bytes, codes}

-- What the handlers use of the system: processes, the matching of names and the compiler of
-- regular expressions, the walks of glob and grep, directories, what the runtime of Go, the package
-- `net` and the environment tell, and the reading of numbers. Only processes may change the world.
pub record System : Type 0 where
  pub os : Processes
  pub seg : Bytes → Bytes → Bool
  pub compile : Bytes → Option (Bytes → Bool)
  pub tree : World → Tree
  pub visits : World → Bytes → List Visit
  pub read_dir : Bytes → World → Result (List (Option FileListEntry))
  pub known : World → SysInfoResult
  pub net_interfaces : World → List Interface
  pub environ : World → List Bytes
  pub parse_int : Bytes → ℤ
  pub atoi : Bytes → ℤ

-- `fileops.ListDir`: an entry whose `Info` fails is passed over.
unfoldable pub known_entries : List (Option FileListEntry) → List FileListEntry
known_entries [] = []
known_entries (none ∷ es) = known_entries es
known_entries (some e ∷ es) = e ∷ known_entries es

-- A result of the tool as a response.
unfoldable pub respond {ℓ} :
    {A : Type ℓ} → (A → Payload) → World × Result A → World × Result Response
respond f (w, ok a) = (w, ok (success_of (f a)))
respond f (w, err e) = (w, ok (failure_of e))
respond f (w, panic) = (w, panic)

-- The handlers begin by reading their parameters.
unfoldable pub with_params {ℓ} : {P : Type ℓ} → Option P → (P → Io Response) → Io Response
with_params none f w = (w, ok (failure_of invalid_params))
with_params (some p) f w = f p w

-- What a report of the system's state gives is a success.
abbrev reported {ℓ} : {A : Type ℓ} → (A → Payload) → World × A → World × Result Response
reported f (w, a) = (w, ok (success_of (f a)))

unfoldable pub handle_shell_exec : Processes → ShellExecParams → Io Response
handle_shell_exec os p w =
    let (w', result) = run os p.command p.shell p.timeout w in (w', ok (success_of (shell result)))

unfoldable pub handle_file_read : FileReadParams → Io Response
unfolding respond
handle_file_read p w = respond read (Read.read_file p.path p.offset p.limit w)

unfoldable pub handle_file_write : FileWriteParams → Io Response
unfolding respond
handle_file_write p w =
    respond (λ _. message (codes "file written successfully"))
      (Transfer.write_file p.path p.content w)

unfoldable pub handle_file_edit : FileEditParams → Io Response
unfolding respond
handle_file_edit p w =
    respond (λ _. message (codes "file edited successfully"))
      (Edit.edit_file p.path p.old_string p.new_string p.replace_all w)

unfoldable pub handle_file_list : System → PathParams → Io Response
unfolding respond known_entries
handle_file_list sys p w = respond (λ es. listing (known_entries es)) (w, sys.read_dir p.path w)

unfoldable pub handle_file_delete : PathParams → Io Response
unfolding respond
handle_file_delete p w =
    respond (λ _. message (codes "file deleted")) (Transfer.delete_file p.path w)

unfoldable pub handle_glob : System → GlobParams → Io Response
handle_glob sys p w =
    (w, ok (success_of (paths (Glob.glob sys.seg (sys.tree w) p.pattern_text p.path))))

-- `-A` and `-B` count before `-C`, where they are positive.
unfoldable pub context_of : ℤ → ℤ → ℤ
context_of specific both = if ltb_ℤ (pos 0) specific then specific else both

unfoldable pub grep_options : GrepParams → GrepOptions
unfolding context_of
grep_options p = record {
  pattern = p.pattern_text;
  path = p.path;
  glob_filter = p.glob;
  type_filter = p.file_type;
  output_mode = p.output_mode;
  case_insensitive = p.case_insensitive;
  context_before = context_of p.context_before p.context;
  context_after = context_of p.context_after p.context;
  head_limit = p.head_limit;
  multiline = p.multiline;
}

unfoldable pub grep_payload : GrepResult → Payload
grep_payload (contents ms) = matches ms
grep_payload (files fs) = paths fs
grep_payload (Grep.counts cs) = counts cs

unfoldable pub handle_grep : System → GrepParams → Io Response
unfolding respond grep_options grep_payload
handle_grep sys p w =
    respond grep_payload (w, Grep.grep_file sys.compile sys.seg (sys.visits w) (grep_options p))

unfoldable pub handle_registry : System → RegistryReadParams → Io Response
unfolding respond
handle_registry sys p w = respond system (read_registry sys.os p.key p.value w)

unfoldable pub handle_event_log : System → EventLogParams → Io Response
handle_event_log sys p w =
    reported Payload.events (get_event_log sys.os p.log_name p.max_items p.level w)

unfoldable pub handle_sys_info : System → Io Response
handle_sys_info sys w =
    reported Payload.sys_info (get_sys_info sys.parse_int sys.os (sys.known w) w)

unfoldable pub handle_processes : System → Io Response
handle_processes sys w = reported Payload.processes (get_processes sys.atoi sys.os w)

unfoldable pub handle_services : System → Io Response
handle_services sys w = reported Payload.services (get_services sys.os w)

unfoldable pub handle_installed_software : System → Io Response
handle_installed_software sys w = reported Payload.software (get_installed_software sys.os w)

unfoldable pub handle_net_info : System → Io Response
handle_net_info sys w =
    (w, ok (success_of (Payload.interfaces (get_net_info (sys.net_interfaces w)))))

unfoldable pub handle_env_vars : System → Io Response
handle_env_vars sys w = (w, ok (success_of (Payload.variables (get_env_vars (sys.environ w)))))

unfoldable pub handle_file_upload : FileUploadParams → Io Response
unfolding respond
handle_file_upload p w =
    respond (λ _. message (codes "file uploaded successfully to " ++ p.path))
      (Transfer.upload_file p.path p.content_base64 p.overwrite w)

unfoldable pub handle_file_download : PathParams → Io Response
unfolding respond
handle_file_download p w = respond download (Transfer.download_file p.path w)

unfoldable pub upload_status : FileUploadChunkParams → ℤ → Bytes
unfolding eq_int show_int
upload_status p pct =
    let next = wrap_int64 (p.chunk_index +ℤ pos 1) in
    if eq_int next p.total_chunks
    then codes "upload complete: "
      ++ p.path
      ++ codes " ("
      ++ show_int p.total_size
      ++ codes " bytes)"
    else codes "chunk "
      ++ show_int next
      ++ codes "/"
      ++ show_int p.total_chunks
      ++ codes " ("
      ++ show_int pct
      ++ codes "%)"

-- `(ChunkIndex + 1) * 100 / TotalChunks`, which panics where there are no chunks.
unfoldable pub percentage : FileUploadChunkParams → Option ℤ
unfolding quotient
percentage p = quotient (wrap_int64 (wrap_int64 (p.chunk_index +ℤ pos 1) *ℤ pos 100)) p.total_chunks

unfoldable pub report_chunk :
    FileUploadChunkParams → World × Result (Unit {0}) → World × Result Response
unfolding upload_status percentage
report_chunk p (w, err e) = (w, ok (failure_of e))
report_chunk p (w, panic) = (w, panic)
report_chunk p (w, ok t) = elim (percentage p) [
  | none ↦ (w, panic)
  | some pct ↦ (w, ok (success_of (message (upload_status p (wrap_int64 pct)))))
]

unfoldable pub handle_file_upload_chunk : FileUploadChunkParams → Io Response
unfolding report_chunk
handle_file_upload_chunk p w =
    report_chunk p (Transfer.upload_chunk p.path p.content_base64 p.chunk_index p.overwrite w)

unfoldable pub handle_file_download_chunk : FileDownloadChunkParams → Io Response
unfolding respond
handle_file_download_chunk p w =
    respond download_chunk (Transfer.download_chunk p.path p.offset p.chunk_size w)

unfoldable pub dispatch_tool : System → Tool → RawMessage → Io Response
unfolding with_params
dispatch_tool sys shell_exec j = with_params (decode_shell_exec j) (handle_shell_exec sys.os)
dispatch_tool sys file_read j = with_params (decode_file_read j) handle_file_read
dispatch_tool sys file_write j = with_params (decode_file_write j) handle_file_write
dispatch_tool sys file_edit j = with_params (decode_file_edit j) handle_file_edit
dispatch_tool sys file_list j = with_params (decode_path j) (handle_file_list sys)
dispatch_tool sys file_delete j = with_params (decode_path j) handle_file_delete
dispatch_tool sys glob j = with_params (decode_glob j) (handle_glob sys)
dispatch_tool sys grep j = with_params (decode_grep j) (handle_grep sys)
dispatch_tool sys registry j = with_params (decode_registry j) (handle_registry sys)
dispatch_tool sys event_log j = with_params (decode_event_log j) (handle_event_log sys)
dispatch_tool sys file_upload j = with_params (decode_file_upload j) handle_file_upload
dispatch_tool sys file_download j = with_params (decode_path j) handle_file_download
dispatch_tool sys file_upload_chunk j = with_params (decode_upload_chunk j) handle_file_upload_chunk
dispatch_tool sys file_download_chunk j =
    with_params (decode_download_chunk j) handle_file_download_chunk
dispatch_tool sys sys_info j = handle_sys_info sys
dispatch_tool sys processes j = handle_processes sys
dispatch_tool sys services j = handle_services sys
dispatch_tool sys net_info j = handle_net_info sys
dispatch_tool sys env_vars j = handle_env_vars sys
dispatch_tool sys installed_software j = handle_installed_software sys

unfoldable pub dispatch_to : System → Option Tool → Request → Io Response
unfolding dispatch_tool
dispatch_to sys none req w = (w, ok (failure_of (unknown_tool req.tool)))
dispatch_to sys (some t) req w = dispatch_tool sys t req.params w

unfoldable pub dispatch : System → Request → Io Response
unfolding dispatch_to
dispatch sys req = dispatch_to sys (tool_of req.tool) req
