-- ===== src/Agent/Tests.antt =====
-- Runs of the agent's handler, and concrete cases of what is proved about it.
use lokifix.Prelude.Int.{pos}
use lokifix.Json.{text, obj, field, end}
use lokifix.World.{World, ok, panic, file, write_node, make_parents, write_file_bytes}
use lokifix.Protocol.Message.{Request}
use lokifix.Protocol.Params.{FileUploadChunkParams, decode_path, decode_file_write}
use lokifix.Audit.{Logger, Clock, new_logger}
use lokifix.Audit.Danger.{
  Inside, dangerous_patterns, dangerous_file_paths, is_dangerous_iff, is_dangerous_command,
  is_dangerous_file_path,
}
use lokifix.Base64.{decode_std}
use lokifix.Fileops.Transfer.{
  write_file, upload_chunk, upload_chunk_content, is_first, exists_path, store,
}
use lokifix.Fileops.Glob.{Tree}
use lokifix.Agent.{needs_confirmation}
use lokifix.Agent.Handlers.{System, handle_file_write, handle_file_upload_chunk, dispatch}
use lokifix.Agent.Handler.{HandlerConfig, AgentState, handle_request}
use lokifix.Agent.Safety.{Sensitive, needs_confirmation_iff}
use lokifix.Agent.Refusal.{handle_request_guarded, Refused}
use lokifix.Agent.Progress.{handle_file_upload_chunk_iff}
use lokifix.Agent.World.{mutates_of}
use lokifix.Protocol.Tool.{tool_of}
use lokifix.Prelude.{
  ◌≡◌, refl, ap, ◌≢◌, ◌↔◌, true, false, none, some, [], replicate, All, Bytes, codes, eq_bytes,
  lower, has_prefix,
}

abbrev no_tree : Tree
no_tree = record { walk = λ p. []; direct = λ p. []; is_abs = λ p. false; mod_time = λ p. none }

-- A system on which every command succeeds without output.
abbrev pub quiet : System
quiet = record {
  os = record {
    spawn = λ args t w. (w, record { stdout = []; stderr = []; failure = none });
    show_duration = λ t. [];
  };
  seg = eq_bytes;
  compile = λ p. none;
  tree = λ w. no_tree;
  visits = λ w p. [];
  read_dir = λ p w. ok [];
  known = λ w. record {
    hostname = [];
    os = [];
    version = [];
    arch = [];
    cpus = 1;
    memory_total_mb = pos 0;
    memory_free_mb = pos 0;
    uptime_hours = [];
  };
  net_interfaces = λ w. [];
  environ = λ w. [];
  parse_int = λ s. pos 0;
  atoi = λ s. pos 0;
}

abbrev pub clock : Clock
clock = record { nano = λ t. []; seconds = λ t. []; rfc3339 = λ t. [] }

-- A user who says no to everything, and a hash of zeros.
abbrev pub cautious : HandlerConfig
cautious = record {
  confirm = some (λ action detail reason. false);
  hash = λ s. replicate 32 0;
  clock = clock;
}

abbrev pub empty_disk : World
empty_disk = record { disk = λ p. none; refuses = λ c p. false }

abbrev first_log : Logger
first_log = new_logger clock (codes "REMOTE") (codes "s1") 0

abbrev start : AgentState
start = record { world = empty_disk; logger = some first_log }

abbrev write_request : Bytes → Request
write_request path = record {
  tool = codes "file_write";
  params =
      some
        (obj (field (codes "path") (text path) (field (codes "content") (text (codes "hi")) end)));
}

abbrev delete_request : Request
delete_request = record {
  tool = codes "file_delete";
  params = some (obj (field (codes "path") (text (codes "a.txt")) end));
}

-- A protected path, in letters that are not those of the list.
asks_for_driver : needs_confirmation (write_request (codes "d:\\DRIVERS\\x")) ≡ true
unfolding needs_confirmation tool_of eq_bytes is_dangerous_file_path decode_path lower has_prefix
asks_for_driver = refl

asks_not_for_note : needs_confirmation (write_request (codes "n.txt")) ≡ false
unfolding needs_confirmation tool_of eq_bytes is_dangerous_file_path decode_path lower has_prefix
asks_not_for_note = refl

write_is_done :
    (((handle_request cautious quiet 1 2 (write_request (codes "n")) start).0).world).disk
      (codes "n")
    ≡ some (file (codes "hi"))
unfolding handle_request dispatch tool_of eq_bytes is_dangerous_file_path needs_confirmation
    decode_path decode_file_write lower has_prefix write_file handle_file_write
write_is_done = refl

write_changes :
    ((handle_request cautious quiet 1 2 (write_request (codes "n")) start).0).world ≢ empty_disk
write_changes e = absurd (cc (write_is_done, ap (λ w. w.disk (codes "n")) e))

handle_request_guarded_example :
    (mutates_of (tool_of (codes "file_write")) ≡ true)
    × ¬ (
        Sensitive (tool_of (codes "file_write")) (write_request (codes "n")).params
        × Refused cautious quiet 1 2 (write_request (codes "n")) start)
handle_request_guarded_example =
    handle_request_guarded cautious quiet 1 2 (write_request (codes "n")) start write_changes

needs_confirmation_iff_example :
    (needs_confirmation delete_request ≡ true)
    ↔ Sensitive (tool_of delete_request.tool) delete_request.params
needs_confirmation_iff_example = needs_confirmation_iff delete_request

is_dangerous_iff_example :
    ((is_dangerous_command (codes "dir") ≡ none)
      ↔ All (λ p. ¬ Inside p (codes "dir")) dangerous_patterns)
    × ((is_dangerous_file_path (codes "dir") ≡ none)
        ↔ All (λ p. ¬ Inside p (codes "dir")) dangerous_file_paths)
is_dangerous_iff_example = is_dangerous_iff (codes "dir")

-- The chunk "hi" with the index 0 of zero chunks.
abbrev chunk : FileUploadChunkParams
chunk = record {
  path = codes "n";
  chunk_index = pos 0;
  total_chunks = pos 0;
  total_size = pos 2;
  content_base64 = codes "aGk=";
  overwrite = false;
}

abbrev stored : World
stored = record empty_disk {
  disk = write_node (codes "n") (some (file (codes "hi"))) empty_disk.disk;
}

chunk_is_stored : upload_chunk (codes "n") (codes "aGk=") (pos 0) false empty_disk ≡ (stored, ok tt)
unfolding upload_chunk decode_std upload_chunk_content is_first exists_path store make_parents
    write_file_bytes
chunk_is_stored = refl

handle_file_upload_chunk_iff_example :
    (((handle_file_upload_chunk chunk empty_disk).1 ≡ panic) ↔ (pos 0 ≡ pos 0))
    × ((handle_file_upload_chunk chunk empty_disk).0 ≡ stored)
handle_file_upload_chunk_iff_example =
    handle_file_upload_chunk_iff chunk empty_disk stored chunk_is_stored
