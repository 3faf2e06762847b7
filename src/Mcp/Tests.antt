-- ===== src/Mcp/Tests.antt =====
-- Runs of the MCP server, and concrete cases of what is proved about it.
use lokifix.Prelude.Int.{pos}
use lokifix.Json.{Json, int}
use lokifix.Base64.RoundTrip.{AreBytes}
use lokifix.World.{World, file, ok, make_parents, write_file_bytes, write_node}
use lokifix.Protocol.Message.{Payload, FileDownloadChunkResult, stat, open_file, write}
use lokifix.Protocol.Message
use lokifix.Protocol.Params.{decode_upload_chunk}
use lokifix.Fileops.Transfer.{store, exists_path}
use lokifix.Agent.{needs_confirmation}
use lokifix.Agent.Handler.{AgentState, is_denied}
use lokifix.Agent.Tests.{quiet, clock, cautious, empty_disk}
use lokifix.Audit.Danger.{is_dangerous_file_path}
use lokifix.Protocol.Tool.{tool_of}
use lokifix.Duration.{format_duration}
use lokifix.Mcp.{
  Mcp, Tools, Remote, Incoming, tool_result, uploaded, truncate_str, bar_of, stage_of, percent_of,
  complete,
}
use lokifix.Mcp.Transfer.{
  UploadArgs, DownloadArgs, chunks_of, upload_request, handle_file_upload, transfer_chunk_size,
}
use lokifix.Mcp.Calls.{CallParams}
use lokifix.Mcp.Peer.{agent_remote}
use lokifix.Mcp.Upload.{handle_file_upload_lem}
use lokifix.Prelude.{
  ◌+◌, ◌*◌, ◌≡◌, refl, true, false, Option, none, some, List, [], ◌∷◌, arith, if◌then◌else◌, take,
  replicate, Bytes, codes, eq_bytes, lower, show_nat, has_prefix,
}

hours_and_minutes : format_duration 7384000000000 ≡ codes "2h 3m 4s"
unfolding format_duration show_nat
hours_and_minutes = refl

cut_short : truncate_str (codes "abcdef") 3 ≡ codes "abc..."
unfolding truncate_str
cut_short = refl

done_at_last : stage_of 3 (pos 3) ≡ complete (replicate 20 true)
unfolding stage_of bar_of percent_of
done_at_last = refl

chunks_of_two_parts : chunks_of (1024 * 1024 + 1) ≡ 2
unfolding chunks_of
chunks_of_two_parts = refl

chunk_from : Payload → Option FileDownloadChunkResult
chunk_from (Message.download_chunk c) = some c
chunk_from p = none

abbrev env : Tools
env = record {
  hash = λ s. replicate 32 0;
  clock = clock;
  now = λ l. 5;
  json_text = λ j. [];
  error_text = λ e. [];
  time_text = λ t. [];
  since = λ t. t;
  chunk_of = chunk_from;
}

abbrev disk_with : Bytes → Bytes → World
disk_with path content = record {
  disk = λ p. if eq_bytes path p then some (file content) else none;
  refuses = λ c p. false;
}

abbrev server : World → World → Mcp AgentState
server home there = record {
  request_id = 0;
  logger = none;
  notes = [];
  home = home;
  remote = record { world = there; logger = none };
}

abbrev agent : Remote AgentState
agent = agent_remote cautious quiet 1 2

abbrev idle : Mcp AgentState
idle = server empty_disk empty_disk

-- A local file that is to be sent, and a remote one that is to be fetched.
abbrev sender : Mcp AgentState
sender = server (disk_with (codes "a") (codes "hi")) empty_disk

abbrev fetcher : Mcp AgentState
fetcher = server empty_disk (disk_with (codes "a") (codes "hi"))

abbrev upload_args : UploadArgs
upload_args = record { local_path = codes "a"; remote_path = codes "b"; overwrite = false }

hi_there : (disk_with (codes "a") (codes "hi")).disk (codes "a") ≡ some (file (codes "hi"))
unfolding eq_bytes
hi_there = refl

hi_is_allowed : is_denied cautious (upload_request (codes "b") false (codes "hi") 0) ≡ false
unfolding is_denied needs_confirmation upload_request tool_of eq_bytes decode_upload_chunk lower
    is_dangerous_file_path has_prefix
hi_is_allowed = refl

abbrev saved_world : World
saved_world = record {
  disk = write_node (codes "b") (some (file (codes "hi"))) empty_disk.disk;
  refuses = λ c p. false;
}

hi_is_stored :
    store (codes "b") (take transfer_chunk_size (codes "hi")) empty_disk ≡ (saved_world, ok tt)
unfolding store make_parents write_file_bytes
hi_is_stored = refl

hi-AreBytes : AreBytes (codes "hi")
hi-AreBytes = (omega arith, (omega arith, tt))

abbrev two : Option Json
two = some (int (pos 2))

handle_file_upload_lem_example :
    ((handle_file_upload env agent two (some upload_args) sender).1
      ≡ tool_result two true (uploaded (codes "a") (codes "b") 2 (pos (chunks_of 2))))
    × ((((handle_file_upload env agent two (some upload_args) sender).0).remote).world.disk
          (codes "b")
        ≡ some (file (codes "hi")))
unfolding eq_bytes exists_path
handle_file_upload_lem_example =
    handle_file_upload_lem env cautious quiet 1 2 two upload_args (codes "hi") sender saved_world
      hi_there refl (omega arith) hi-AreBytes hi_is_allowed refl hi_is_stored refl refl

abbrev download_args : DownloadArgs
download_args = record { remote_path = codes "a"; local_path = codes "b" }

-- A request, a line that is no message, and the client's notification.
abbrev lines : List (Option Incoming)
lines =
    some (record { id = some (int (pos 1)); method = codes "tools/list"; params = none })
    ∷ none
    ∷ some (record { id = none; method = codes "notifications/initialized"; params = none })
    ∷ []

abbrev unknown_call : CallParams
unknown_call = record { name = codes "x"; arguments = none }
