-- ===== src/Mcp/Fetch.antt =====
-- One chunk of a download through the MCP server and the agent, and the saving of the first one.
use lokifix.Json.{Json}
use lokifix.Prelude.Int.{pos}
use lokifix.Prelude.Int64.{of_bits, wrap_int64}
use lokifix.Base64.{encode_std}
use lokifix.World.{
  World, file, Result, ok, err, panic, after, make_parents, write_file_bytes, base_name,
}
use lokifix.Protocol.Message.{
  Call, stat, open_file, write, success_of, Response, Payload, FileDownloadChunkResult,
}
use lokifix.Protocol.Message
use lokifix.Protocol.Encode.{decode-encode_download_chunk}
use lokifix.Protocol.Params.{FileDownloadChunkParams}
use lokifix.Protocol.Tool.{file_download_chunk, tool_of-tool_name}
use lokifix.Fileops.Transfer.Chunk.{download_chunk_inside}
use lokifix.Agent.{needs_confirmation}
use lokifix.Agent.Handlers.{System, dispatch, handle_file_download_chunk, respond}
use lokifix.Agent.Handler.{HandlerConfig, AgentState, is_denied, finish}
use lokifix.Agent.Refusal.{dispatched}
use lokifix.Mcp.{
  Mcp, Tools, tool_result, ToolText, downloaded, local_unwritten, Job, send_next,
  send_progress_notification, send_notification,
}
use lokifix.Mcp.Transfer.{
  transfer_chunk_size, chunks_of, download_chunks, download_request, continue, at_home, save_first,
  chunk_reply, request_download_chunk, finish_download,
}
use lokifix.Mcp.Peer.{agent_remote, agent_reply}
use lokifix.Prelude.{
  ◌-◌, ◌+◌, ◌%◌, lt→ltb, ◌≤◌, ℕ, ◌*◌, ◌^◌, ◌<◌, ◌≡◌, refl, ap, true, false, Option, none, some, [],
  arith, ◌==◌, if◌then◌else◌, length, take, drop, Bytes,
}

abbrev pub part : ℕ → Bytes → Bytes
part offset content = take transfer_chunk_size (drop offset content)

-- What the agent answers for the chunk at an offset of a file.
abbrev pub chunk_at : Bytes → Bytes → ℕ → FileDownloadChunkResult
chunk_at path content offset = record {
  content_base64 = encode_std (part offset content);
  bytes_read = length (part offset content);
  total_size = length content;
  name = if offset == 0 then base_name path else [];
}

pub chunks_of-inside : (n i : ℕ) → 0 < n → i < chunks_of n → i * transfer_chunk_size < n
unfolding chunks_of
chunks_of-inside n i some_bytes inside = ground arith

dispatch-download_request :
    (sys : System) (path content : Bytes) (offset : ℕ) (w : World)
    → offset < length content
    → length content < 2 ^ 63
    → w.disk path ≡ some (file content)
    → w.refuses stat path ≡ false
    → w.refuses open_file path ≡ false
    → dispatch sys (download_request path offset) w
      ≡ (w, ok (success_of (Message.download_chunk (chunk_at path content offset))))
unfolding dispatch download_request handle_file_download_chunk respond
dispatch-download_request sys path content offset w inside fits here can_stat can_open =
    let p : FileDownloadChunkParams = record {
      path = path;
      offset = pos offset;
      chunk_size = pos transfer_chunk_size;
    } in
    rw
      (
        tool_of-tool_name file_download_chunk,
        decode-encode_download_chunk p (omega arith) (omega arith),
      )
      (rw
        (download_chunk_inside path content offset transfer_chunk_size w here can_stat can_open
          inside (omega arith))
        refl)

download_request-is_denied :
    (cfg : HandlerConfig) (path : Bytes) (offset : ℕ)
    → is_denied cfg (download_request path offset) ≡ false
unfolding is_denied needs_confirmation download_request
download_request-is_denied cfg path offset = rw (tool_of-tool_name file_download_chunk) refl

pub save_first-made :
    {R : Type 0} (job : Job) (content : Bytes) (s : Mcp R) (h : World)
    (r : World × Result (Unit {0}))
    → make_parents job.target s.home ≡ r
    → after r (λ _. write_file_bytes job.target content) ≡ (h, ok tt)
    → (s' : Mcp R) × (save_first job (some content) s ≡ (s', none))
      × (s'.remote ≡ s.remote)
      × (s'.home ≡ h)
unfolding save_first at_home send_progress_notification send_notification
save_first-made job content s h (w, ok u) e made =
    let saved : at_home (local_unwritten 1) (write_file_bytes job.target content w)
          (record s { home = w })
        ≡ (record s { home = h }, none) =
      ap (λ q. at_home (local_unwritten 1) q (record s { home = w })) made in
    (
      send_progress_notification job 1 (record s { home = h }),
      rw e (ap (λ q. continue q (λ s2. (send_progress_notification job 1 s2, none))) saved),
      refl,
      refl,
    )
save_first-made job content s h (w, err x) e made = absurd (cc made)
save_first-made job content s h (w, panic) e made = absurd (cc made)

pub finish_download-sent :
    {R : Type 0} (env : Tools) (id : Option Json) (job : Job) (r : Mcp R × Option ToolText)
    → r.1 ≡ none
    → ((finish_download env id job r).1
        ≡ tool_result id true (downloaded job.source job.target job.size job.chunks))
      × (((finish_download env id job r).0).remote ≡ (r.0).remote)
      × (((finish_download env id job r).0).home ≡ (r.0).home)
unfolding finish_download
finish_download-sent env id job (s, none) e = (refl, refl, refl)
finish_download-sent env id job (s, some t) e = absurd (cc e)

-- The sum with the size of a chunk does not wrap around.
pub download_chunks-small :
    (n : ℕ) → n + transfer_chunk_size ≤ 2 ^ 63 → download_chunks n ≡ pos (chunks_of n)
unfolding download_chunks wrap_int64 of_bits
download_chunks-small n h =
    let low : n + transfer_chunk_size - 1 < 2 ^ 63 = omega arith in
    let same : (n + transfer_chunk_size - 1) % 2 ^ 64 ≡ n + transfer_chunk_size - 1 = omega arith in
    rw (download_chunks, of_bits, same, lt→ltb _ _ low) refl

-- The agent has the file and can read it.
abbrev pub HasFile : Bytes → Bytes → World → Type 0
HasFile path content w =
    (w.disk path ≡ some (file content))
    × (w.refuses stat path ≡ false)
    × (w.refuses open_file path ≡ false)

module _ (env : Tools) (cfg : HandlerConfig) (sys : System) (now later : ℕ) (path content : Bytes)
    (fits : length content < 2 ^ 63)
    (reads : (c : FileDownloadChunkResult) → env.chunk_of (Message.download_chunk c) ≡ some c) where
  pub request_download_chunk-read :
      (offset : ℕ) (s : Mcp AgentState)
      → offset < length content
      → HasFile path content (s.remote).world
      → (s' : Mcp AgentState) × (request_download_chunk env
            (agent_remote cfg sys now later)
            path
            offset
            s
          ≡ (s', some (chunk_at path content offset)))
        × ((s'.remote).world ≡ (s.remote).world)
        × (s'.home ≡ s.home)
  unfolding request_download_chunk chunk_reply send_next agent_remote agent_reply finish
  request_download_chunk-read offset s inside (here, can_stat, can_open) =
      rw
        (
          dispatched cfg sys now later (download_request path offset) s.remote
              (download_request-is_denied cfg path offset),
          dispatch-download_request sys path content offset (s.remote).world inside fits here
              can_stat can_open,
          reads (chunk_at path content offset),
        )
        (_, refl, refl, refl)
