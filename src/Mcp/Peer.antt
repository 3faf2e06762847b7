-- ===== src/Mcp/Peer.antt =====
-- The agent as the remote side of the MCP server, over a connection that loses nothing: each request
-- goes through the agent's handler. Where the agent's process ends, sending is an error.
use lokifix.Prelude.Int.{ℤ, pos}
use lokifix.World.{World, Result, ok, err, panic}
use lokifix.Protocol.Message.{Response, success_of, message}
use lokifix.Protocol.Encode.{decode-encode_upload_chunk}
use lokifix.Protocol.Params.{FileUploadChunkParams}
use lokifix.Protocol.Tool.{file_upload_chunk, tool_of-tool_name}
use lokifix.Base64.{encode_std}
use lokifix.Fileops.Transfer.{upload_chunk}
use lokifix.Agent.{needs_confirmation, is_zero}
use lokifix.Agent.Handlers.{System, dispatch, handle_file_upload_chunk, report_chunk, percentage}
use lokifix.Agent.Handler.{HandlerConfig, AgentState, handle_request, is_denied, finish}
use lokifix.Agent.Progress.{percentage-none}
use lokifix.Agent.Refusal.{dispatched}
use lokifix.Mcp.{Remote, Reply, answered, failed}
use lokifix.Mcp.Transfer.{transfer_chunk_size, max_size, chunks_of, chunk_params, upload_request}
use lokifix.Prelude.{
  ℕ, ◌+◌, ◌*◌, ◌≤◌, ◌<◌, ◌≡◌, refl, sym, ap, ◌∙◌, ◌≢◌, Bool, true, false, Option, none, some, ◌++◌,
  arith, ◌==◌, length, take, drop, take_add, Bytes, codes,
}

unfoldable pub agent_reply : AgentState × Result Response → AgentState × Reply
agent_reply (st, ok r) = (st, answered r)
agent_reply (st, err e) = (st, failed (codes "connection lost"))
agent_reply (st, panic) = (st, failed (codes "connection lost"))

unfoldable pub agent_remote : HandlerConfig → System → ℕ → ℕ → Remote AgentState
unfolding handle_request agent_reply
agent_remote cfg sys now later = record {
  is_connected = λ st. true;
  info = λ st. none;
  send = λ id req st. agent_reply (handle_request cfg sys now later req st);
}

pub chunks_of_lem :
    (n : ℕ)
    → (0 < chunks_of n)
      × (n ≤ chunks_of n * transfer_chunk_size)
      × (n ≤ max_size → chunks_of n ≤ 50)
unfolding chunks_of
chunks_of_lem n = ground arith

dispatch-upload_request :
    (sys : System) (path : Bytes) (overwrite : Bool) (content : Bytes) (i : ℕ) (w : World)
    → length content ≤ max_size
    → i < chunks_of (length content)
    → dispatch sys (upload_request path overwrite content i) w
      ≡ handle_file_upload_chunk (chunk_params path overwrite content i) w
unfolding dispatch upload_request chunk_params
dispatch-upload_request sys path overwrite content i w fits inside =
    let (some_chunks, enough, few) = chunks_of_lem (length content) in
    rw
      (
        tool_of-tool_name file_upload_chunk,
        decode-encode_upload_chunk (chunk_params path overwrite content i) (omega (arith, few fits))
            (omega (arith, few fits)) (omega arith),
      )
      refl

-- The handler's answer once the chunk is stored.
report_chunk-stored :
    (p : FileUploadChunkParams) (w : World)
    → p.total_chunks ≢ pos 0
    → (text : Bytes) × (report_chunk p (w, ok tt) ≡ (w, ok (success_of (message text))))
unfolding report_chunk
report_chunk-stored p w some_chunks = by_percentage (percentage p) refl
  where
    by_percentage :
        (o : Option ℤ)
        → percentage p ≡ o
        → (text : Bytes) × (report_chunk p (w, ok tt) ≡ (w, ok (success_of (message text))))
    by_percentage none e = absurd (some_chunks ((percentage-none p).0 e))
    by_percentage (some pct) e = rw (report_chunk, e) (_, refl)

chunk_params-chunks :
    (path : Bytes) (overwrite : Bool) (content : Bytes) (i : ℕ)
    → (chunk_params path overwrite content i).total_chunks ≢ pos 0
unfolding chunk_params
chunk_params-chunks path overwrite content i e =
    let zero_chunks : chunks_of (length content) ≡ 0 = cc e in
    absurd (omega (arith, (chunks_of_lem (length content)).0))

-- The bytes of a chunk, and how they follow on those before.
abbrev pub piece : ℕ → Bytes → Bytes
piece i content = take transfer_chunk_size (drop (i * transfer_chunk_size) content)

pub grown :
    (i : ℕ) (content : Bytes)
    → take (i * transfer_chunk_size) content ++ piece i content
      ≡ take ((i + 1) * transfer_chunk_size) content
grown i content =
    let longer : i * transfer_chunk_size + transfer_chunk_size ≡ (i + 1) * transfer_chunk_size =
      omega arith in
    sym (take_add (i * transfer_chunk_size) transfer_chunk_size content)
    ∙ ap (λ k. take k content) longer

-- The agent does not ask about a chunk after the first.
pub later-needs_confirmation :
    (path : Bytes) (overwrite : Bool) (content : Bytes) (i : ℕ)
    → length content ≤ max_size
    → 0 < i
    → i < chunks_of (length content)
    → needs_confirmation (upload_request path overwrite content i) ≡ false
unfolding needs_confirmation upload_request chunk_params is_zero
later-needs_confirmation path overwrite content i fits later inside =
    let (some_chunks, enough, few) = chunks_of_lem (length content) in
    let not_first : (i == 0) ≡ false = ground arith in
    rw
      (
        tool_of-tool_name file_upload_chunk,
        decode-encode_upload_chunk (chunk_params path overwrite content i) (omega (arith, few fits))
            (omega (arith, few fits)) (omega arith),
        not_first,
      )
      refl

pub later-is_denied :
    (cfg : HandlerConfig) (path : Bytes) (overwrite : Bool) (content : Bytes) (i : ℕ)
    → length content ≤ max_size
    → 0 < i
    → i < chunks_of (length content)
    → is_denied cfg (upload_request path overwrite content i) ≡ false
unfolding is_denied
later-is_denied cfg path overwrite content i fits later inside =
    rw (later-needs_confirmation path overwrite content i fits later inside) refl

module _ (cfg : HandlerConfig) (sys : System) (now later : ℕ) where
  -- The answer to a chunk that the agent's user does not refuse and that the disk takes.
  pub send-stored :
      (path : Bytes) (overwrite : Bool) (content : Bytes) (i : ℕ) (st : AgentState) (w : World)
      → length content ≤ max_size
      → i < chunks_of (length content)
      → is_denied cfg (upload_request path overwrite content i) ≡ false
      → upload_chunk path
          (encode_std (take transfer_chunk_size (drop (i * transfer_chunk_size) content)))
          (pos i)
          overwrite
          st.world
        ≡ (w, ok tt)
      → (st' : AgentState) × (text : Bytes) × (agent_reply
            (handle_request cfg sys now later (upload_request path overwrite content i) st)
          ≡ (st', answered (success_of (message text))))
        × (st'.world ≡ w)
  send-stored path overwrite content i st w fits inside allowed stored =
      let req = upload_request path overwrite content i in
      let p = chunk_params path overwrite content i in
      let (text, told) = report_chunk-stored p w (chunk_params-chunks path overwrite content i) in
      let at_world : dispatch sys req st.world ≡ (w, ok (success_of (message text))) =
        dispatch-upload_request sys path overwrite content i st.world fits inside
        ∙ (unfold handle_file_upload_chunk chunk_params in ap (report_chunk p) stored ∙ told) in
      rw (dispatched cfg sys now later req st allowed, at_world)
        (unfold finish agent_reply in (_, text, refl, refl))
