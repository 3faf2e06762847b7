-- ===== src/Mcp/Upload.antt =====
-- An upload through the MCP server and the agent: the remote file ends up as the local one.
use lokifix.Json.{Json}
use lokifix.Prelude.Int.{pos}
use lokifix.Base64.{encode_std}
use lokifix.Base64.RoundTrip.{IsByte, AreBytes, decode_std-encode_std}
use lokifix.World.{World, file, ok}
use lokifix.World.Calls.{written, write_node_self, read_file_bytes-file}
use lokifix.Protocol.Message.{open_file, write}
use lokifix.Fileops.Transfer.{store, exists_path, is_first, upload_chunk, upload_chunk_content}
use lokifix.Fileops.Transfer.Upload.{store-Stores}
use lokifix.Fileops.Transfer.Chunk.{upload_chunk_next}
use lokifix.Agent.Handlers.{System}
use lokifix.Agent.Handler.{HandlerConfig, AgentState, is_denied}
use lokifix.Mcp.{
  Mcp, Tools, tool_result, ToolText, uploaded, Job, send_next, send_progress_notification,
  send_notification,
}
use lokifix.Mcp.Transfer.{
  transfer_chunk_size, max_size, chunks_of, UploadArgs, upload_request, upload_reply, upload_step,
  upload_loop, finish_upload, upload_job, begin_upload, upload_content, handle_file_upload,
}
use lokifix.Mcp.Peer.{agent_remote, chunks_of_lem, send-stored, later-is_denied, piece, grown}
use lokifix.Prelude.{
  ℕ, zero, suc, ◌+◌, ◌-◌, ◌*◌, ◌≤◌, ◌<◌, ◌≡◌, refl, sym, ap, subst, ◌∙◌, Bool, true, false, not,
  ◌&&◌, Option, none, some, ◌++◌, arith, ltb, length, take, take_all, All-take, All-drop, Bytes,
}

module _ (env : Tools) (cfg : HandlerConfig) (sys : System) (now later : ℕ) (job : Job)
    (overwrite : Bool) (content : Bytes) where
  abbrev round : ℕ → Mcp AgentState → Mcp AgentState × Option ToolText
  round = upload_step env (agent_remote cfg sys now later) job overwrite content

  abbrev rounds : ℕ → ℕ → Mcp AgentState → Mcp AgentState × Option ToolText
  rounds = upload_loop env (agent_remote cfg sys now later) job overwrite content

  upload_step-stored :
      (i : ℕ) (s : Mcp AgentState) (w : World)
      → length content ≤ max_size
      → i < chunks_of (length content)
      → is_denied cfg (upload_request job.target overwrite content i) ≡ false
      → upload_chunk job.target (encode_std (piece i content)) (pos i) overwrite (s.remote).world
        ≡ (w, ok tt)
      → (s' : Mcp AgentState) × (round i s ≡ (s', none)) × ((s'.remote).world ≡ w)
  unfolding upload_step upload_reply send_next send_progress_notification send_notification
      agent_remote
  upload_step-stored i s w fits inside allowed stored =
      let (st, text, answer, at_world) =
        send-stored cfg sys now later job.target overwrite content i s.remote w fits inside allowed
          stored in
      rw answer (_, refl, at_world)

  module _ (fits : length content ≤ max_size) (bytes : AreBytes content) where
    upload_loop-next :
        (n i : ℕ) (s : Mcp AgentState)
        → 0 < i
        → i + n ≡ chunks_of (length content)
        → ((s.remote).world).disk job.target ≡ some (file (take (i * transfer_chunk_size) content))
        → ((s.remote).world).refuses open_file job.target ≡ false
        → ((s.remote).world).refuses write job.target ≡ false
        → ((rounds i n s).1 ≡ none)
          × ((((rounds i n s).0).remote).world.disk job.target
              ≡ some (file (take ((i + n) * transfer_chunk_size) content)))
    unfolding upload_loop
    upload_loop-next zero i s some_sent total here can_open can_write =
        let same : i + 0 ≡ i = omega arith in rw same (refl, here)
    upload_loop-next (suc n) i s some_sent total here can_open can_write =
        let world = (s.remote).world in
        let sent = take (i * transfer_chunk_size) content in
        let stored : upload_chunk job.target (encode_std (piece i content)) (pos i) overwrite world
            ≡ (written job.target world (sent ++ piece i content), ok tt) =
          upload_chunk_next job.target overwrite i (piece i content) sent world
            (All-take IsByte transfer_chunk_size _
              (All-drop IsByte (i * transfer_chunk_size) content bytes))
            some_sent here can_open can_write in
        let inside : i < chunks_of (length content) = omega arith in
        let (s', done, at_world) =
          upload_step-stored i s (written job.target world (sent ++ piece i content)) fits inside
            (later-is_denied cfg job.target overwrite content i fits some_sent inside) stored in
        let index : i + suc n ≡ i + 1 + n = omega arith in
        rw (done, index)
          (upload_loop-next n (i + 1) s' (omega arith) (omega arith)
            (ap (λ v. v.disk job.target) at_world
              ∙ write_node_self job.target (some (file (sent ++ piece i content))) world.disk
              ∙ ap (λ b. some (file b)) (grown i content))
            (ap (λ v. v.refuses open_file job.target) at_world ∙ can_open)
            (ap (λ v. v.refuses write job.target) at_world ∙ can_write))

    -- All rounds, after the first chunk could be written.
    upload_loop-all :
        (n : ℕ) (s : Mcp AgentState) (w : World)
        → suc n ≡ chunks_of (length content)
        → is_denied cfg (upload_request job.target overwrite content 0) ≡ false
        → (not overwrite && exists_path job.target (s.remote).world) ≡ false
        → store job.target (take transfer_chunk_size content) (s.remote).world ≡ (w, ok tt)
        → w.refuses open_file job.target ≡ false
        → w.refuses write job.target ≡ false
        → ((rounds 0 (suc n) s).1 ≡ none)
          × ((((rounds 0 (suc n) s).0).remote).world.disk job.target ≡ some (file content))
    unfolding upload_loop upload_chunk upload_chunk_content is_first
    upload_loop-all n s w total allowed free made can_open can_write =
        let first = take transfer_chunk_size content in
        let (holds, _) = rw made at (store-Stores job.target first (s.remote).world) in
        let stored : upload_chunk job.target (encode_std first) (pos 0) overwrite (s.remote).world
            ≡ (w, ok tt) =
          rw (decode_std-encode_std first (All-take IsByte transfer_chunk_size content bytes), free)
            made in
        let (s', done, at_world) = upload_step-stored 0 s w fits (omega arith) allowed stored in
        let (ended, filled) =
          upload_loop-next n 1 s' (omega arith) (omega arith)
            (ap (λ v. v.disk job.target) at_world ∙ holds)
            (ap (λ v. v.refuses open_file job.target) at_world ∙ can_open)
            (ap (λ v. v.refuses write job.target) at_world ∙ can_write) in
        let covered : length content ≤ (1 + n) * transfer_chunk_size =
          omega (arith, (chunks_of_lem (length content)).1) in
        let whole : take ((1 + n) * transfer_chunk_size) content ≡ content =
          take_all ((1 + n) * transfer_chunk_size) content covered in
        rw done (ended, filled ∙ ap (λ b. some (file b)) whole)

not_larger : (m n : ℕ) → n ≤ m → ltb m n ≡ false
not_larger m n h = ground arith

finish_upload-sent :
    {R : Type 0} (env : Tools) (id : Option Json) (job : Job) (r : Mcp R × Option ToolText)
    → r.1 ≡ none
    → ((finish_upload env id job r).1
        ≡ tool_result id true (uploaded job.source job.target job.size job.chunks))
      × (((finish_upload env id job r).0).remote ≡ (r.0).remote)
unfolding finish_upload
finish_upload-sent env id job (s, none) e = (refl, refl)
finish_upload-sent env id job (s, some t) e = cc

-- An upload through the MCP server and the agent's handler, of a local file of bytes that can be
-- read and has at most 50 MB, reports success and leaves the remote file with exactly the local
-- content, if the agent's user does not refuse the first chunk, the target may be written, and the
-- agent's disk takes the first chunk and does not refuse the others.
pub handle_file_upload_lem :
    (env : Tools) (cfg : HandlerConfig) (sys : System) (now later : ℕ) (id : Option Json)
    (a : UploadArgs) (content : Bytes) (s : Mcp AgentState) (w : World)
    → s.home.disk a.local_path ≡ some (file content)
    → s.home.refuses open_file a.local_path ≡ false
    → length content ≤ max_size
    → AreBytes content
    → is_denied cfg (upload_request a.remote_path a.overwrite content 0) ≡ false
    → (not a.overwrite && exists_path a.remote_path (s.remote).world) ≡ false
    → store a.remote_path (take transfer_chunk_size content) (s.remote).world ≡ (w, ok tt)
    → w.refuses open_file a.remote_path ≡ false
    → w.refuses write a.remote_path ≡ false
    → ((handle_file_upload env (agent_remote cfg sys now later) id (some a) s).1
        ≡ tool_result id true (
            uploaded a.local_path a.remote_path
              (length content)
              (pos (chunks_of (length content)))))
      × ((((handle_file_upload env (agent_remote cfg sys now later) id (some a) s).0).remote
              ).world.disk
            a.remote_path
          ≡ some (file content))
unfolding handle_file_upload upload_content begin_upload send_progress_notification
    send_notification
handle_file_upload_lem env cfg sys now later id a content s w here can_read fits bytes allowed free
      made can_open can_write =
    let job = upload_job a content in
    let small : ltb max_size (length content) ≡ false = not_larger max_size (length content) fits in
    let n = chunks_of (length content) - 1 in
    let total : chunks_of (length content) ≡ suc n =
      omega (arith, (chunks_of_lem (length content)).0) in
    let (ended, filled) =
      subst
        (λ k.
          let r =
            upload_loop env (agent_remote cfg sys now later) job a.overwrite content 0 k
              (begin_upload env job s) in
          (r.1 ≡ none) × (((r.0).remote).world.disk a.remote_path ≡ some (file content)))
        (sym total)
        (upload_loop-all env cfg sys now later job a.overwrite content fits bytes n
          (begin_upload env job s) w (sym total) allowed free made can_open can_write) in
    let (told, kept) =
      finish_upload-sent env id job
        (upload_loop env (agent_remote cfg sys now later) job a.overwrite content 0
          (chunks_of (length content)) (begin_upload env job s))
        ended in
    rw (read_file_bytes-file a.local_path s.home here can_read, small)
      (told, ap (λ st. st.world.disk a.remote_path) kept ∙ filled)
