-- ===== src/Agent/World.antt =====
-- Which handlers leave the world as it was.
use lokifix.World.{
  World, Node, file, dir, node_at, Result, ok, err, panic, Io, after, stat_node, read_file_bytes,
}
use lokifix.Protocol.Message.{Response, Payload, open_file}
use lokifix.Protocol.Tool.{
  Tool, shell_exec, file_read, file_write, file_edit, file_list, file_delete, glob, grep, sys_info,
  processes, services, registry, net_info, env_vars, installed_software, event_log, file_upload,
  file_download, file_upload_chunk, file_download_chunk, tool_of,
}
use lokifix.Json.{RawMessage}
use lokifix.Protocol.Message.{Request}
use lokifix.Protocol.Params.{
  decode_file_read, decode_path, decode_glob, decode_grep, decode_download_chunk,
}
use lokifix.Prelude.Int.{ℤ}
use lokifix.Fileops.Grep.{grep_file}
use lokifix.Fileops.Read.{read_file}
use lokifix.Fileops.Transfer.{
  max_transfer_size, download_file, download_node, download_chunk, download_chunk_node,
}
use lokifix.Agent.Handlers.{
  handle_net_info, handle_env_vars, System, respond, with_params, handle_file_read,
  handle_file_list, handle_glob, handle_grep, handle_file_download, handle_file_download_chunk,
  dispatch_tool, dispatch_to, dispatch, grep_options,
}
use lokifix.Prelude.{
  ◌≡◌, refl, ◌∙◌, inl, inr, Bool, true, false, Option, none, some, arith, ltb, Bool-cases, length,
  Bytes,
}

-- The tools that write files, or that run a command.
unfoldable pub mutates : Tool → Bool
mutates shell_exec = true
mutates file_write = true
mutates file_edit = true
mutates file_delete = true
mutates file_upload = true
mutates file_upload_chunk = true
mutates sys_info = true
mutates processes = true
mutates services = true
mutates registry = true
mutates installed_software = true
mutates event_log = true
mutates _ = false

unfoldable pub mutates_of : Option Tool → Bool
unfolding mutates
mutates_of none = false
mutates_of (some t) = mutates t

after-world :
    {A B : Type 0} (w : World) (r : World × Result A) (f : A → Io B)
    → r.0 ≡ w
    → ((a : A) → (f a w).0 ≡ w)
    → (after r f).0 ≡ w
after-world w (v, ok a) f h g = rw h (g a)
after-world w (v, err e) f h g = h
after-world w (v, panic) f h g = h

respond-world : {A : Type 0} (f : A → Payload) (r : World × Result A) → (respond f r).0 ≡ r.0
unfolding respond
respond-world f (w, ok a) = refl
respond-world f (w, err e) = refl
respond-world f (w, panic) = refl

with_params-world :
    {P : Type 0} (o : Option P) (f : P → Io Response) (w : World)
    → ((p : P) → (f p w).0 ≡ w)
    → (with_params o f w).0 ≡ w
unfolding with_params
with_params-world none f w h = refl
with_params-world (some p) f w h = h p

stat_node-world : (p : Bytes) (w : World) → (stat_node p w).0 ≡ w
unfolding stat_node
stat_node-world p w = ground arith

read_file_bytes-world : (p : Bytes) (w : World) → (read_file_bytes p w).0 ≡ w
unfolding read_file_bytes
read_file_bytes-world p w = by_node (node_at open_file p w) refl
  where
    by_node : (o : Option Node) → node_at open_file p w ≡ o → (read_file_bytes p w).0 ≡ w
    by_node none e = rw (read_file_bytes, e) refl
    by_node (some (file b)) e = rw (read_file_bytes, e) refl
    by_node (some dir) e = rw (read_file_bytes, e) refl

read_file-world : (p : Bytes) (o l : ℤ) (w : World) → (read_file p o l w).0 ≡ w
unfolding read_file
read_file-world p o l w =
    after-world w (stat_node p w) _ (stat_node-world p w)
      (λ n. after-world w (read_file_bytes p w) _ (read_file_bytes-world p w) (λ b. refl))

download_node-world : (p : Bytes) (n : Node) (w : World) → (download_node p n w).0 ≡ w
unfolding download_node
download_node-world p dir w = refl
download_node-world p (file b) w = elim (Bool-cases (ltb max_transfer_size (length b))) [
  | inl e ↦ rw e refl
  | inr e ↦ rw e (after-world w (read_file_bytes p w) _ (read_file_bytes-world p w) (λ c. refl))
]

download_file-world : (p : Bytes) (w : World) → (download_file p w).0 ≡ w
unfolding download_file
download_file-world p w =
    after-world w (stat_node p w) _ (stat_node-world p w) (λ n. download_node-world p n w)

download_chunk_node-world :
    (p : Bytes) (o s : ℤ) (n : Node) (w : World) → (download_chunk_node p o s n w).0 ≡ w
unfolding download_chunk_node
download_chunk_node-world p o s dir w = refl
download_chunk_node-world p o s (file b) w =
    after-world w (read_file_bytes p w) _ (read_file_bytes-world p w) (λ c. refl)

download_chunk-world : (p : Bytes) (o s : ℤ) (w : World) → (download_chunk p o s w).0 ≡ w
unfolding download_chunk
download_chunk-world p o s w =
    after-world w (stat_node p w) _ (stat_node-world p w) (λ n. download_chunk_node-world p o s n w)

dispatch_tool-world :
    (sys : System) (t : Tool) (j : RawMessage) (w : World)
    → mutates t ≡ false
    → (dispatch_tool sys t j w).0 ≡ w
unfolding dispatch_tool mutates handle_net_info handle_env_vars
dispatch_tool-world sys file_read j w h =
    with_params-world (decode_file_read j) handle_file_read w (λ p.
      unfold handle_file_read in
      respond-world _ (read_file p.path p.offset p.limit w)
      ∙ read_file-world p.path p.offset p.limit w)
dispatch_tool-world sys file_list j w h =
    with_params-world (decode_path j) (handle_file_list sys) w
      (λ p. unfold handle_file_list in respond-world _ (w, sys.read_dir p.path w))
dispatch_tool-world sys glob j w h =
    with_params-world (decode_glob j) (handle_glob sys) w (λ p. unfold handle_glob in refl)
dispatch_tool-world sys grep j w h = with_params-world (decode_grep j) (handle_grep sys) w (λ p.
    unfold handle_grep in
    respond-world _ (w, grep_file sys.compile sys.seg (sys.visits w) (grep_options p)))
dispatch_tool-world sys file_download j w h =
    with_params-world (decode_path j) handle_file_download w (λ p.
      unfold handle_file_download in
      respond-world _ (download_file p.path w) ∙ download_file-world p.path w)
dispatch_tool-world sys file_download_chunk j w h =
    with_params-world (decode_download_chunk j) handle_file_download_chunk w (λ p.
      unfold handle_file_download_chunk in
      respond-world _ (download_chunk p.path p.offset p.chunk_size w)
      ∙ download_chunk-world p.path p.offset p.chunk_size w)
dispatch_tool-world sys net_info j w h = refl
dispatch_tool-world sys env_vars j w h = refl
dispatch_tool-world sys t j w h = cc

dispatch_to-world :
    (sys : System) (o : Option Tool) (req : Request) (w : World)
    → mutates_of o ≡ false
    → (dispatch_to sys o req w).0 ≡ w
unfolding dispatch_to mutates_of
dispatch_to-world sys none req w h = refl
dispatch_to-world sys (some t) req w h = dispatch_tool-world sys t req.params w h

-- A request for any of the other tools, and for a tool that is not known, leaves the world.
pub dispatch-world :
    (sys : System) (req : Request) (w : World)
    → mutates_of (tool_of req.tool) ≡ false
    → (dispatch sys req w).0 ≡ w
unfolding dispatch
dispatch-world sys req w h = dispatch_to-world sys (tool_of req.tool) req w h
