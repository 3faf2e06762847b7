-- ===== src/Mcp/Transfer.antt =====
-- `handleFileUpload` and `handleFileDownload` of internal/mcp/server.go: a file goes over in chunks,
-- one request each, and the first failure ends the transfer.
use lokifix.Prelude.Int.{ℤ, pos, negsuc, pos_part}
use lokifix.Prelude.Int64.{wrap_int64, show_int}
use lokifix.Base64.{encode_std, decode_std}
use lokifix.Json.{Json, RawMessage, fields_of, text_field, flag_field, ◌>>=◌}
use lokifix.World.{
  World, Result, ok, err, panic, read_file_bytes, write_file_bytes, append_file_bytes, make_parents,
}
use lokifix.Protocol.Message.{Request, FileDownloadChunkResult}
use lokifix.Protocol.Tool.{
  file_upload, file_download, file_upload_chunk, file_download_chunk, tool_name,
}
use lokifix.Protocol.Encode.{encode_upload_chunk, encode_download_chunk}
use lokifix.Protocol.Params.{FileUploadChunkParams}
use lokifix.Mcp.{
  Mcp, Tools, Remote, Reply, answered, failed, Outgoing, tool_result, ToolText, invalid_arguments,
  local_unread, local_too_large, upload_unsent, upload_refused, uploaded, download_failed,
  chunk_failed, undecoded, local_unwritten, downloaded, Job, upload, download, logged, send_next,
  send_progress_notification,
}
use lokifix.Prelude.{
  ℕ, zero, suc, ◌+◌, ◌-◌, ◌*◌, ◌/◌, Bool, true, false, not, Option, none, some, ◌++◌, ltb, ◌==◌,
  if◌then◌else◌, length, take, drop, Bytes, codes, show_nat,
}

abbrev pub transfer_chunk_size : ℕ
transfer_chunk_size = 1 * 1024 * 1024

abbrev pub max_size : ℕ
max_size = 50 * 1024 * 1024

-- An empty file has one chunk.
unfoldable pub chunks_of : ℕ → ℕ
chunks_of size =
    let n = (size + transfer_chunk_size - 1) / transfer_chunk_size in if n == 0 then 1 else n

-- The same for a size that the agent has told, with the sum in `int64`: it wraps around for a size
-- near 2^63, and the quotient, rounded towards 0, is then negative.
unfoldable pub download_chunks : ℕ → ℤ
unfolding chunks_of wrap_int64
download_chunks size = elim (wrap_int64 (pos (size + transfer_chunk_size - 1))) [
  | pos n ↦ pos (chunks_of size)
  | negsuc n ↦ let q = (n + 1) / transfer_chunk_size in if q == 0 then pos 1 else negsuc (q - 1)
]

pub record UploadArgs : Type 0 where
  pub local_path : Bytes
  pub remote_path : Bytes
  pub overwrite : Bool

pub record DownloadArgs : Type 0 where
  pub remote_path : Bytes
  pub local_path : Bytes

unfoldable pub decode_upload_args : RawMessage → Option UploadArgs
unfolding fields_of text_field flag_field
decode_upload_args j = do
  fs ← fields_of j
  local_path ← text_field "local_path" fs
  remote_path ← text_field "remote_path" fs
  overwrite ← flag_field "overwrite" fs
  some (record { local_path = local_path; remote_path = remote_path; overwrite = overwrite })

unfoldable pub decode_download_args : RawMessage → Option DownloadArgs
unfolding fields_of text_field
decode_download_args j = do
  fs ← fields_of j
  remote_path ← text_field "remote_path" fs
  local_path ← text_field "local_path" fs
  some (record { remote_path = remote_path; local_path = local_path })

unfoldable pub chunk_params : Bytes → Bool → Bytes → ℕ → FileUploadChunkParams
unfolding chunks_of encode_std
chunk_params path overwrite content i = record {
  path = path;
  chunk_index = pos i;
  total_chunks = pos (chunks_of (length content));
  total_size = pos (length content);
  content_base64 = encode_std (take transfer_chunk_size (drop (i * transfer_chunk_size) content));
  overwrite = overwrite;
}

unfoldable pub upload_request : Bytes → Bool → Bytes → ℕ → Request
unfolding tool_name encode_upload_chunk chunk_params
upload_request path overwrite content i = record {
  tool = tool_name file_upload_chunk;
  params = encode_upload_chunk (chunk_params path overwrite content i);
}

unfoldable pub download_request : Bytes → ℕ → Request
unfolding tool_name encode_download_chunk
download_request path offset = record {
  tool = tool_name file_download_chunk;
  params =
      encode_download_chunk
        (record { path = path; offset = pos offset; chunk_size = pos transfer_chunk_size });
}

-- A step of a transfer ends with what is to be reported, or `none` to go on.
abbrev pub continue :
    {S : Type 0} → S × Option ToolText → (S → S × Option ToolText) → S × Option ToolText
continue (s, none) f = f s
continue (s, some t) f = (s, some t)

abbrev pub upload_job : UploadArgs → Bytes → Job
upload_job a content = record {
  direction = upload;
  source = a.local_path;
  target = a.remote_path;
  chunks = pos (chunks_of (length content));
  size = length content;
}

abbrev pub download_job : DownloadArgs → ℕ → Job
download_job a size = record {
  direction = download;
  source = a.remote_path;
  target = a.local_path;
  chunks = download_chunks size;
  size = size;
}

-- The result of a call on the operator's disk.
unfoldable pub at_home :
    {R : Type 0} → ToolText → World × Result (Unit {0}) → Mcp R → Mcp R × Option ToolText
at_home t (w, ok u) s = (record s { home = w }, none)
at_home t (w, err e) s = (record s { home = w }, some t)
at_home t (w, panic) s = (record s { home = w }, some t)

unfoldable pub save_next : {R : Type 0} → Job → ℕ → Option Bytes → Mcp R → Mcp R × Option ToolText
unfolding at_home append_file_bytes send_progress_notification
save_next job i none s = (s, some (undecoded (i + 1)))
save_next job i (some content) s =
    continue (at_home (local_unwritten (i + 1)) (append_file_bytes job.target content s.home) s)
      (λ s1. (send_progress_notification job (i + 1) s1, none))

-- The first chunk: directories made, the file created or replaced.
unfoldable pub save_first : {R : Type 0} → Job → Option Bytes → Mcp R → Mcp R × Option ToolText
unfolding at_home make_parents write_file_bytes send_progress_notification
save_first job none s = (s, some (undecoded 1))
save_first job (some content) s =
    continue (at_home (local_unwritten 1) (make_parents job.target s.home) s) (λ s1.
      continue (at_home (local_unwritten 1) (write_file_bytes job.target content s1.home) s1)
        (λ s2. (send_progress_notification job 1 s2, none)))

unfoldable pub download_reply :
    {R : Type 0} → Job → ℕ → Mcp R × Option FileDownloadChunkResult → Mcp R × Option ToolText
unfolding save_next decode_std
download_reply job i (s, none) = (s, some (chunk_failed (i + 1) job.chunks))
download_reply job i (s, some c) = save_next job i (decode_std c.content_base64) s

-- `requestDownloadChunk`: `none` is an error of sending, of the agent, or of the result's form.
unfoldable pub chunk_reply : Tools → Reply → Option FileDownloadChunkResult
chunk_reply env (failed e) = none
chunk_reply env (answered r) = if r.success then env.chunk_of r.content else none

module _ {R : Type 0} (env : Tools) where
  unfoldable pub begin_upload : Job → Mcp R → Mcp R
  unfolding tool_name send_progress_notification
  begin_upload job s =
      logged env (codes "SEND_" ++ tool_name file_upload)
        (job.source
          ++ codes " -> "
          ++ job.target
          ++ codes " ("
          ++ show_nat job.size
          ++ codes " bytes, "
          ++ show_int job.chunks
          ++ codes " chunks)")
        (codes "OK") (send_progress_notification job 0 s)

  unfoldable pub upload_reply : Job → ℕ → Reply → Mcp R → Mcp R × Option ToolText
  unfolding tool_name send_progress_notification
  upload_reply job i (failed e) s = (
    logged env (codes "RECV_" ++ tool_name file_upload_chunk)
        (codes "chunk " ++ show_nat i ++ codes " failed: " ++ e) (codes "ERROR") s,
    some (upload_unsent (i + 1) job.chunks e),
  )
  upload_reply job i (answered r) s =
      if not r.success
      then (s, some (upload_refused (i + 1) job.chunks r.error))
      else (send_progress_notification job (i + 1) s, none)

  unfoldable pub finish_upload : Option Json → Job → Mcp R × Option ToolText → Mcp R × Outgoing
  unfolding tool_name
  finish_upload id job (s, some t) = (s, tool_result id false t)
  finish_upload id job (s, none) = (
    logged env (codes "RECV_" ++ tool_name file_upload)
        (codes "complete: " ++ job.target ++ codes " (" ++ show_nat job.size ++ codes " bytes)")
        (codes "OK") s,
    tool_result id true (uploaded job.source job.target job.size job.chunks),
  )

  unfoldable pub begin_download : DownloadArgs → Mcp R → Mcp R
  unfolding tool_name
  begin_download a s =
      logged env (codes "SEND_" ++ tool_name file_download) a.remote_path (codes "OK") s

  unfoldable pub finish_download : Option Json → Job → Mcp R × Option ToolText → Mcp R × Outgoing
  unfolding tool_name
  finish_download id job (s, some t) = (s, tool_result id false t)
  finish_download id job (s, none) = (
    logged env (codes "RECV_" ++ tool_name file_download)
        (job.source
          ++ codes " -> "
          ++ job.target
          ++ codes " ("
          ++ show_nat job.size
          ++ codes " bytes)")
        (codes "OK") s,
    tool_result id true (downloaded job.source job.target job.size job.chunks),
  )

module _ {R : Type 0} (env : Tools) (net : Remote R) where
  -- One round of the loop.
  unfoldable pub upload_step : Job → Bool → Bytes → ℕ → Mcp R → Mcp R × Option ToolText
  unfolding upload_request send_next upload_reply
  upload_step job overwrite content i s =
      let (s1, reply) = send_next net (upload_request job.target overwrite content i) s in
      upload_reply env job i reply s1

  -- The rounds from `i` on, as many as given.
  unfoldable pub upload_loop : Job → Bool → Bytes → ℕ → ℕ → Mcp R → Mcp R × Option ToolText
  unfolding upload_step
  upload_loop job overwrite content i zero s = (s, none)
  upload_loop job overwrite content i (suc n) s =
      continue (upload_step job overwrite content i s)
        (λ s1. upload_loop job overwrite content (i + 1) n s1)

  unfoldable pub upload_content : Option Json → UploadArgs → Result Bytes → Mcp R → Mcp R × Outgoing
  unfolding chunks_of upload_loop finish_upload begin_upload
  upload_content id a (err e) s = (s, tool_result id false local_unread)
  upload_content id a panic s = (s, tool_result id false local_unread)
  upload_content id a (ok content) s =
      let job = upload_job a content in
      if ltb max_size (length content)
      then (s, tool_result id false (local_too_large (length content)))
      else finish_upload env id job (
          upload_loop job a.overwrite content 0 (chunks_of (length content))
            (begin_upload env job s))

  unfoldable pub handle_file_upload : Option Json → Option UploadArgs → Mcp R → Mcp R × Outgoing
  unfolding upload_content read_file_bytes
  handle_file_upload id none s = (s, tool_result id false invalid_arguments)
  handle_file_upload id (some a) s = upload_content id a ((read_file_bytes a.local_path s.home).1) s

  unfoldable pub request_download_chunk : Bytes → ℕ → Mcp R → Mcp R × Option FileDownloadChunkResult
  unfolding download_request send_next chunk_reply
  request_download_chunk path offset s =
      let (s1, reply) = send_next net (download_request path offset) s in
      (s1, chunk_reply env reply)

  unfoldable pub download_step : Job → ℕ → Mcp R → Mcp R × Option ToolText
  unfolding request_download_chunk download_reply
  download_step job i s =
      download_reply job i (request_download_chunk job.source (i * transfer_chunk_size) s)

  unfoldable pub download_loop : Job → ℕ → ℕ → Mcp R → Mcp R × Option ToolText
  unfolding download_step
  download_loop job i zero s = (s, none)
  download_loop job i (suc n) s =
      continue (download_step job i s) (λ s1. download_loop job (i + 1) n s1)

  unfoldable pub download_rest :
      Option Json → DownloadArgs → Mcp R × Option FileDownloadChunkResult → Mcp R × Outgoing
  unfolding download_chunks save_first download_loop finish_download send_progress_notification
      decode_std
  download_rest id a (s, none) = (s, tool_result id false download_failed)
  download_rest id a (s, some c) =
      let job = download_job a c.total_size in
      finish_download env id job (
        continue (save_first job (decode_std c.content_base64) (send_progress_notification job 0 s))
          (λ s1. download_loop job 1 (pos_part job.chunks - 1) s1))

  unfoldable pub handle_file_download : Option Json → Option DownloadArgs → Mcp R → Mcp R × Outgoing
  unfolding request_download_chunk download_rest begin_download
  handle_file_download id none s = (s, tool_result id false invalid_arguments)
  handle_file_download id (some a) s =
      download_rest id a (request_download_chunk a.remote_path 0 (begin_download env a s))
