-- ===== src/Protocol/Params.antt =====
-- The parameters of the tools and how they are read from JSON (internal/protocol/protocol.go, the
-- `…Params` types). An optional field that is absent has its zero value.
use lokifix.Prelude.Int.{ℤ}
use lokifix.Json.{RawMessage, fields_of, text_field, flag_field, int_field, ◌>>=◌}
use lokifix.Prelude.{Bool, Option, some, Bytes}

pub record ShellExecParams : Type 0 where
  pub command : Bytes
  pub shell : Bytes
  pub timeout : ℤ
  pub description : Bytes

pub record FileReadParams : Type 0 where
  pub path : Bytes
  pub offset : ℤ
  pub limit : ℤ

pub record FileWriteParams : Type 0 where
  pub path : Bytes
  pub content : Bytes

pub record FileEditParams : Type 0 where
  pub path : Bytes
  pub old_string : Bytes
  pub new_string : Bytes
  pub replace_all : Bool

-- `FileListParams`, `FileDeleteParams`, `FileDownloadParams`, and the anonymous struct with one
-- field `path` in internal/agent/handler.go.
pub record PathParams : Type 0 where
  pub path : Bytes

pub record GlobParams : Type 0 where
  pub pattern_text : Bytes
  pub path : Bytes

pub record GrepParams : Type 0 where
  pub pattern_text : Bytes
  pub path : Bytes
  pub glob : Bytes
  pub file_type : Bytes
  pub output_mode : Bytes
  pub case_insensitive : Bool
  pub context_before : ℤ
  pub context_after : ℤ
  pub context : ℤ
  pub head_limit : ℤ
  pub multiline : Bool

pub record RegistryReadParams : Type 0 where
  pub key : Bytes
  pub value : Bytes

pub record EventLogParams : Type 0 where
  pub log_name : Bytes
  pub max_items : ℤ
  pub level : Bytes

pub record FileUploadParams : Type 0 where
  pub path : Bytes
  pub content_base64 : Bytes
  pub overwrite : Bool

pub record FileUploadChunkParams : Type 0 where
  pub path : Bytes
  pub chunk_index : ℤ
  pub total_chunks : ℤ
  pub total_size : ℤ
  pub content_base64 : Bytes
  pub overwrite : Bool

pub record FileDownloadChunkParams : Type 0 where
  pub path : Bytes
  pub offset : ℤ
  pub chunk_size : ℤ

unfoldable pub decode_shell_exec : RawMessage → Option ShellExecParams
unfolding fields_of text_field flag_field int_field
decode_shell_exec j = do
  fs ← fields_of j
  command ← text_field "command" fs
  shell ← text_field "shell" fs
  timeout ← int_field "timeout" fs
  description ← text_field "description" fs
  some (record { command = command; shell = shell; timeout = timeout; description = description })

unfoldable pub decode_file_read : RawMessage → Option FileReadParams
unfolding fields_of text_field flag_field int_field
decode_file_read j = do
  fs ← fields_of j
  path ← text_field "path" fs
  offset ← int_field "offset" fs
  limit ← int_field "limit" fs
  some (record { path = path; offset = offset; limit = limit })

unfoldable pub decode_file_write : RawMessage → Option FileWriteParams
unfolding fields_of text_field flag_field int_field
decode_file_write j = do
  fs ← fields_of j
  path ← text_field "path" fs
  content ← text_field "content" fs
  some (record { path = path; content = content })

unfoldable pub decode_file_edit : RawMessage → Option FileEditParams
unfolding fields_of text_field flag_field int_field
decode_file_edit j = do
  fs ← fields_of j
  path ← text_field "path" fs
  old_string ← text_field "old_string" fs
  new_string ← text_field "new_string" fs
  replace_all ← flag_field "replace_all" fs
  some (record {
    path = path;
    old_string = old_string;
    new_string = new_string;
    replace_all = replace_all;
  })

unfoldable pub decode_path : RawMessage → Option PathParams
unfolding fields_of text_field flag_field int_field
decode_path j = do fs ← fields_of j; path ← text_field "path" fs; some (record { path = path })

unfoldable pub decode_glob : RawMessage → Option GlobParams
unfolding fields_of text_field flag_field int_field
decode_glob j = do
  fs ← fields_of j
  pattern_text ← text_field "pattern" fs
  path ← text_field "path" fs
  some (record { pattern_text = pattern_text; path = path })

unfoldable pub decode_grep : RawMessage → Option GrepParams
unfolding fields_of text_field flag_field int_field
decode_grep j = do
  fs ← fields_of j
  pattern_text ← text_field "pattern" fs
  path ← text_field "path" fs
  glob ← text_field "glob" fs
  file_type ← text_field "type" fs
  output_mode ← text_field "output_mode" fs
  case_insensitive ← flag_field "case_insensitive" fs
  context_before ← int_field "context_before" fs
  context_after ← int_field "context_after" fs
  context ← int_field "context" fs
  head_limit ← int_field "head_limit" fs
  multiline ← flag_field "multiline" fs
  some (record {
    pattern_text = pattern_text;
    path = path;
    glob = glob;
    file_type = file_type;
    output_mode = output_mode;
    case_insensitive = case_insensitive;
    context_before = context_before;
    context_after = context_after;
    context = context;
    head_limit = head_limit;
    multiline = multiline;
  })

unfoldable pub decode_registry : RawMessage → Option RegistryReadParams
unfolding fields_of text_field flag_field int_field
decode_registry j = do
  fs ← fields_of j
  key ← text_field "key" fs
  value ← text_field "value" fs
  some (record { key = key; value = value })

unfoldable pub decode_event_log : RawMessage → Option EventLogParams
unfolding fields_of text_field flag_field int_field
decode_event_log j = do
  fs ← fields_of j
  log_name ← text_field "log_name" fs
  max_items ← int_field "max_items" fs
  level ← text_field "level" fs
  some (record { log_name = log_name; max_items = max_items; level = level })

unfoldable pub decode_file_upload : RawMessage → Option FileUploadParams
unfolding fields_of text_field flag_field int_field
decode_file_upload j = do
  fs ← fields_of j
  path ← text_field "path" fs
  content_base64 ← text_field "content_base64" fs
  overwrite ← flag_field "overwrite" fs
  some (record { path = path; content_base64 = content_base64; overwrite = overwrite })

unfoldable pub decode_upload_chunk : RawMessage → Option FileUploadChunkParams
unfolding fields_of text_field flag_field int_field
decode_upload_chunk j = do
  fs ← fields_of j
  path ← text_field "path" fs
  chunk_index ← int_field "chunk_index" fs
  total_chunks ← int_field "total_chunks" fs
  total_size ← int_field "total_size" fs
  content_base64 ← text_field "content_base64" fs
  overwrite ← flag_field "overwrite" fs
  some (record {
    path = path;
    chunk_index = chunk_index;
    total_chunks = total_chunks;
    total_size = total_size;
    content_base64 = content_base64;
    overwrite = overwrite;
  })

unfoldable pub decode_download_chunk : RawMessage → Option FileDownloadChunkParams
unfolding fields_of text_field flag_field int_field
decode_download_chunk j = do
  fs ← fields_of j
  path ← text_field "path" fs
  offset ← int_field "offset" fs
  chunk_size ← int_field "chunk_size" fs
  some (record { path = path; offset = offset; chunk_size = chunk_size })
