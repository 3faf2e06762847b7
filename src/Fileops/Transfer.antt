-- ===== src/Fileops/Transfer.antt =====
-- `WriteFile`, `DeleteFile` and the transfers of internal/fileops/fileops.go: a whole file or a chunk
-- of one, as base64 text. A slice of negative length is a panic of Go.
pub mod Upload
pub mod Chunk
use lokifix.Prelude.Int.{ℤ, pos, negsuc}
use lokifix.Base64.{encode_std, decode_std}
use lokifix.Protocol.Message.{
  Error, refused, open_file, read_at, stat, remove, file_exists, is_directory, invalid_base64,
  too_large, past_the_end, FileDownloadResult, FileDownloadChunkResult,
}
use lokifix.World.{
  World, Node, file, dir, Io, Result, ok, err, panic, after, ◌>>=◌, ◌>>◌, return, throw, crash,
  write_node, node_at, stat_node, read_file_bytes, write_file_bytes, append_file_bytes,
  make_parents, base_name,
}
use lokifix.Prelude.{
  ℕ, zero, suc, ◌+◌, ◌-◌, ◌*◌, ◌/◌, ◌%◌, ◌^◌, ◌≤◌, ◌<◌, ◌≡◌, refl, sym, ap, ap₂, subst, ◌∙◌, ◌≢◌,
  ◌↔◌, ◌⊎◌, inl, inr, Bool, true, false, not, ◌&&◌, ◌||◌, Option, none, some, List, [], ◌∷◌, ◌++◌,
  map, append-nil, append_assoc, arith, ltb, leb, ◌==◌, if◌then◌else◌, ltb→lt, lt→ltb, leb→le,
  ==_iff, Bool-cases, Option-cases, length, get_elem?, length-append, take, drop, replicate,
  length-take, length-drop, length-replicate, take-append-drop, take-append, take_all, take_nil,
  nil_of_length, length-map, All, All-append, Bytes, codes, eq_bytes, eq_bytes_iff, eq_bytes_refl,
  eq_bytes→eq, is_empty, lower, upper, to_lower, to_upper, to_lower_idem, is_space, trim_left,
  trim_right, trim_space, split_on, split, push_left, cut_at, replace_byte, join, show_nat,
  has_prefix, contains, has_prefix_sound, has_prefix_complete, contains_sound, contains_complete,
}

abbrev pub max_transfer_size : ℕ
max_transfer_size = 50 * 1024 * 1024

unfoldable pub write_file : Bytes → Bytes → Io (Unit {0})
unfolding make_parents write_file_bytes
write_file path content = do make_parents path; write_file_bytes path content

-- Everything below a directory goes with it: what begins with its path and a separator.
unfoldable pub is_below : Bytes → Bytes → Bool
is_below d p = has_prefix p (d ++ b'/' ∷ []) || has_prefix p (d ++ 92 ∷ [])

unfoldable pub remove_node : Bytes → Node → World → World
unfolding write_node is_below
remove_node path (file b) w = record w { disk = write_node path none w.disk }
remove_node path dir w = record w {
  disk = λ q. if eq_bytes path q || is_below path q then none else w.disk q;
}

unfoldable pub delete_file : Bytes → Io (Unit {0})
unfolding stat_node remove_node
delete_file path = do
  info ← stat_node path
  λ w. if w.refuses remove path then (w, err (refused remove)) else (remove_node path info w, ok tt)

-- `os.Stat` reports no error.
unfoldable pub exists_path : Bytes → World → Bool
unfolding node_at
exists_path path w = elim (node_at stat path w) [ none ↦ false | some n ↦ true ]

-- Directories made and the file written.
unfoldable pub store : Bytes → Bytes → Io (Unit {0})
store path content = do make_parents path; write_file_bytes path content

unfoldable pub upload_content : Bytes → Option Bytes → Io (Unit {0})
upload_content path none = throw invalid_base64
upload_content path (some content) =
    if ltb max_transfer_size (length content)
    then throw (too_large (length content))
    else store path content

unfoldable pub upload_file : Bytes → Bytes → Bool → Io (Unit {0})
upload_file path content_base64 overwrite w =
    if not overwrite && exists_path path w
    then (w, err file_exists)
    else upload_content path (decode_std content_base64) w

unfoldable pub download_node : Bytes → Node → Io FileDownloadResult
download_node path dir = throw is_directory
download_node path (file b) =
    if ltb max_transfer_size (length b) then throw (too_large (length b)) else (do
      content ← read_file_bytes path
      return
          (record { content_base64 = encode_std content; size = length b; name = base_name path }))

unfoldable pub download_file : Bytes → Io FileDownloadResult
download_file path = do info ← stat_node path; download_node path info

-- The chunk with index 0 creates or replaces the file, any other is appended to it.
unfoldable pub is_first : ℤ → Bool
is_first (pos n) = n == 0
is_first (negsuc n) = false

unfoldable pub upload_chunk_content : Bytes → Option Bytes → ℤ → Bool → Io (Unit {0})
upload_chunk_content path none index overwrite w = (w, err invalid_base64)
upload_chunk_content path (some content) index overwrite w =
    if is_first index
    then (if not overwrite && exists_path path w
        then (w, err file_exists)
        else store path content w)
    else append_file_bytes path content w

unfoldable pub upload_chunk : Bytes → Bytes → ℤ → Bool → Io (Unit {0})
upload_chunk path content_base64 index overwrite =
    upload_chunk_content path (decode_std content_base64) index overwrite

-- `f.ReadAt(buf, offset)`: what could be read, or `none` for an error with nothing read.
unfoldable pub read_at_offset : Bytes → ℤ → ℕ → Option Bytes
read_at_offset content (negsuc n) size = none
read_at_offset content (pos offset) size =
    let part = take size (drop offset content) in
    if is_empty part && ltb 0 size then none else some part

unfoldable pub chunk_result : Bytes → ℤ → ℕ → Option Bytes → Result FileDownloadChunkResult
chunk_result path offset total none = err past_the_end
chunk_result path offset total (some part) = ok (record {
  content_base64 = encode_std part;
  bytes_read = length part;
  total_size = total;
  name = if is_first offset then base_name path else [];
})

unfoldable pub read_chunk : Bytes → ℤ → ℤ → Bytes → Result FileDownloadChunkResult
unfolding chunk_result read_at_offset
read_chunk path offset (negsuc n) content = panic
read_chunk path offset (pos size) content =
    chunk_result path offset (length content) (read_at_offset content offset size)

unfoldable pub download_chunk_node : Bytes → ℤ → ℤ → Node → Io FileDownloadChunkResult
download_chunk_node path offset size dir = throw is_directory
download_chunk_node path offset size (file b) = do
  content ← read_file_bytes path
  λ w. (w, read_chunk path offset size content)

unfoldable pub download_chunk : Bytes → ℤ → ℤ → Io FileDownloadChunkResult
download_chunk path offset size = do
  info ← stat_node path
  download_chunk_node path offset size info
