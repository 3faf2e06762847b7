-- ===== src/Protocol/Encode.antt =====
-- The parameters that the operator's side writes as JSON (internal/protocol/protocol.go), and what the
-- agent reads there.
use lokifix.Prelude.Int.{ℤ, pos, negsuc}
use lokifix.Json.{
  int, text, flag, obj, field, end, RawMessage, fields_of, text_field, flag_field, int_field,
  read_int, read_text, read_flag, member, update,
}
use lokifix.Protocol.Params.{
  FileUploadChunkParams, FileDownloadChunkParams, decode_upload_chunk, decode_download_chunk,
}
use lokifix.Prelude.{
  ◌^◌, ◌<◌, ◌≡◌, refl, Bool, true, false, some, arith, if◌then◌else◌, codes, eq_bytes, lower,
}

-- `json.Marshal` of the two kinds of parameters that the operator's side builds itself. An
-- `omitempty` flag is left out where it is false.
unfoldable pub encode_upload_chunk : FileUploadChunkParams → RawMessage
encode_upload_chunk p =
    let tail = if p.overwrite then field (codes "overwrite") (flag true) end else end in
    some (
      obj (
        field (codes "path") (text p.path) (
          field (codes "chunk_index") (int p.chunk_index) (
            field (codes "total_chunks") (int p.total_chunks) (
              field (codes "total_size") (int p.total_size)
                (field (codes "content_base64") (text p.content_base64) tail))))))

unfoldable pub encode_download_chunk : FileDownloadChunkParams → RawMessage
encode_download_chunk p = some (
    obj (
      field (codes "path") (text p.path) (
        field (codes "offset") (int p.offset) (field (codes "chunk_size") (int p.chunk_size) end))))

abbrev pub IsInt64 : ℤ → Type 0
IsInt64 (pos n) = n < 2 ^ 63
IsInt64 (negsuc n) = n < 2 ^ 63

pub read_int-int : (z : ℤ) → IsInt64 z → read_int (int z) ≡ some z
unfolding read_int
read_int-int (pos n) h = ground arith
read_int-int (negsuc n) h = ground arith

pub decode-encode_download_chunk :
    (p : FileDownloadChunkParams)
    → IsInt64 p.offset
    → IsInt64 p.chunk_size
    → decode_download_chunk (encode_download_chunk p) ≡ some p
unfolding fields_of text_field int_field member update read_text decode_download_chunk
    encode_download_chunk eq_bytes lower
decode-encode_download_chunk p h k = rw (read_int-int p.offset h) (rw (read_int-int p.chunk_size k))

decode-encode_upload_chunk_flag :
    (p : FileUploadChunkParams) (b : Bool)
    → p.overwrite ≡ b
    → IsInt64 p.chunk_index
    → IsInt64 p.total_chunks
    → IsInt64 p.total_size
    → decode_upload_chunk (encode_upload_chunk p) ≡ some p
unfolding fields_of text_field int_field flag_field member update read_text read_flag
    decode_upload_chunk encode_upload_chunk eq_bytes lower
decode-encode_upload_chunk_flag p true e h k l =
    rw (e, read_int-int p.chunk_index h)
      (rw (read_int-int p.total_chunks k) (rw (read_int-int p.total_size l) (ground arith)))
decode-encode_upload_chunk_flag p false e h k l =
    rw (e, read_int-int p.chunk_index h)
      (rw (read_int-int p.total_chunks k) (rw (read_int-int p.total_size l) (ground arith)))

-- The agent reads from a chunk's parameters what the operator's side wrote there.
pub decode-encode_upload_chunk :
    (p : FileUploadChunkParams)
    → IsInt64 p.chunk_index
    → IsInt64 p.total_chunks
    → IsInt64 p.total_size
    → decode_upload_chunk (encode_upload_chunk p) ≡ some p
decode-encode_upload_chunk p = decode-encode_upload_chunk_flag p p.overwrite refl
