-- ===== src/Fileops/Transfer/Chunk.antt =====
-- A file sent in chunks, and a chunk read.
use Prim.Native.Nat.{min}
use mathlib.Core.List.{flatten}
use lokifix.Prelude.Int.{pos}
use lokifix.Base64.{encode_std}
use lokifix.Base64.RoundTrip.{AreBytes, decode_std-encode_std}
use lokifix.Protocol.Message.{stat, open_file, write, past_the_end}
use lokifix.World.{World, file, Io, ok, err, ◌>>◌, return, base_name}
use lokifix.World.Calls.{
  written, write_node_self, append_file_bytes-file, stat_node-some, read_file_bytes-file,
}
use lokifix.Fileops.Transfer.{
  store, exists_path, is_first, upload_chunk_content, upload_chunk, read_chunk, download_chunk_node,
  download_chunk,
}
use lokifix.Fileops.Transfer.Upload.{store-Stores}
use lokifix.Prelude.{
  ℕ, ◌+◌, ◌-◌, ◌≤◌, ◌<◌, ◌≡◌, refl, ap, ◌∙◌, Bool, false, not, ◌&&◌, some, List, [], ◌∷◌, ◌++◌,
  append-nil, append_assoc, arith, ◌==◌, if◌then◌else◌, lt→ltb, length, take, drop, length-take,
  length-drop, nil_of_length, All, Bytes, is_empty,
}

-- The chunks of a file sent one after another, from the index `i` on.
unfoldable pub upload_pieces : Bytes → Bool → ℕ → List Bytes → Io (Unit {0})
upload_pieces path overwrite i [] = return tt
upload_pieces path overwrite i (d ∷ ds) = do
  upload_chunk path (encode_std d) (pos i) overwrite
  upload_pieces path overwrite (i + 1) ds

module _ (path : Bytes) (overwrite : Bool) where
  pub upload_chunk_next :
      (i : ℕ) (d c : Bytes) (w : World)
      → AreBytes d
      → 0 < i
      → w.disk path ≡ some (file c)
      → w.refuses open_file path ≡ false
      → w.refuses write path ≡ false
      → upload_chunk path (encode_std d) (pos i) overwrite w ≡ (written path w (c ++ d), ok tt)
  unfolding upload_chunk upload_chunk_content is_first
  upload_chunk_next i d c w bytes later here can_open can_write =
      let not_first : (i == 0) ≡ false = ground arith in
      rw (decode_std-encode_std d bytes, not_first)
        (append_file_bytes-file path w d here can_open can_write)

  upload_pieces_next :
      (i : ℕ) (ds : List Bytes) (c : Bytes) (w : World)
      → All AreBytes ds
      → 0 < i
      → w.disk path ≡ some (file c)
      → w.refuses open_file path ≡ false
      → w.refuses write path ≡ false
      → ((upload_pieces path overwrite i ds w).1 ≡ ok tt)
        × ((upload_pieces path overwrite i ds w).0.disk path ≡ some (file (c ++ flatten ds)))
  unfolding upload_pieces flatten
  upload_pieces_next i [] c w bytes later here can_open can_write = (refl, rw append-nil here)
  upload_pieces_next i (d ∷ ds) c w bytes later here can_open can_write =
      rw
        (
          upload_chunk_next i d c w bytes.0 later here can_open can_write,
          ← append_assoc c d (flatten ds),
        )
        (upload_pieces_next (i + 1) ds (c ++ d) (written path w (c ++ d)) bytes.1 (omega arith)
          (write_node_self path (some (file (c ++ d))) w.disk) can_open can_write)

  -- If the first chunk may be written, and then nothing is refused, all chunks are accepted and the
  -- file ends up as their bytes one after another.
  pub upload_pieces_lem :
      (d : Bytes) (ds : List Bytes) (w w1 : World)
      → All AreBytes (d ∷ ds)
      → (not overwrite && exists_path path w) ≡ false
      → store path d w ≡ (w1, ok tt)
      → w1.refuses open_file path ≡ false
      → w1.refuses write path ≡ false
      → ((upload_pieces path overwrite 0 (d ∷ ds) w).1 ≡ ok tt)
        × ((upload_pieces path overwrite 0 (d ∷ ds) w).0.disk path ≡ some (file (d ++ flatten ds)))
  unfolding upload_pieces upload_chunk upload_chunk_content is_first
  upload_pieces_lem d ds w w1 bytes free stored can_open can_write =
      let (holds, _) = rw stored at (store-Stores path d w) in
      rw (decode_std-encode_std d bytes.0, free, stored)
        (upload_pieces_next 1 ds d w1 bytes.1 (omega arith) holds can_open can_write)

not_empty : (s : Bytes) → 0 < length s → is_empty s ≡ false
not_empty [] h = absurd (omega arith)
not_empty (c ∷ s) h = refl

length-part :
    (size offset : ℕ) (content : Bytes)
    → length (take size (drop offset content)) ≡ min size (length content - offset)
length-part size offset content =
    length-take size (drop offset content) ∙ ap (min size) (length-drop offset content)

-- A chunk inside the file holds its bytes from the offset on, at most as many as asked for, and tells
-- the size of the whole file.
pub download_chunk_inside :
    (path content : Bytes) (offset size : ℕ) (w : World)
    → w.disk path ≡ some (file content)
    → w.refuses stat path ≡ false
    → w.refuses open_file path ≡ false
    → offset < length content
    → 0 < size
    → download_chunk path (pos offset) (pos size) w ≡ (
      w,
      ok (record {
        content_base64 = encode_std (take size (drop offset content));
        bytes_read = length (take size (drop offset content));
        total_size = length content;
        name = if offset == 0 then base_name path else [];
      }),
    )
unfolding download_chunk download_chunk_node read_chunk is_first
download_chunk_inside path content offset size w here can_stat can_open inside some_size =
    let part = take size (drop offset content) in
    let filled : is_empty part ≡ false =
      not_empty part (omega (arith, length-part size offset content)) in
    rw (stat_node-some path w here can_stat, read_file_bytes-file path w here can_open, filled)

-- At the end of the file or beyond there is no chunk to read. So an empty file has none at all.
pub download_chunk_past :
    (path content : Bytes) (offset size : ℕ) (w : World)
    → w.disk path ≡ some (file content)
    → w.refuses stat path ≡ false
    → w.refuses open_file path ≡ false
    → length content ≤ offset
    → 0 < size
    → download_chunk path (pos offset) (pos size) w ≡ (w, err past_the_end)
unfolding download_chunk download_chunk_node read_chunk
download_chunk_past path content offset size w here can_stat can_open past some_size =
    let part = take size (drop offset content) in
    let size_zero : length part ≤ 0 = omega (arith, length-part size offset content) in
    let nothing_read : part ≡ [] = nil_of_length part size_zero in
    rw (
      stat_node-some path w here can_stat,
      read_file_bytes-file path w here can_open,
      nothing_read,
      lt→ltb 0 size some_size,
    )
