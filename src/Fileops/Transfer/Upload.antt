-- ===== src/Fileops/Transfer/Upload.antt =====
-- What uploads leave on the disk.
use lokifix.Base64.{decode_std}
use lokifix.Protocol.Message.{file_exists, too_large, invalid_base64}
use lokifix.World.{World, Node, file, Result, ok, err, panic, after, make_parents, write_file_bytes}
use lokifix.World.Calls.{
  Ensures, KeepsNodes, make_parents-KeepsNodes, write_file_bytes-cases, write_node_self,
  write_node_ne,
}
use lokifix.Fileops.Transfer.{max_transfer_size, store, exists_path, upload_content, upload_file}
use lokifix.Prelude.{
  ◌≤◌, ◌<◌, ◌≡◌, refl, ◌∙◌, ◌≢◌, inl, inr, Bool, true, false, not, ◌&&◌, Option, none, some, arith,
  ltb, lt→ltb, Bool-cases, length, Bytes,
}

-- The file has the content, and what stood at any other path is still there.
abbrev pub Holds : Bytes → Bytes → World → World → Type 0
Holds path content w w' =
    (w'.disk path ≡ some (file content))
    × ((q : Bytes) (n : Node) → path ≢ q → w.disk q ≡ some n → w'.disk q ≡ some n)

abbrev pub Stores : Bytes → Bytes → World → World × Result (Unit {0}) → Type 0
Stores path content w r = Ensures (λ w' _. Holds path content w w') r

write_after :
    (path content : Bytes) (w w1 : World)
    → KeepsNodes w w1
    → Stores path content w (write_file_bytes path content w1)
write_after path content w w1 keeps = elim (write_file_bytes-cases path content w1) [
  | inl (e, refused_it) ↦ rw refused_it tt
  | inr done ↦ rw done (
    write_node_self path (some (file content)) w1.disk,
    λ q n ne h. write_node_ne path q (some (file content)) w1.disk ne ∙ keeps q n h,
  )
]

pub store-Stores : (path content : Bytes) (w : World) → Stores path content w (store path content w)
unfolding store
store-Stores path content w = by_parents (make_parents path w) (make_parents-KeepsNodes path w)
  where
    by_parents :
        (r : World × Result (Unit {0}))
        → KeepsNodes w r.0
        → Stores path content w (after r (λ _. write_file_bytes path content))
    by_parents (w1, ok u) keeps = write_after path content w w1 keeps
    by_parents (w1, err e) keeps = tt
    by_parents (w1, panic) keeps = tt

Ensures-map {ℓ} :
    {A : Type ℓ} {P Q : World → A → Type 0} (r : World × Result A)
    → ((w : World) (a : A) → P w a → Q w a)
    → Ensures P r
    → Ensures Q r
Ensures-map (w, ok a) f h = f w a h
Ensures-map (w, err e) f h = tt
Ensures-map (w, panic) f h = tt

-- What a successful upload of a text promises.
abbrev pub Uploaded : Bytes → Bytes → World → World → Unit {0} → Type 0
Uploaded path b64 w w' _ =
    (content : Bytes) × (decode_std b64 ≡ some content)
    × (length content ≤ max_transfer_size)
    × Holds path content w w'

upload_content-Uploaded :
    (path b64 : Bytes) (w : World) (o : Option Bytes)
    → decode_std b64 ≡ o
    → Ensures (Uploaded path b64 w) (upload_content path o w)
unfolding upload_content
upload_content-Uploaded path b64 w none e = tt
upload_content-Uploaded path b64 w (some content) e =
    elim (Bool-cases (ltb max_transfer_size (length content))) [
      | inl big ↦ rw big tt
      | inr fits ↦
          let small : length content ≤ max_transfer_size = ground arith in
          rw fits (
            Ensures-map {P = λ w' _. Holds path content w w'} {Q = Uploaded path b64 w}
              (store path content w) (λ w' _ h. (content, e, small, h))
              (store-Stores path content w))
    ]

-- An upload that reports success has put the decoded bytes, at most 50 MB, into the file, and what
-- stood at other paths is still there. It is refused with nothing changed if the path is taken and
-- overwriting is not allowed; else also if the text is no base64, or stands for more than 50 MB.
pub upload_file_lem :
    (path content_base64 : Bytes) (overwrite : Bool) (w : World)
    → Ensures (Uploaded path content_base64 w) (upload_file path content_base64 overwrite w)
      × (overwrite ≡ false
          → exists_path path w ≡ true
          → upload_file path content_base64 overwrite w ≡ (w, err file_exists))
      × (overwrite ≡ true
          → decode_std content_base64 ≡ none
          → upload_file path content_base64 overwrite w ≡ (w, err invalid_base64))
      × ((content : Bytes)
          → overwrite ≡ true
          → decode_std content_base64 ≡ some content
          → max_transfer_size < length content
          → upload_file path content_base64 overwrite w ≡ (w, err (too_large (length content))))
unfolding upload_file upload_content
upload_file_lem path b64 overwrite w = (
  elim (Bool-cases (not overwrite && exists_path path w)) [
    | inl taken ↦ rw taken tt
    | inr free ↦ rw free (upload_content-Uploaded path b64 w (decode_std b64) refl)
  ],
  λ keep taken. rw (keep, taken),
  λ replace bad. rw (replace, bad),
  λ content replace good big.
      let over = lt→ltb max_transfer_size (length content) big in rw (replace, good, over),
)
