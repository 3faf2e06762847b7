-- ===== src/Fileops/Edit/File.antt =====
-- `EditFile` on a file: what is written, and when nothing is.
use lokifix.Protocol.Message.{old_string_missing, old_string_repeated, open_file, write}
use lokifix.World.{World, file, ok, err, write_file_bytes}
use lokifix.World.Calls.{written, read_file_bytes-file, write_file_bytes-file}
use lokifix.Fileops.Edit.{count, replace, count_from, replace_from, edit_content, edit_file}
use lokifix.Fileops.Edit.Laws.{glue, Leftmost, Pieces-all}
use lokifix.Prelude.{
  ℕ, ◌≡◌, refl, ap, ◌∙◌, ◌≢◌, Bool, true, false, some, List, [], ◌∷◌, arith, ◌==◌, lt→ltb, length,
  Bytes,
}

-- The outcome that an edit of a text in these pieces promises.
abbrev pub EditOutcome : Bytes → World → Bytes → Bytes → Bool → Bytes → List Bytes → Type 0
EditOutcome path w old new all p [] = edit_file path old new all w ≡ (w, err old_string_missing)
EditOutcome path w old new all p (q ∷ []) =
    edit_file path old new all w ≡ (written path w (glue new p (q ∷ [])), ok tt)
EditOutcome path w old new true p (q ∷ r ∷ ps) =
    edit_file path old new true w ≡ (written path w (glue new p (q ∷ r ∷ ps)), ok tt)
EditOutcome path w old new false p (q ∷ r ∷ ps) =
    edit_file path old new false w ≡ (w, err (old_string_repeated (length (q ∷ r ∷ ps))))

outcome :
    (path content : Bytes) (w : World) (o : ℕ) (os new : Bytes) (all : Bool) (p : Bytes)
    (rest : List Bytes)
    → count_from (o ∷ os) 0 content ≡ length rest
    → replace_from (o ∷ os) new (length rest) 0 content ≡ glue new p rest
    → w.disk path ≡ some (file content)
    → w.refuses open_file path ≡ false
    → w.refuses write path ≡ false
    → EditOutcome path w (o ∷ os) new all p rest
unfolding edit_file edit_content count replace
outcome path content w o os new all p [] n r here can_open can_write =
    rw (read_file_bytes-file path w here can_open, n)
outcome path content w o os new true p (q ∷ []) n r here can_open can_write =
    rw (read_file_bytes-file path w here can_open, n)
      (ap (λ b. write_file_bytes path b w) r ∙ write_file_bytes-file path w _ here can_write)
outcome path content w o os new false p (q ∷ []) n r here can_open can_write =
    rw (read_file_bytes-file path w here can_open, n)
      (ap (λ b. write_file_bytes path b w) r ∙ write_file_bytes-file path w _ here can_write)
outcome path content w o os new true p (q ∷ q' ∷ ps) n r here can_open can_write =
    let found : (length (q ∷ q' ∷ ps) == 0) ≡ false = ground arith in
    rw (read_file_bytes-file path w here can_open, n, found)
      (ap (λ b. write_file_bytes path b w) r ∙ write_file_bytes-file path w _ here can_write)
outcome path content w o os new false p (q ∷ q' ∷ ps) n r here can_open can_write =
    let several = lt→ltb 1 (length (q ∷ q' ∷ ps)) (omega arith) in
    let found : (length (q ∷ q' ∷ ps) == 0) ≡ false = ground arith in
    rw (read_file_bytes-file path w here can_open, n, found, several)

-- The file's text is cut at the occurrences of a text that is not empty, as they are found from the
-- left: no piece goes on past the first occurrence from its start on, and the last piece has none.
-- With no occurrence nothing is changed and the edit fails; with one, or if all are to be replaced, exactly these are replaced
-- in this file and nothing else is touched; with several it fails, says how many, and changes
-- nothing.
pub edit_file_lem :
    (path content old new : Bytes) (all : Bool) (w : World)
    → old ≢ []
    → w.disk path ≡ some (file content)
    → w.refuses open_file path ≡ false
    → w.refuses write path ≡ false
    → (first : Bytes) × (rest : List Bytes) × (content ≡ glue old first rest)
      × Leftmost old first rest
      × EditOutcome path w old new all first rest
edit_file_lem path content [] new all w some_old here can_open can_write = absurd (some_old refl)
edit_file_lem path content (o ∷ os) new all w some_old here can_open can_write =
    let ps = Pieces-all (o ∷ os) content some_old in
    (
      ps.first,
      ps.rest,
      ps.whole,
      ps.leftmost,
      outcome path content w o os new all ps.first ps.rest ps.counted (ps.replaced new) here
          can_open can_write,
    )
