-- ===== src/Tunnel/Download.antt =====
-- A download that fails leaves no half of a program behind.
use lokifix.World.{World, file, Result, ok, err, panic, write_node}
use lokifix.World.Calls.{written, write_file_bytes-cases, write_node_self, write_node_ne}
use lokifix.Protocol.Message.{rename, remove}
use lokifix.Tunnel.{Fetched, download_file, copy_body, end_copy, rename_node, drop_file, tmp_path}
use lokifix.Prelude.{
  ◌≡◌, refl, sym, ap, subst, ◌∙◌, ◌≢◌, inl, inr, true, Option, none, some, [], arith, ◌==◌, ==_iff,
  Bool-cases, length, length-append, Bytes, codes,
}

-- Success has put the whole of a good answer there, anything else has left what was there.
abbrev pub AllOrNothing : Bytes → Option Fetched → World → World × Result (Unit {0}) → Type 0
AllOrNothing dst fetched w (w', ok u) =
    (f : Fetched) × (fetched ≡ some f)
    × (f.status ≡ 200)
    × (f.complete ≡ true)
    × (w'.disk dst ≡ some (file f.body))
AllOrNothing dst fetched w (w', err e) = w'.disk dst ≡ w.disk dst
AllOrNothing dst fetched w (w', panic) = w'.disk dst ≡ w.disk dst

tmp_other : (dst : Bytes) → tmp_path dst ≢ dst
tmp_other dst e = absurd (omega (arith, length-append dst (codes ".tmp"), ap length e))

drop_file-other : (dst : Bytes) (w : World) → (drop_file (tmp_path dst) w).disk dst ≡ w.disk dst
unfolding drop_file
drop_file-other dst w = elim (Bool-cases (w.refuses remove (tmp_path dst))) [
  | inl e ↦ rw e refl
  | inr e ↦ rw e (write_node_ne (tmp_path dst) dst none w.disk (tmp_other dst))
]

module _ (dst : Bytes) (f : Fetched) (w : World) (good : f.status ≡ 200) where
  rename-AllOrNothing :
      (w1 : World)
      → w1.disk (tmp_path dst) ≡ some (file f.body)
      → w1.disk dst ≡ w.disk dst
      → f.complete ≡ true
      → AllOrNothing dst (some f) w (rename_node (tmp_path dst) dst w1)
  unfolding rename_node
  rename-AllOrNothing w1 here kept done = elim (Bool-cases (w1.refuses rename (tmp_path dst))) [
    | inl e ↦ rw e kept
    | inr e ↦
        rw (e, here)
          (
            f,
            refl,
            good,
            done,
            write_node_ne (tmp_path dst) dst none (write_node dst (some (file f.body)) w1.disk)
                  (tmp_other dst)
                ∙ write_node_self dst (some (file f.body)) w1.disk,
          )
  ]

  end_copy-AllOrNothing :
      (w1 : World)
      → w1.disk (tmp_path dst) ≡ some (file f.body)
      → w1.disk dst ≡ w.disk dst
      → AllOrNothing dst (some f) w (end_copy dst f (w1, ok tt))
  unfolding end_copy
  end_copy-AllOrNothing w1 here kept = elim (Bool-cases f.complete) [
    | inl c ↦ simp c (rename-AllOrNothing w1 here kept c)
    | inr c ↦ simp c (drop_file-other dst w1 ∙ kept)
  ]

  copy_body-AllOrNothing :
      (w1 : World) → w1.disk dst ≡ w.disk dst → AllOrNothing dst (some f) w (copy_body dst f w1)
  unfolding copy_body
  copy_body-AllOrNothing w1 kept =
      let held = write_node_self (tmp_path dst) (some (file f.body)) w1.disk in
      let other = write_node_ne (tmp_path dst) dst (some (file f.body)) w1.disk (tmp_other dst) in
      elim (write_file_bytes-cases (tmp_path dst) f.body w1) [
        | inl (e, failed) ↦
            subst (λ q. AllOrNothing dst (some f) w (end_copy dst f q)) (sym failed)
              (unfold end_copy in drop_file-other dst w1 ∙ kept)
        | inr done ↦
            subst (λ q. AllOrNothing dst (some f) w (end_copy dst f q)) (sym done)
              (end_copy-AllOrNothing (written (tmp_path dst) w1 f.body) held (other ∙ kept))
      ]

-- The program file is there only after a successful download, then with all the bytes of an answer
-- of status 200 that came without an error; after any other download, what stood at its path is what
-- stood there before.
pub download_file_lem :
    (dst : Bytes) (fetched : Option Fetched) (w : World)
    → AllOrNothing dst fetched w (download_file dst fetched w)
unfolding download_file
download_file_lem dst none w = refl
download_file_lem dst (some f) w = elim (Bool-cases (f.status == 200)) [
  | inl s ↦ elim (write_file_bytes-cases (tmp_path dst) [] w) [
    | inl (e, failed) ↦ rw (s, failed) refl
    | inr done ↦
        rw (s, done)
          (copy_body-AllOrNothing dst f w ((==_iff f.status 200).0 s) (written (tmp_path dst) w [])
            (write_node_ne (tmp_path dst) dst (some (file [])) w.disk (tmp_other dst)))
  ]
  | inr s ↦ rw s refl
]
