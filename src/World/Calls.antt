-- ===== src/World/Calls.antt =====
-- What each call of the operating system does when it is let through.
use lokifix.Protocol.Message.{stat, open_file, write, refused, Error, is_directory}
use lokifix.World.{
  World, Node, file, dir, Result, ok, err, panic, stat_node, read_file_bytes, write_file_bytes,
  append_file_bytes, write_node, make_dirs, make_parents, parents,
}
use lokifix.Prelude.{
  ◌≡◌, refl, ap, ◌≢◌, ◌⊎◌, inl, inr, false, Option, none, some, List, [], ◌∷◌, ◌++◌, arith,
  Bool-cases, Bytes, eq_bytes, eq_bytes_iff, eq_bytes_refl, eq_bytes→eq,
}

module _ (p : Bytes) (w : World) where
  pub stat_node-some :
      {n : Node} → w.disk p ≡ some n → w.refuses stat p ≡ false → stat_node p w ≡ (w, ok n)
  unfolding stat_node
  stat_node-some h r = ground arith

  pub read_file_bytes-file :
      {b : Bytes}
      → w.disk p ≡ some (file b)
      → w.refuses open_file p ≡ false
      → read_file_bytes p w ≡ (w, ok b)
  unfolding read_file_bytes
  read_file_bytes-file h r = ground arith

  abbrev pub written : Bytes → World
  written b = record w { disk = write_node p (some (file b)) w.disk }

  pub write_file_bytes-file :
      {c : Bytes} (b : Bytes)
      → w.disk p ≡ some (file c)
      → w.refuses write p ≡ false
      → write_file_bytes p b w ≡ (written b, ok tt)
  unfolding write_file_bytes
  write_file_bytes-file b h r = ground arith

  pub append_file_bytes-file :
      {c : Bytes} (b : Bytes)
      → w.disk p ≡ some (file c)
      → w.refuses open_file p ≡ false
      → w.refuses write p ≡ false
      → append_file_bytes p b w ≡ (written (c ++ b), ok tt)
  unfolding append_file_bytes
  append_file_bytes-file b h r q = ground arith

-- A call that reports an error has changed nothing.
abbrev pub Keeps : {A : Type 0} → World → World × Result A → Type 0
Keeps w (w', ok a) = Unit
Keeps w (w', r) = w' ≡ w

-- What holds of a successful outcome.
abbrev pub Ensures {ℓ} : {A : Type ℓ} → (World → A → Type 0) → World × Result A → Type 0
Ensures P (w, ok a) = P w a
Ensures P (w, err e) = Unit
Ensures P (w, panic) = Unit

-- What stood anywhere stands there still.
abbrev pub KeepsNodes : World → World → Type 0
KeepsNodes w w' = (q : Bytes) (n : Node) → w.disk q ≡ some n → w'.disk q ≡ some n

write_node_fresh :
    (p q : Bytes) (m n : Node) (d : Bytes → Option Node)
    → d p ≡ none
    → d q ≡ some n
    → write_node p (some m) d q ≡ some n
unfolding write_node
write_node_fresh p q m n d free h = elim (Bool-cases (eq_bytes p q)) [
  | inl e ↦ absurd (ground (arith, ap d (eq_bytes→eq p q e)))
  | inr e ↦ rw e h
]

pub write_node_self :
    (p : Bytes) (n : Option Node) (d : Bytes → Option Node) → write_node p n d p ≡ n
unfolding write_node
write_node_self p n d = rw eq_bytes_refl

pub write_node_ne :
    (p q : Bytes) (n : Option Node) (d : Bytes → Option Node) → p ≢ q → write_node p n d q ≡ d q
unfolding write_node
write_node_ne p q n d h = ground (arith, eq_bytes_iff p q)

make_dirs-KeepsNodes : (ps : List Bytes) (w : World) → KeepsNodes w (make_dirs ps w).0
unfolding make_dirs
make_dirs-KeepsNodes [] w q n h = h
make_dirs-KeepsNodes (p ∷ ps) w q n h =
    let made : World = record w { disk = write_node p (some dir) w.disk } in
    let later = make_dirs-KeepsNodes ps made q n in
    let kept = make_dirs-KeepsNodes ps w q n h in
    let fresh = write_node_fresh p q dir n w.disk in ground (arith, later, kept, fresh)

pub make_parents-KeepsNodes : (p : Bytes) (w : World) → KeepsNodes w (make_parents p w).0
unfolding make_parents
make_parents-KeepsNodes p w = make_dirs-KeepsNodes (parents [] p) w

-- A write is done whole or refused with nothing changed.
pub write_file_bytes-cases :
    (p b : Bytes) (w : World)
    → ((e : Error) × (write_file_bytes p b w ≡ (w, err e)))
      ⊎ (write_file_bytes p b w ≡ (written p w b, ok tt))
unfolding write_file_bytes
write_file_bytes-cases p b w = elim (Bool-cases (w.refuses write p)) [
  | inl r ↦ inl (refused write, ground arith)
  | inr r ↦ by_node (w.disk p) refl r
]
  where
    by_node :
        (o : Option Node)
        → w.disk p ≡ o
        → w.refuses write p ≡ false
        → ((e : Error) × (write_file_bytes p b w ≡ (w, err e)))
          ⊎ (write_file_bytes p b w ≡ (written p w b, ok tt))
    by_node none h r = inr (ground arith)
    by_node (some (file c)) h r = inr (ground arith)
    by_node (some dir) h r = inl (is_directory, ground arith)
