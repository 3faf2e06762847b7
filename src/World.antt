-- ===== src/World.antt =====
-- The disk as the functions of `os` and `path/filepath` that the program calls see it: what stands
-- at each path, and which calls the system refuses (for lack of rights or space). A refused call
-- changes nothing. Calls are one step each; nobody else writes in between.
pub mod Calls
use lokifix.Prelude.{
  ℕ, zero, suc, ◌+◌, ◌-◌, ◌*◌, ◌/◌, ◌%◌, ◌^◌, ◌≤◌, ◌<◌, ◌≡◌, refl, sym, ap, ap₂, subst, ◌∙◌, ◌≢◌,
  ◌↔◌, ◌⊎◌, inl, inr, Bool, true, false, not, ◌&&◌, ◌||◌, Option, none, some, List, [], ◌∷◌, ◌++◌,
  map, append-nil, append_assoc, arith, ltb, leb, ◌==◌, if◌then◌else◌, ltb→lt, lt→ltb, leb→le,
  ==_iff, Bool-cases, Option-cases, length, get_elem?, length-append, take, drop, replicate,
  length-take, length-drop, length-replicate, take-append-drop, length-map, All, All-append, Bytes,
  codes, eq_bytes, eq_bytes_iff, eq_bytes_refl, eq_bytes→eq, is_empty, lower, upper, to_lower,
  to_upper, to_lower_idem, is_space, trim_left, trim_right, trim_space, split_on, split, push_left,
  cut_at, replace_byte, join, show_nat, has_prefix, contains, has_prefix_sound, has_prefix_complete,
  contains_sound, contains_complete,
}
use lokifix.Protocol.Message.{
  Call, stat, open_file, read_at, mkdir, write, remove, Error, refused, is_directory,
}

pub data Node : Type 0 where
  file : Bytes → Node
  dir : Node

pub record World : Type 0 where
  pub disk : Bytes → Option Node
  pub refuses : Call → Bytes → Bool

-- A panic ends the agent's process.
pub data Result {ℓ} (A : Type ℓ) : Type ℓ where
  ok : A → Result A
  err : Error → Result A
  panic : Result A

-- A computation over the world. What was done before an error stays done.
abbrev pub Io {ℓ} : Type ℓ → Type ℓ
Io A = World → World × Result A

abbrev pub after {ℓ κ} :
    {A : Type ℓ} {B : Type κ} → World × Result A → (A → Io B) → World × Result B
after (w, ok a) f = f a w
after (w, err e) f = (w, err e)
after (w, panic) f = (w, panic)

infixl 5 ◌>>=◌ ◌>>◌
abbrev pub ◌>>=◌ {ℓ κ} : {A : Type ℓ} {B : Type κ} → Io A → (A → Io B) → Io B
◌>>=◌ m f w = after (m w) f

abbrev pub ◌>>◌ {ℓ} : {B : Type ℓ} → Io (Unit {0}) → Io B → Io B
◌>>◌ m k w = after (m w) (λ _. k)

abbrev pub return {ℓ} : {A : Type ℓ} → A → Io A
return a w = (w, ok a)

abbrev pub throw {ℓ} : {A : Type ℓ} → Error → Io A
throw e w = (w, err e)

abbrev pub crash {ℓ} : {A : Type ℓ} → Io A
crash w = (w, panic)

-- A result of pure code.
abbrev pub lift {ℓ} : {A : Type ℓ} → Result A → Io A
lift r w = (w, r)

-- The disk with one path changed.
unfoldable pub write_node : Bytes → Option Node → (Bytes → Option Node) → Bytes → Option Node
write_node p n d q = if eq_bytes p q then n else d q

-- `os.Stat`: `none` where there is nothing, or where the call is refused.
unfoldable pub node_at : Call → Bytes → World → Option Node
node_at c p w = if w.refuses c p then none else w.disk p

unfoldable pub stat_node : Bytes → Io Node
unfolding node_at
stat_node p w = elim (node_at stat p w) [ none ↦ (w, err (refused stat)) | some n ↦ (w, ok n) ]

-- `os.ReadFile` and reading from an opened file.
unfoldable pub read_file_bytes : Bytes → Io Bytes
unfolding node_at
read_file_bytes p w = elim (node_at open_file p w) [
  | none ↦ (w, err (refused open_file))
  | some n ↦ elim n [ file b ↦ (w, ok b) | dir ↦ (w, err is_directory) ]
]

-- `os.WriteFile`: creates the file or replaces its content.
unfoldable pub write_file_bytes : Bytes → Bytes → Io (Unit {0})
unfolding write_node
write_file_bytes p b w = if w.refuses write p then (w, err (refused write)) else elim (w.disk p) [
  | none ↦ (record w { disk = write_node p (some (file b)) w.disk }, ok tt)
  | some n ↦ elim n [
    | file c ↦ (record w { disk = write_node p (some (file b)) w.disk }, ok tt)
    | dir ↦ (w, err is_directory)
  ]
]

-- `os.OpenFile` with `O_APPEND|O_WRONLY` and one `Write`: the file must be there.
unfoldable pub append_file_bytes : Bytes → Bytes → Io (Unit {0})
unfolding write_node
append_file_bytes p b w =
    if w.refuses open_file p || w.refuses write p
    then (w, err (refused open_file))
    else elim (w.disk p) [
      | none ↦ (w, err (refused open_file))
      | some n ↦ elim n [
        | file c ↦ (record w { disk = write_node p (some (file (c ++ b))) w.disk }, ok tt)
        | dir ↦ (w, err is_directory)
      ]
    ]

-- Both separators of Windows.
unfoldable pub is_separator : ℕ → Bool
is_separator c = c == b'/' || c == 92

-- The directories on the way to a path: its beginnings before each separator. `head` is read
-- already.
unfoldable pub parents : Bytes → Bytes → List Bytes
unfolding is_separator
parents head [] = []
parents head (c ∷ s) =
    let rest = parents (head ++ c ∷ []) s in
    if is_separator c && not (is_empty head) then head ∷ rest else rest

-- `os.MkdirAll(filepath.Dir(path))`: every directory on the way that is missing is made; a file in
-- the way is an error.
unfoldable pub make_dirs : List Bytes → Io (Unit {0})
unfolding write_node
make_dirs [] w = (w, ok tt)
make_dirs (p ∷ ps) w =
    let made = make_dirs ps (record w { disk = write_node p (some dir) w.disk }) in
    let kept = make_dirs ps w in
    elim (w.disk p) [
      | none ↦ (if w.refuses mkdir p then (w, err (refused mkdir)) else made)
      | some n ↦ elim n [ file c ↦ (w, err (refused mkdir)) | dir ↦ kept ]
    ]

unfoldable pub make_parents : Bytes → Io (Unit {0})
unfolding parents make_dirs
make_parents p = make_dirs (parents [] p)

-- `filepath.Base`: what follows the last separator.
unfoldable pub base_from : Bytes → Bytes → Bytes
unfolding is_separator
base_from cur [] = cur
base_from cur (c ∷ s) = base_from (if is_separator c then [] else cur ++ c ∷ []) s

unfoldable pub base_name : Bytes → Bytes
unfolding base_from
base_name p = base_from [] p
