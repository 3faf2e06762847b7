-- ===== src/Tunnel.antt =====
-- The tunnel of the operator's program (internal/tunnel/tunnel.go): finding or fetching cloudflared,
-- and the address that it reports. The download and the process are arguments.
pub mod Download
pub mod Tests
use lokifix.World.{
  World, Node, file, dir, Io, Result, ok, err, panic, after, ◌>>=◌, ◌>>◌, return, throw, stat_node,
  write_node, write_file_bytes, make_dirs, parents,
}
use lokifix.Protocol.Message.{Error, refused, rename, remove, open_file, read_at}
use lokifix.Prelude.{
  ℕ, zero, suc, ◌+◌, ◌-◌, ◌*◌, ◌/◌, ◌%◌, ◌^◌, ◌≤◌, ◌<◌, ◌≡◌, refl, sym, ap, ap₂, subst, ◌∙◌, ◌≢◌,
  ◌↔◌, ◌⊎◌, inl, inr, Bool, true, false, not, ◌&&◌, ◌||◌, Option, none, some, List, [], ◌∷◌, ◌++◌,
  map, append-nil, append_assoc, arith, ltb, leb, ◌==◌, if◌then◌else◌, ltb→lt, lt→ltb, leb→le,
  ==_iff, Bool-cases, Option-cases, length, get_elem?, length-append, take, drop, replicate,
  length-take, length-drop, length-replicate, take-append-drop, take-append, take_all, take_nil,
  nil_of_length, length-map, All, All-append, Bytes, codes, eq_bytes, eq_bytes_iff, eq_bytes_refl,
  eq_bytes→eq, is_empty, lower, upper, to_lower, to_upper, to_lower_idem, is_space, trim_left,
  trim_right, trim_space, split_on, split, push_left, cut_at, replace_byte, join, show_nat,
  has_prefix, contains, has_prefix_sound, has_prefix_complete, contains_sound, contains_complete,
}

-- What `http.Get` and the reading of its body give: an error, or a status with the bytes that came
-- and whether they came without an error.
pub record Fetched : Type 0 where
  pub status : ℕ
  pub body : Bytes
  pub complete : Bool

-- `os.Rename` of a file.
unfoldable pub rename_node : Bytes → Bytes → Io (Unit {0})
unfolding write_node
rename_node source target w =
    if w.refuses rename source then (w, err (refused rename)) else elim (w.disk source) [
      | none ↦ (w, err (refused rename))
      | some n ↦
          (record w { disk = write_node source none (write_node target (some n) w.disk) }, ok tt)
    ]

-- `os.Remove` of the temporary file, with its error ignored.
unfoldable pub drop_file : Bytes → World → World
unfolding write_node
drop_file p w = if w.refuses remove p then w else record w { disk = write_node p none w.disk }

abbrev pub tmp_path : Bytes → Bytes
tmp_path dst = dst ++ codes ".tmp"

-- What follows the copying of the body into the temporary file.
unfoldable pub end_copy : Bytes → Fetched → World × Result (Unit {0}) → World × Result (Unit {0})
unfolding rename_node drop_file
end_copy dst f (w, err e) = (drop_file (tmp_path dst) w, err e)
end_copy dst f (w, panic) = (w, panic)
end_copy dst f (w, ok u) =
    if f.complete
    then rename_node (tmp_path dst) dst w
    else (drop_file (tmp_path dst) w, err (refused read_at))

unfoldable pub copy_body : Bytes → Fetched → Io (Unit {0})
unfolding end_copy write_file_bytes
copy_body dst f w = end_copy dst f (write_file_bytes (tmp_path dst) f.body w)

-- `downloadFile`
unfoldable pub download_file : Bytes → Option Fetched → Io (Unit {0})
unfolding copy_body write_file_bytes
download_file dst none w = (w, err (refused open_file))
download_file dst (some f) w =
    if f.status == 200
    then after (write_file_bytes (tmp_path dst) [] w) (λ _. copy_body dst f)
    else (w, err (refused open_file))

abbrev pub binary_path : Bytes → Bytes
binary_path base = base ++ codes "\\cloudflared.exe"

-- `os.MkdirAll(baseDir)` and the download.
unfoldable pub fetch_binary : Bytes → Option Fetched → Io Bytes
unfolding make_dirs parents download_file
fetch_binary base fetched = do
  make_dirs (parents [] base ++ base ∷ [])
  download_file (binary_path base) fetched
  return (binary_path base)

-- `EnsureCloudflared`, with what `exec.LookPath` finds.
unfoldable pub ensure_cloudflared : Bytes → Option Bytes → Option Fetched → Io Bytes
unfolding stat_node fetch_binary
ensure_cloudflared base in_path fetched w = elim ((stat_node (binary_path base) w).1) [
  | ok n ↦ (w, ok (binary_path base))
  | err e ↦ elim in_path [ none ↦ fetch_binary base fetched w | some p ↦ (w, ok p) ]
  | panic ↦ (w, panic)
]

-- What `Start` waits for comes first: the address, the end of the process, or the time limit.
pub data Event : Type 0 where
  address : Bytes → Event
  exited : Event
  timed_out : Event

-- `strings.Replace(url, "https://", "wss://", 1)` of an address that begins so.
unfoldable pub public_url : Bytes → Bytes
public_url url = if has_prefix url (codes "https://") then codes "wss://" ++ drop 8 url else url

unfoldable pub start : Event → Option Bytes
unfolding public_url
start (address url) = some (public_url url)
start exited = none
start timed_out = none
