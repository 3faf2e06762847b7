-- ===== src/Audit.antt =====
-- The audit log (internal/audit/audit.go): a chain of entries, each with a hash over the one before.
-- Times are nanoseconds; `hash` is `sha256.Sum256`, `clock` prints times. The file is the text
-- written to it; `OnEntry`, which only shows entries, is left out.
pub mod Danger
pub mod Chain
pub mod Report
pub mod Tally
pub mod Tests
use lokifix.Prelude.{
  starts_rune, rune_count, ℕ, zero, suc, ◌+◌, ◌-◌, ◌*◌, ◌/◌, ◌%◌, ◌^◌, ◌≤◌, ◌<◌, ◌≡◌, refl, sym, ap,
  ap₂, subst, ◌∙◌, ◌≢◌, ◌↔◌, ◌⊎◌, inl, inr, Bool, true, false, not, ◌&&◌, ◌||◌, Option, none, some,
  List, [], ◌∷◌, ◌++◌, map, append-nil, append_assoc, arith, ltb, leb, ◌==◌, if◌then◌else◌, ltb→lt,
  lt→ltb, leb→le, ==_iff, Bool-cases, Option-cases, length, get_elem?, length-append, take, drop,
  replicate, length-take, length-drop, length-replicate, take-append-drop, take-append, take_all,
  take_nil, nil_of_length, length-map, All, All-append, Bytes, codes, eq_bytes, eq_bytes_iff,
  eq_bytes_refl, eq_bytes→eq, is_empty, lower, upper, to_lower, to_upper, to_lower_idem, is_space,
  trim_left, trim_right, trim_space, split_on, split, push_left, cut_at, replace_byte, join,
  show_nat, has_prefix, contains, has_prefix_sound, has_prefix_complete, contains_sound,
  contains_complete,
}

pub record Entry : Type 0 where
  pub timestamp : ℕ
  pub session_id : Bytes
  pub action : Bytes
  pub detail : Bytes
  pub outcome : Bytes
  pub prev_hash : Bytes
  pub hash : Bytes

pub record Logger : Type 0 where
  pub file : Bytes
  pub session_id : Bytes
  pub side : Bytes
  pub prev_hash : Bytes
  pub entries : List Entry
  pub start_time : ℕ

-- The layouts of `time.Format` that the log uses.
pub record Clock : Type 0 where
  pub nano : ℕ → Bytes
  pub seconds : ℕ → Bytes
  pub rfc3339 : ℕ → Bytes

unfoldable pub hex_digit : ℕ → ℕ
hex_digit n = if ltb n 10 then b'0' + n else 87 + n

unfoldable pub hex : Bytes → Bytes
unfolding hex_digit
hex [] = []
hex (c ∷ s) = hex_digit (c / 16) ∷ hex_digit (c % 16) ∷ hex s

-- `%-15s` and the like.
unfoldable pub left_justified : ℕ → Bytes → Bytes
unfolding rune_count
left_justified width s = s ++ replicate (width - rune_count s) b' '

abbrev bar : Bytes
bar = codes " | "

-- `NewLogger`, where the directory and the file could be made.
unfoldable pub new_logger : Clock → Bytes → Bytes → ℕ → Logger
new_logger clock side session_id now = record {
  file =
      codes "# LokiFix Audit Log\n# Side: "
      ++ side
      ++ codes "\n# Session: "
      ++ session_id
      ++ codes "\n# Started: "
      ++ clock.rfc3339 now
      ++ codes "\n# Format: TIMESTAMP | SESSION | ACTION | DETAIL | RESULT | PREV_HASH | HASH\n#\n";
  session_id = session_id;
  side = side;
  prev_hash = codes "GENESIS";
  entries = [];
  start_time = now;
}

unfoldable pub display_detail : Bytes → Bytes
display_detail detail = if ltb 200 (length detail) then take 200 detail ++ codes "..." else detail

unfoldable pub hash_input : Clock → Bytes → ℕ → Bytes → Bytes → Bytes → Bytes
hash_input clock prev now action detail outcome =
    prev ++ b'|' ∷ (clock.nano now ++ b'|' ∷ (action ++ b'|' ∷ (detail ++ b'|' ∷ outcome)))

unfoldable pub short_hash : (Bytes → Bytes) → Bytes → Bytes
unfolding hex
short_hash hash s = take 16 (hex (hash s))

unfoldable pub log_line : Clock → Entry → Bytes
unfolding left_justified
log_line clock e =
    clock.seconds e.timestamp
    ++ bar
    ++ e.session_id
    ++ bar
    ++ left_justified 15 e.action
    ++ bar
    ++ left_justified 200 e.detail
    ++ bar
    ++ left_justified 7 e.outcome
    ++ bar
    ++ e.prev_hash
    ++ bar
    ++ e.hash
    ++ codes "\n"

unfoldable pub make_entry : (Bytes → Bytes) → Clock → Logger → ℕ → Bytes → Bytes → Bytes → Entry
unfolding display_detail hash_input short_hash
make_entry hash clock l now action detail outcome = record {
  timestamp = now;
  session_id = l.session_id;
  action = action;
  detail = display_detail detail;
  outcome = outcome;
  prev_hash = take 16 l.prev_hash;
  hash = short_hash hash (hash_input clock l.prev_hash now action detail outcome);
}

-- `Logger.Log`: what the logger is afterwards.
unfoldable pub log : (Bytes → Bytes) → Clock → ℕ → Bytes → Bytes → Bytes → Logger → Logger
unfolding make_entry log_line
log hash clock now action detail outcome l =
    let entry = make_entry hash clock l now action detail outcome in
    record l {
      file = l.file ++ log_line clock entry;
      prev_hash = entry.hash;
      entries = l.entries ++ entry ∷ [];
    }
