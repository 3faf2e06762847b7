-- ===== src/Audit/Tests.antt =====
-- A short history of the log, as a case of what is proved about its chain.
use lokifix.Dict
use lokifix.Audit.{Entry, Logger, Clock, new_logger, hash_input, short_hash, hex, log, make_entry}
use lokifix.Audit.Report.{session_summary, count_at, count_actions, or_zero}
use lokifix.Audit.Tally.{session_summary_lem, IsNodup, sum_of, rows_of}
use lokifix.Audit.Chain.{Event, after_events, log_determined, text_of, Collision}
use lokifix.Prelude.{
  ℕ, ◌≡◌, refl, ◌⊎◌, List, [], ◌∷◌, map, replicate, length-replicate, Bytes, codes, show_nat, ◌++◌,
  digits, length, eq_bytes,
}

-- A stand-in for the hash: 32 zeros for every text.
abbrev weak_hash : Bytes → Bytes
weak_hash s = replicate 32 0

abbrev plain_clock : Clock
plain_clock = record { nano = show_nat; seconds = show_nat; rfc3339 = show_nat }

abbrev start : Logger
start = new_logger plain_clock (codes "REMOTE") (codes "s1") 0

abbrev read_event : Event
read_event = record {
  time = 5;
  action = codes "FILE_READ";
  detail = codes "a";
  outcome = codes "OK";
}

abbrev other_event : Event
other_event = record read_event { detail = codes "b" }

same_end :
    (after_events weak_hash plain_clock start (read_event ∷ [])).prev_hash
    ≡ (after_events weak_hash plain_clock start (other_event ∷ [])).prev_hash
unfolding after_events log make_entry hash_input short_hash show_nat digits hex
same_end = refl

log_determined_example :
    (map (text_of weak_hash plain_clock) (read_event ∷ [])
      ≡ map (text_of weak_hash plain_clock) (other_event ∷ []))
    ⊎ Collision weak_hash plain_clock start (read_event ∷ []) (other_event ∷ [])
log_determined_example =
    log_determined weak_hash plain_clock (λ s. length-replicate {A = ℕ} 32 0) start
      (read_event ∷ []) (other_event ∷ []) refl same_end

abbrev two_entries : List Entry
two_entries = (after_events weak_hash plain_clock start (read_event ∷ other_event ∷ [])).entries

counted_twice : count_at (codes "FILE_READ") (count_actions [] two_entries) ≡ 2
unfolding count_actions after_events log make_entry Dict.lookup Dict.insert eq_bytes or_zero
    new_logger
counted_twice = refl

session_summary_lem_example :
    (actions : List Bytes) × IsNodup actions
    × (sum_of two_entries actions ≡ length two_entries)
    × (before : Bytes) × (after : Bytes) × (session_summary plain_clock
          (codes "a.log")
          9
          (after_events weak_hash plain_clock start (read_event ∷ other_event ∷ []))
        ≡ before ++ (rows_of two_entries actions ++ after))
session_summary_lem_example =
    session_summary_lem plain_clock (codes "a.log") 9
      (after_events weak_hash plain_clock start (read_event ∷ other_event ∷ []))
