-- ===== src/Operator/Tests.antt =====
-- Runs of the operator's program, and a concrete case of what is proved about it.
use lokifix.Auth.{new_manager, code_char}
use lokifix.Auth.Info.{encode_connection_info}
use lokifix.Base64.{encode_raw_url}
use lokifix.World.{write_file_bytes}
use lokifix.Agent.Tests.{clock, empty_disk}
use lokifix.Operator.{
  Setup, Operator, on_agent_connected, connection_text, truncate, remove_file,
  write_connection_file,
}
use lokifix.Prelude.{◌≡◌, refl, none, [], ◌∷◌, map, replicate, Bytes, codes, eq_bytes}

abbrev set : Setup
set = record {
  hash = λ s. replicate 32 0;
  clock = clock;
  server_url = codes "ws://h";
  code_path = codes "c.txt";
  log_path = codes "l.log";
}

abbrev idle : Operator
idle = record { manager = new_manager; logger = none; home = empty_disk; notes = [] }

shortened : truncate (codes "abcdefgh") 6 ≡ codes "abc..."
unfolding truncate
shortened = refl

abbrev waiting : Operator
waiting = record idle { home = write_connection_file set 4 (codes "x") (codes "y") empty_disk }

-- The file with the code is gone once the agent has connected.
code_removed : (on_agent_connected set 5 (codes "pc") waiting).home.disk (codes "c.txt") ≡ none
unfolding on_agent_connected remove_file write_connection_file write_file_bytes eq_bytes
code_removed = refl

abbrev token_bytes : Bytes
token_bytes = 1 ∷ 2 ∷ 3 ∷ []

abbrev told_text : Bytes
told_text =
    connection_text set 7 (encode_connection_info (codes "ws://h") (encode_raw_url token_bytes))
      (map code_char (4 ∷ []))
