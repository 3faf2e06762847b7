-- ===== src/Operator.antt =====
-- The operator's program (cmd/lokifix-mcp/main.go): what it does when an agent connects or is
-- disconnected, and when it ends. The home directory and the address of the server are settings.
pub mod Renewal
pub mod Tests
use lokifix.Auth.{Manager, ConnectionCode, generate_code}
use lokifix.Auth.Info.{encode_connection_info}
use lokifix.Audit.{Logger, Clock, log}
use lokifix.Audit.Report.{write_report}
use lokifix.World.{World, Node, file, dir, Result, write_node, write_file_bytes}
use lokifix.Protocol.Message.{remove}
use lokifix.Mcp.{Notification, agent_connected, agent_disconnected}
use lokifix.Prelude.{
  ℕ, zero, suc, ◌+◌, ◌-◌, ◌*◌, ◌/◌, ◌%◌, ◌^◌, ◌≤◌, ◌<◌, ◌≡◌, refl, sym, ap, ap₂, subst, ◌∙◌, ◌≢◌,
  ◌↔◌, ◌⊎◌, inl, inr, Bool, true, false, not, ◌&&◌, ◌||◌, Option, none, some, List, [], ◌∷◌, ◌++◌,
  map, append-nil, append_assoc, arith, ltb, leb, ◌==◌, if◌then◌else◌, ltb→lt, lt→ltb, leb→le,
  ==_iff, Bool-cases, Option-cases, length, get_elem?, length-append, take, drop, replicate,
  length-take, length-drop, length-replicate, take-append-drop, take-append, take_all, take_nil,
  nil_of_length, length-map, All, All-append, Bytes, codes, eq_bytes, eq_bytes_iff, eq_bytes_refl,
  eq_bytes→eq, is_empty, lower, upper, to_lower, to_upper, to_lower_idem, is_space, trim_left,
  trim_right, trim_space, split_on, split, push_left, cut_at, replace_byte, join, show_nat,
  has_prefix, contains, has_prefix_sound, has_prefix_complete, contains_sound, contains_complete,
}

pub record Setup : Type 0 where
  pub hash : Bytes → Bytes
  pub clock : Clock
  pub server_url : Bytes
  pub code_path : Bytes
  pub log_path : Bytes

pub record Operator : Type 0 where
  pub manager : Manager
  pub logger : Option Logger
  pub home : World
  pub notes : List Notification

-- `os.Remove` of a file, with its error ignored.
unfoldable pub remove_file : Bytes → World → World
unfolding write_node
remove_file p w = elim (w.disk p) [
  | none ↦ w
  | some n ↦ elim n [
    | file b ↦ (if w.refuses remove p then w else record w { disk = write_node p none w.disk })
    | dir ↦ w
  ]
]

unfoldable pub log_action : Setup → ℕ → Bytes → Bytes → Option Logger → Option Logger
log_action set now action detail none = none
log_action set now action detail (some l) =
    some (log set.hash set.clock now action detail (codes "OK") l)

-- The text of `writeConnectionFile`.
unfoldable pub connection_text : Setup → ℕ → Bytes → Bytes → Bytes
connection_text set now connection code =
    codes
      "LokiFix Remote Agent - Codice di Connessione\n=============================================\n\nCodice completo (da incollare nell'agent remoto):\n"
    ++ (connection
        ++ (codes "\n\nSessione: "
            ++ (code
                ++ (codes "\nServer:   "
                    ++ (set.server_url
                        ++ (codes "\nGenerato: "
                            ++ (set.clock.seconds now
                                ++ codes
                                    "\n\nISTRUZIONI:\n1. Copia lokifix-agent.exe sul PC remoto\n2. Esegui lokifix-agent.exe\n3. Incolla il codice completo qui sopra\n")))))))

-- An error of writing is ignored.
unfoldable pub write_connection_file : Setup → ℕ → Bytes → Bytes → World → World
unfolding connection_text write_file_bytes
write_connection_file set now connection code w =
    (write_file_bytes set.code_path (connection_text set now connection code) w).0

unfoldable pub report_to : Setup → ℕ → World → Option Logger → World × Option Logger
unfolding write_report
report_to set now w none = (w, none)
report_to set now w (some l) =
    let (w', l', path) = write_report set.clock set.log_path now w l in (w', some l')

-- `OnAgentConnected`, with the notification of the client.
unfoldable pub on_agent_connected : Setup → ℕ → Bytes → Operator → Operator
unfolding remove_file log_action
on_agent_connected set now hostname op = record op {
  home = remove_file set.code_path op.home;
  logger =
      log_action set now (codes "SESSION_START") (codes "Agent connesso: " ++ hostname) op.logger;
  notes = op.notes ++ agent_connected hostname ∷ [];
}

-- The new code, and the file in which it is told.
unfoldable pub tell_code : Setup → ℕ → Manager × Option ConnectionCode → Operator → Operator
unfolding write_connection_file encode_connection_info
tell_code set now (m, none) op = record op { manager = m }
tell_code set now (m, some c) op = record op {
  manager = m;
  home =
      write_connection_file set now (encode_connection_info set.server_url c.token) c.code op.home;
}

unfoldable pub end_session : Setup → ℕ → Bytes → Operator → Operator
unfolding log_action report_to
end_session set now detail op =
    let (w, l) =
      report_to set now op.home (log_action set now (codes "SESSION_END") detail op.logger) in
    record op { home = w; logger = l }

-- `OnAgentDisconnected`, with the random bytes of the new code.
unfoldable pub on_agent_disconnected : Setup → Option Bytes → Option Bytes → ℕ → Operator → Operator
unfolding end_session tell_code generate_code
on_agent_disconnected set token_bytes code_bytes now op =
    let ended = end_session set now (codes "Agent disconnesso") op in
    let told = tell_code set now (generate_code token_bytes code_bytes now ended.manager) ended in
    record told { notes = told.notes ++ agent_disconnected ∷ [] }

-- `cleanup`, after which the log is closed.
unfoldable pub cleanup : Setup → ℕ → Operator → Operator
unfolding end_session
cleanup set now = end_session set now (codes "MCP server terminato")

unfoldable pub truncate : Bytes → ℕ → Bytes
truncate s max_len = if leb (length s) max_len then s else take (max_len - 3) s ++ codes "..."
