-- ===== src/Mcp.antt =====
-- The MCP server on the operator's side (internal/mcp/server.go): its messages, its state and its
-- progress notifications. The remote side is an interface; JSON text is left out.
pub mod ToolList
pub mod Transfer
pub mod Calls
pub mod Peer
pub mod Upload
pub mod Fetch
pub mod Download
pub mod Routing
pub mod Answers
pub mod Tests
use lokifix.Prelude.Int.{ℤ, pos, negsuc}
use lokifix.Json.{Json, RawMessage, Fields, fields_of, text_field, flag_field, member, ◌>>=◌}
use lokifix.World.{World}
use lokifix.Protocol.Message.{Request, Response, Payload, Error, FileDownloadChunkResult}
use lokifix.Audit.{Logger, Clock, log}
use lokifix.Transport.Server.{ConnectionInfo}
use lokifix.Prelude.{
  ℕ, zero, suc, ◌+◌, ◌-◌, ◌*◌, ◌/◌, ◌%◌, ◌^◌, ◌≤◌, ◌<◌, ◌≡◌, refl, sym, ap, ap₂, subst, ◌∙◌, ◌≢◌,
  ◌↔◌, ◌⊎◌, inl, inr, Bool, true, false, not, ◌&&◌, ◌||◌, Option, none, some, List, [], ◌∷◌, ◌++◌,
  map, append-nil, append_assoc, arith, ltb, leb, ◌==◌, if◌then◌else◌, ltb→lt, lt→ltb, leb→le,
  ==_iff, Bool-cases, Option-cases, length, get_elem?, length-append, take, drop, replicate,
  length-take, length-drop, length-replicate, take-append-drop, take-append, take_all, take_nil,
  nil_of_length, length-map, All, All-append, Bytes, codes, eq_bytes, eq_bytes_iff, eq_bytes_refl,
  eq_bytes→eq, is_empty, lower, upper, to_lower, to_upper, to_lower_idem, is_space, trim_left,
  trim_right, trim_space, split_on, split, push_left, cut_at, replace_byte, join, show_nat,
  has_prefix, contains, has_prefix_sound, has_prefix_complete, contains_sound, contains_complete,
}

-- A request of the client; the id is any JSON value, or absent.
pub record Incoming : Type 0 where
  pub id : Option Json
  pub method : Bytes
  pub params : RawMessage

-- What the remote side answers to a request: a response, or the error of sending.
pub data Reply : Type 0 where
  answered : Response → Reply
  failed : Bytes → Reply

-- The server of the connection, as the MCP server uses it. `R` is its state.
pub record Remote (R : Type 0) : Type 0 where
  pub is_connected : R → Bool
  pub info : R → Option ConnectionInfo
  pub send : Bytes → Request → R → R × Reply

-- What the text of a tool's result tells.
pub data ToolText : Type 0 where
  invalid_arguments : ToolText
  no_agent : ToolText
  not_connected : ToolText
  connected_since : ConnectionInfo → Bytes → Bytes → ToolText
  unknown_name : Bytes → ToolText
  send_error : Bytes → ToolText
  tool_error : Option Error → ToolText
  payload : Payload → ToolText
  local_unread : ToolText
  local_too_large : ℕ → ToolText
  upload_unsent : ℕ → ℤ → Bytes → ToolText
  upload_refused : ℕ → ℤ → Option Error → ToolText
  uploaded : Bytes → Bytes → ℕ → ℤ → ToolText
  download_failed : ToolText
  chunk_failed : ℕ → ℤ → ToolText
  undecoded : ℕ → ToolText
  local_unwritten : ℕ → ToolText
  downloaded : Bytes → Bytes → ℕ → ℤ → ToolText

pub data Outcome : Type 0 where
  initialized : Outcome
  tools : List ToolList.ToolSpec → Outcome
  tool_text : Bool → ToolText → Outcome
  rpc_error : ℤ → Bytes → Outcome

pub record Outgoing : Type 0 where
  pub id : Option Json
  pub outcome : Outcome

-- `toolResult` and `errorResponse`: each handler answers under the id that it is given.
abbrev pub tool_result : Option Json → Bool → ToolText → Outgoing
tool_result id success text = record { id = id; outcome = tool_text success text }

abbrev pub error_response : Option Json → ℤ → Bytes → Outgoing
error_response id code message = record { id = id; outcome = rpc_error code message }

pub data Direction : Type 0 where
  upload download : Direction

-- What a transfer is about: from where, to where, how many chunks, how many bytes.
pub record Job : Type 0 where
  pub direction : Direction
  pub source : Bytes
  pub target : Bytes
  pub chunks : ℤ
  pub size : ℕ

-- The bar has full and empty blocks.
pub data Stage : Type 0 where
  starting : Stage
  complete : List Bool → Stage
  running : List Bool → ℕ → Stage

-- The notifications that the client is sent without having asked.
pub data Notification : Type 0 where
  agent_connected : Bytes → Notification
  agent_disconnected : Notification
  progress : Job → ℕ → Stage → Notification

-- The state: the counter of request ids, the log, the notifications written, the operator's disk,
-- and the remote side.
pub record Mcp (R : Type 0) : Type 0 where
  pub request_id : ℕ
  pub logger : Option Logger
  pub notes : List Notification
  pub home : World
  pub remote : R

-- What the server uses of the libraries: the hash and the clock of the log, with the time of its next
-- entry, the text of a JSON value and of a response's error, a time as text and how
-- long ago it was, and the reading of a chunk from a response.
pub record Tools : Type 0 where
  pub hash : Bytes → Bytes
  pub clock : Clock
  pub now : Logger → ℕ
  pub json_text : RawMessage → Bytes
  pub error_text : Option Error → Bytes
  pub time_text : ℕ → Bytes
  pub since : ℕ → ℕ
  pub chunk_of : Payload → Option FileDownloadChunkResult

unfoldable pub write_log : Tools → Bytes → Bytes → Bytes → Option Logger → Option Logger
write_log env action detail outcome none = none
write_log env action detail outcome (some l) =
    some (log env.hash env.clock (env.now l) action detail outcome l)

abbrev pub logged : {R : Type 0} → Tools → Bytes → Bytes → Bytes → Mcp R → Mcp R
logged env action detail outcome s = record s {
  logger = write_log env action detail outcome s.logger;
}

unfoldable pub request_name : ℕ → Bytes
request_name n = codes "req-" ++ show_nat n

-- `requestID.Add(1)` and the request under the new id.
unfoldable pub send_next : {R : Type 0} → Remote R → Request → Mcp R → Mcp R × Reply
unfolding request_name
send_next net req s =
    let (r, reply) = net.send (request_name (s.request_id + 1)) req s.remote in
    (record s { request_id = s.request_id + 1; remote = r }, reply)

abbrev pub bar_length : ℕ
bar_length = 20

unfoldable pub percent_of : ℕ → ℕ → ℕ
percent_of current total = if ltb 0 total then current * 100 / total else 0

-- `strings.Repeat` would panic for more than 20 full blocks.
unfoldable pub bar_of : ℕ → List Bool
bar_of percent =
    let filled = bar_length * percent / 100 in
    replicate filled true ++ replicate (bar_length - filled) false

-- `sendNotification`, after `Run` has set the writer.
unfoldable pub send_notification : {R : Type 0} → Notification → Mcp R → Mcp R
send_notification n s = record s { notes = s.notes ++ n ∷ [] }

-- The text is one of three. With a negative total the percentage is 0.
unfoldable pub stage_of : ℕ → ℤ → Stage
unfolding percent_of bar_of
stage_of current (negsuc total) = if current == 0 then starting else running (bar_of 0) 0
stage_of current (pos total) =
    let percent = percent_of current total in
    if current == 0
    then starting
    else if current == total
    then complete (bar_of percent)
    else running (bar_of percent) percent

unfoldable pub send_progress_notification : {R : Type 0} → Job → ℕ → Mcp R → Mcp R
unfolding send_notification stage_of
send_progress_notification job current s =
    send_notification (progress job current (stage_of current job.chunks)) s

unfoldable pub notify_agent_connected : {R : Type 0} → Bytes → Mcp R → Mcp R
unfolding send_notification
notify_agent_connected hostname = send_notification (agent_connected hostname)

unfoldable pub notify_agent_disconnected : {R : Type 0} → Mcp R → Mcp R
unfolding send_notification
notify_agent_disconnected = send_notification agent_disconnected

unfoldable pub truncate_str : Bytes → ℕ → Bytes
truncate_str s max_len = if leb (length s) max_len then s else take max_len s ++ codes "..."
