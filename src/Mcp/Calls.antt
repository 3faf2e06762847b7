-- ===== src/Mcp/Calls.antt =====
-- `handleToolsCall` and the loop `Run` of internal/mcp/server.go: which message gets which answer.
use lokifix.Prelude.Int.{negsuc}
use lokifix.Json.{Json, RawMessage, Fields, end, field, fields_of, text_field, ◌>>=◌}
use lokifix.Protocol.Message.{Response}
use lokifix.Protocol.Tool.{
  Tool, shell_exec, file_read, file_write, file_edit, file_list, file_delete, glob, grep, sys_info,
  processes, services, registry, net_info, env_vars, installed_software, event_log, tool_name,
}
use lokifix.Transport.Server.{ConnectionInfo}
use lokifix.Duration.{format_duration}
use lokifix.Mcp.{
  Incoming, Outgoing, Mcp, Tools, Remote, Reply, answered, failed, initialized, tools, tool_result,
  error_response, ToolText, no_agent, not_connected, connected_since, unknown_name, send_error,
  tool_error, payload, logged, send_next, truncate_str,
}
use lokifix.Mcp.ToolList.{tools_list}
use lokifix.Mcp.Transfer.{
  handle_file_upload, handle_file_download, decode_upload_args, decode_download_args,
}
use lokifix.Prelude.{
  true, false, not, Option, none, some, List, [], ◌∷◌, ◌++◌, if◌then◌else◌, Bytes, codes, eq_bytes,
  to_lower,
}

-- A field of the type `json.RawMessage`: the last one counts, and null is a value too.
unfoldable pub raw_member : Bytes → Fields → RawMessage → RawMessage
raw_member name end cur = cur
raw_member name (field k v fs) cur =
    let skip = raw_member name fs cur in
    let take = raw_member name fs (some v) in
    if eq_bytes (to_lower k) (to_lower name) then take else skip

pub record CallParams : Type 0 where
  pub name : Bytes
  pub arguments : RawMessage

unfoldable pub decode_call : RawMessage → Option CallParams
unfolding fields_of text_field raw_member
decode_call j = do
  fs ← fields_of j
  name ← text_field "name" fs
  some (record { name = name; arguments = raw_member (codes "arguments") fs none })

-- `toolMap`
abbrev pub tool_map : List (Bytes × Tool)
tool_map =
    (codes "remote_shell", shell_exec)
    ∷ (codes "remote_file_read", file_read)
    ∷ (codes "remote_file_write", file_write)
    ∷ (codes "remote_file_edit", file_edit)
    ∷ (codes "remote_file_list", file_list)
    ∷ (codes "remote_file_delete", file_delete)
    ∷ (codes "remote_glob", glob)
    ∷ (codes "remote_grep", grep)
    ∷ (codes "remote_sysinfo", sys_info)
    ∷ (codes "remote_processes", processes)
    ∷ (codes "remote_services", services)
    ∷ (codes "remote_registry", registry)
    ∷ (codes "remote_netinfo", net_info)
    ∷ (codes "remote_env_vars", env_vars)
    ∷ (codes "remote_installed_software", installed_software)
    ∷ (codes "remote_event_log", event_log)
    ∷ []

unfoldable pub find_in : List (Bytes × Tool) → Bytes → Option Tool
find_in [] name = none
find_in ((k, t) ∷ m) name = if eq_bytes name k then some t else find_in m name

unfoldable pub remote_tool : Bytes → Option Tool
unfolding find_in
remote_tool name = find_in tool_map name

unfoldable pub status_text : Tools → Option ConnectionInfo → ToolText
unfolding format_duration
status_text env none = not_connected
status_text env (some info) =
    connected_since info (env.time_text info.connected_at)
      (format_duration (env.since info.connected_at))

-- `handleConnectionStatus`
unfoldable pub handle_connection_status :
    {R : Type 0} → Tools → Remote R → Option Json → Mcp R → Outgoing
unfolding status_text
handle_connection_status env net id s = tool_result id true (status_text env (net.info s.remote))

unfoldable pub response_outcome : Option Json → Response → Outgoing
response_outcome id r =
    if r.success
    then tool_result id true (payload r.content)
    else tool_result id false (tool_error r.error)

abbrev pub handle_initialize : Option Json → Outgoing
handle_initialize id = record { id = id; outcome = initialized }

abbrev pub handle_tools_list : Option Json → Outgoing
handle_tools_list id = record { id = id; outcome = tools tools_list }

module _ {R : Type 0} (env : Tools) (net : Remote R) where
  unfoldable pub error_detail : Bytes → Response → Bytes
  error_detail name r = if r.success then name else name ++ (codes ": " ++ env.error_text r.error)

  unfoldable pub forward_reply : Option Json → Bytes → Reply → Mcp R → Mcp R × Outgoing
  unfolding error_detail response_outcome
  forward_reply id name (failed e) s =
      (logged env (codes "RECV_" ++ name) e (codes "ERROR") s, tool_result id false (send_error e))
  forward_reply id name (answered r) s = (
    logged env (codes "RECV_" ++ name) (error_detail name r)
        (if r.success then codes "OK" else codes "ERROR") s,
    response_outcome id r,
  )

  unfoldable pub send_detail : Bytes → RawMessage → Bytes
  unfolding truncate_str
  send_detail name arguments =
      name ++ (codes " args=" ++ truncate_str (env.json_text arguments) 150)

  -- A tool that the agent runs. The number of the request is taken before the log entry is made; the
  -- two do not depend on each other.
  unfoldable pub forward : Option Json → Bytes → RawMessage → Mcp R → Mcp R × Outgoing
  unfolding send_next forward_reply send_detail
  forward id name arguments s =
      let s1 = logged env (codes "SEND_" ++ name) (send_detail name arguments) (codes "OK") s in
      let (s2, reply) = send_next net (record { tool = name; params = arguments }) s1 in
      forward_reply id name reply s2

  unfoldable pub forward_to : Option Json → Option Tool → CallParams → Mcp R → Mcp R × Outgoing
  unfolding forward tool_name
  forward_to id none p s = (s, tool_result id false (unknown_name p.name))
  forward_to id (some t) p s = forward id (tool_name t) p.arguments s

  -- A tool that needs the agent.
  unfoldable pub call_remote : Option Json → CallParams → Mcp R → Mcp R × Outgoing
  unfolding handle_file_upload handle_file_download forward_to remote_tool decode_upload_args
      decode_download_args
  call_remote id p s =
      if eq_bytes p.name (codes "remote_file_upload")
      then handle_file_upload env net id (decode_upload_args p.arguments) s
      else if eq_bytes p.name (codes "remote_file_download")
      then handle_file_download env net id (decode_download_args p.arguments) s
      else forward_to id (remote_tool p.name) p s

  unfoldable pub call_tool : Option Json → CallParams → Mcp R → Mcp R × Outgoing
  unfolding call_remote handle_connection_status
  call_tool id p s =
      if eq_bytes p.name (codes "remote_connection_status")
      then (s, handle_connection_status env net id s)
      else if not (net.is_connected s.remote)
      then (s, tool_result id false no_agent)
      else call_remote id p s

  unfoldable pub handle_decoded : Option Json → Option CallParams → Mcp R → Mcp R × Outgoing
  unfolding call_tool
  handle_decoded id none s = (s, error_response id (negsuc 32601) (codes "invalid params"))
  handle_decoded id (some p) s = call_tool id p s

  unfoldable pub handle_tools_call : Option Json → RawMessage → Mcp R → Mcp R × Outgoing
  unfolding handle_decoded decode_call
  handle_tools_call id params s = handle_decoded id (decode_call params) s

  -- The `switch` of the loop: what is written; nothing for a message that gets no answer.
  unfoldable pub handle_method : Incoming → Mcp R → Mcp R × List Outgoing
  unfolding handle_tools_call
  handle_method msg s =
      if eq_bytes msg.method (codes "initialize")
      then (s, handle_initialize msg.id ∷ [])
      else if eq_bytes msg.method (codes "tools/list")
      then (s, handle_tools_list msg.id ∷ [])
      else if eq_bytes msg.method (codes "tools/call")
      then (let (s1, o) = handle_tools_call msg.id msg.params s in (s1, o ∷ []))
      else if eq_bytes msg.method (codes "notifications/initialized")
      then (s, [])
      else (s, error_response msg.id (negsuc 32600) (codes "method not found: " ++ msg.method) ∷ [])

  -- One round of `Run` on a line; `none` is a line that is no message.
  unfoldable pub round : Option Incoming → Mcp R → Mcp R × List Outgoing
  unfolding handle_method
  round none s = (s, [])
  round (some msg) s = handle_method msg s

  -- `Run` up to the end of its input: everything that it answers.
  unfoldable pub run : List (Option Incoming) → Mcp R → Mcp R × List Outgoing
  unfolding round
  run [] s = (s, [])
  run (line ∷ lines) s =
      let (s1, out) = round line s in let (s2, rest) = run lines s1 in (s2, out ++ rest)
