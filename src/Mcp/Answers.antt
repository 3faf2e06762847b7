-- ===== src/Mcp/Answers.antt =====
-- The answers of the loop of the MCP server, in their order and under their ids.
use lokifix.Json.{Json}
use lokifix.Protocol.Tool.{Tool}
use lokifix.Mcp.{Incoming, Outgoing, Mcp}
use lokifix.Prelude.{Option, none, some, List, [], ◌∷◌, map, if◌then◌else◌, codes, eq_bytes}

-- The ids that have to be answered: those of all messages but one kind.
abbrev pub asked : List (Option Incoming) → List (Option Json)
asked [] = []
asked (none ∷ lines) = asked lines
asked (some msg ∷ lines) =
    let rest = asked lines in
    if eq_bytes msg.method (codes "notifications/initialized") then rest else msg.id ∷ rest

abbrev pub ids : List Outgoing → List (Option Json)
ids out = map (λ o. o.id) out
