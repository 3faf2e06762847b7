-- ===== src/Duration.antt =====
-- How the MCP server and the audit log write a duration (`formatDuration` of internal/mcp/server.go
-- and, word for word the same, of internal/audit/audit.go).
use lokifix.Prelude.{ℕ, ◌*◌, ◌/◌, ◌%◌, ◌++◌, ltb, if◌then◌else◌, Bytes, codes, show_nat}

abbrev pub nanoseconds : ℕ
nanoseconds = 1000000000

-- `formatDuration` of a duration that is not negative, in nanoseconds.
unfoldable pub format_duration : ℕ → Bytes
format_duration d =
    let h = d / (3600 * nanoseconds) in
    let m = d / (60 * nanoseconds) % 60 in
    let s = d / nanoseconds % 60 in
    let seconds = show_nat s ++ codes "s" in
    let minutes = show_nat m ++ (codes "m " ++ seconds) in
    if ltb 0 h then show_nat h ++ (codes "h " ++ minutes) else if ltb 0 m then minutes else seconds
