-- ===== src/Lib.antt =====
-- Verification of LokiFix, a tool for remote help: an MCP server on the operator's side sends tool
-- requests over an encrypted connection to an agent on the remote side, which asks its user before
-- anything dangerous, runs the tool and writes an audit log.
--
-- The parts and where they are modelled (paths from the repository's root):
--   * Auth (internal/auth/auth.go): the manager of connection codes and session tokens is a record;
--     each method, which the source runs under a mutex, is one function from a manager to the next.
--     Random bytes and the time, in nanoseconds, are arguments. Auth/Info has the connection string;
--     Base64 is the encoding that it and the transfers use.
--   * Protocol (internal/protocol/protocol.go): messages and tool names; Protocol/Params reads the
--     parameters of a tool from a JSON value (Json), as `json.Unmarshal` does; Protocol/Encode
--     writes those of a chunk.
--   * World: the disk as the functions of `os` show it, with the calls that the system refuses. `Io`
--     is a step on it that ends with a result, an error or a panic.
--   * Fileops (internal/fileops/fileops.go): Read, Edit, Glob, Sort, Grep and Transfer.
--   * Audit (internal/audit/audit.go) and Audit/Danger (internal/audit/dangerous.go): the log with
--     its chain of hashes, and the patterns that make a request dangerous; Audit/Report has the
--     session report.
--   * Crypto (internal/crypto/crypto.go): messages encrypted over an AEAD, whose promises are a
--     record of laws.
--   * Executor (internal/executor/executor.go): the command line, the timeout and the outcome.
--   * Sysinfo (internal/sysinfo/sysinfo.go): commands for PowerShell and the reading of their CSV;
--     Sysinfo/State has the state of the system, its interfaces and its environment.
--   * Agent (internal/agent/handler.go): confirmation and details; Agent/Handlers has the handler of
--     each tool and `dispatch`, Agent/Handler `NewHandler` with its log entries.
--   * Program (cmd/lokifix-agent/main.go): reconnecting and the user's answers.
--   * Transport (internal/transport): Transport/Server and Transport/Client have the two ends of the
--     connection, each a state with its connection, key and, on the server, pending requests; what
--     the source does under one lock is one step. Transport/Requests has the sending of a request
--     and the collecting of its response; Transport/Life lets the steps of all connections and
--     requests come in any order.
--   * Mcp (internal/mcp/server.go): Mcp/Calls has the loop and the routing of calls, Mcp/Transfer the
--     uploads and downloads, Mcp/ToolList what is offered. The server of the connection is an
--     interface; Mcp/Peer fills it with the agent's handler.
--   * Operator (cmd/lokifix-mcp/main.go): what the operator's program does when an agent connects or
--     is disconnected; Tunnel (internal/tunnel/tunnel.go) fetches the program of its tunnel.
--   * Ui (internal/ui): the colours, the banner, and the dialog in which the user is asked.
--   * Duration: how durations are written.
--
-- What is given as an argument: `filepath.Match`, compiled regular expressions, the order and the
-- files of `filepath.Walk`, modification times, HKDF, AES-GCM, SHA-256, the printing of times,
-- processes, the user's answers, what the runtime of Go, the package `net` and the environment tell,
-- the reading of numbers by `strconv`, the WebSocket library, and the JSON text of messages.
--
-- Numbers are natural numbers of the machine's size and larger; where the source may wrap around or
-- divides (Prelude/Int64), wrap-around and the panic are written out. Loops are recursions on their
-- lists. The exchange sort takes as many rounds as there are files; decimal printing takes at most
-- twenty digits, which is enough for 64 bits. A text is a list of bytes, and upper and lower case
-- and white space are those of ASCII.
--
-- An upload or a download makes as many rounds as there are chunks of one MB, which is fixed before
-- its loop.
--
-- Not modelled: listening and dialling, time limits and the pool of handlers of the transport, the
-- words of the MCP server's results, the programs' start and most of what they print, the process of
-- the tunnel, JSON text, and the handlers of the agent that only pass on what Sysinfo reports.
pub mod Prelude
pub mod Base64
pub mod Crypto
pub mod Dict
pub mod Auth
pub mod Json
pub mod Mcp
pub mod Duration
pub mod Ui
pub mod Operator
pub mod Tunnel
pub mod Program
pub mod Protocol
pub mod Sysinfo
pub mod Transport
pub mod World
pub mod Agent
pub mod Audit
pub mod Executor
pub mod Fileops
