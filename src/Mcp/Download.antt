-- ===== src/Mcp/Download.antt =====
-- A download through the MCP server and the agent: the local file ends up as the remote one.
use lokifix.Json.{Json}
use lokifix.Base64.RoundTrip.{AreBytes}
use lokifix.World.{World, file}
use lokifix.Protocol.Message.{
  Call, open_file, write, success_of, Response, Payload, FileDownloadChunkResult,
}
use lokifix.Protocol.Message
use lokifix.Agent.Handlers.{System}
use lokifix.Agent.Handler.{HandlerConfig, AgentState}
use lokifix.Mcp.{Mcp, Tools, ToolText, Job}
use lokifix.Mcp.Transfer.{transfer_chunk_size, download_step, download_loop}
use lokifix.Mcp.Peer.{agent_remote}
use lokifix.Prelude.{ℕ, ◌*◌, ◌^◌, ◌<◌, ◌≡◌, false, Option, some, length, take, Bytes}

module _ (env : Tools) (cfg : HandlerConfig) (sys : System) (now later : ℕ) (path content : Bytes)
    (fits : length content < 2 ^ 63)
    (reads : (c : FileDownloadChunkResult) → env.chunk_of (Message.download_chunk c) ≡ some c) where
  module _ (job : Job) (from : job.source ≡ path) (some_bytes : 0 < length content)
      (bytes : AreBytes content) where
    abbrev round : ℕ → Mcp AgentState → Mcp AgentState × Option ToolText
    round = download_step env (agent_remote cfg sys now later) job

    abbrev rounds : ℕ → ℕ → Mcp AgentState → Mcp AgentState × Option ToolText
    rounds = download_loop env (agent_remote cfg sys now later) job

    -- The local file has the bytes before the chunk `i`.
    abbrev Holds : ℕ → Mcp AgentState → Type 0
    Holds i s =
        (s.home.disk job.target ≡ some (file (take (i * transfer_chunk_size) content)))
        × (s.home.refuses open_file job.target ≡ false)
        × (s.home.refuses write job.target ≡ false)
