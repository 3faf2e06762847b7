-- ===== src/Protocol.antt =====
-- internal/protocol/protocol.go: the messages between the operator's server and the remote agent.
-- The payload of an answer is the Go value itself; its passage through JSON text is left out.
pub mod Tool
pub mod Params
pub mod Encode
pub mod Message
