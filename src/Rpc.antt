-- ===== src/Rpc.antt =====
-- src/rpc: the messages between server and client, and their framing.
pub mod Message
pub mod Transport
