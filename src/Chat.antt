-- ===== src/Chat.antt =====
-- The chat application of cw11: the messages on the wire, and the server behind them.
pub mod Message
pub mod State
pub mod Sockets
pub mod Registry
pub mod Text
pub mod Server
pub mod Client
pub mod Conversation
pub mod Screen
pub mod Everyone
pub mod Shutdown
mod Examples
