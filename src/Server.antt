-- ===== src/Server.antt =====
-- server/src: the dedicated server.
pub mod State
pub mod Settings
pub mod Sending
pub mod Connections
pub mod Joining
pub mod Chatting
pub mod Handlers
pub mod Bots
pub mod Commands
pub mod Service
pub mod Launch
pub mod Frame
pub mod Ids
pub mod Recipients
pub mod Flood
pub mod Clearing
pub mod Leading
pub mod Isolation
pub mod ChatText
pub mod Handshake
pub mod Joined
pub mod Changes
pub mod Invariant
pub mod Leaving
pub mod Everyone
pub mod Named
pub mod Plausible
