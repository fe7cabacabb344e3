-- ===== src/Protocol/Layout.antt =====
-- The wire form of each message of shared/include/f4mp/Protocol.hpp, independently of its `Write`
-- and `Read`: what the tables of docs/PROTOCOL.md list, in order.
pub mod State
pub mod Format
pub mod ToServer
pub mod ToClient
pub mod Relayed
pub mod Kinds
pub mod RoundTrip
