-- ===== src/Tests.antt =====
-- Concrete packets, players and servers, and the theorems applied to them.
pub mod World
mod Wire
mod Tables
mod Room
mod Chat
mod Samples
pub mod Doors
pub mod Files
pub mod Plugin
pub mod Game
pub mod Sessions
mod Prologue
mod Drawing
pub mod Console
mod Roster
mod Mutual
mod Visits
mod Life
