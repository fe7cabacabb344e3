-- ===== src/Client.antt =====
-- client/src: the parts of the plugin that do not act on the game engine.
pub mod Config
pub mod Clock
pub mod Net
pub mod RemoteState
pub mod Remotes
pub mod Interpolation
pub mod Session
pub mod Prologue
pub mod Game
pub mod LocalPlayer
pub mod Console
pub mod Plugin
