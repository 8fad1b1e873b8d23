-- ===== src/Server.antt =====
-- server/: who may use the server, and the mode of one session per process.
pub mod Auth
pub mod SingleUse
pub mod Resume
mod Handing
mod Credentials
mod Spending
pub mod App
pub mod Sessions
pub mod ProfileSession
pub mod Http
mod Admission
mod Proxied
mod OneSession
mod Available
mod Guarded
mod LostProfile
mod ProfileExamples
mod SessionExamples
mod Examples
