-- ===== src/Pool.antt =====
-- pool.rs: the warm session pool.
pub mod Semaphore
pub mod State
pub mod World
pub mod Steps
mod Tally
pub mod Slots
pub mod Losses
pub mod Queue
pub mod Waiting
pub mod Sessions
pub mod Closing
pub mod Cull
pub mod Examples
