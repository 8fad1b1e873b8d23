-- ===== src/Chrome.antt =====
-- chrome/: the browser process and its pipe.
pub mod Pipe
pub mod Client
pub mod Flags
