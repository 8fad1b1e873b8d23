-- ===== src/Profile.antt =====
-- profile/: what is stored of a browser profile.
pub mod Cookie
mod Sanitized
pub mod Manifest
mod Examples
