-- ===== src/Proxy.antt =====
-- proxy.rs and the files below it: the per-session upstream proxy. Texts are their bytes.
pub mod Upstream
pub mod Parse
pub mod Usable
pub mod RoundTrip
pub mod Address
pub mod Blocked
pub mod Socks
pub mod Head
pub mod Relay
mod Examples
