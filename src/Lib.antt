-- ===== src/Lib.antt =====
-- browserserve: a server that runs isolated Chrome sessions. A client connects over a WebSocket; the
-- session pool gives it a warm browser, launches one for it, or queues it up to a bound; a bridge
-- moves CDP messages between the socket and the browser's pipe; a session may use an upstream proxy
-- through a relay of its own, and may restore and save a profile through a hand-off store. This
-- library models the parts that decide, and proves what they promise.
--
-- Modules and the code they are about:
--   Common            shared names; lists, maps with unique keys, texts as lists of bytes, decimal
--                     numbers, UTF-8, and their laws
--   Capacity          src/capacity.rs (compute, ThreadUsage) and derive_ceiling of src/calibrate.rs
--   Calibrate         src/calibrate.rs: the ramp; its loop runs over the steps left, at most twelve
--   Pool              src/pool.rs: Pool.State has the operations on the shared state, Pool.Steps the
--                     atomic pieces of claims, releases, close, resize and the replenisher, with one
--                     event for each; Pool.World holds the state with every task in flight
--   Profiles          src/server/profiles.rs: the hand-off store of profiles
--   Profile.Cookie    src/profile/cookie.rs: what is restored of a captured cookie
--   Proxy.Upstream, Proxy.Parse
--                     src/proxy/upstream.rs: the address of a proxy
--   Proxy.Address     src/proxy/address.rs: the addresses a proxy must not have
--   Proxy.Socks       src/proxy/socks.rs: the SOCKS5 handshake
--   Proxy.Head        src/proxy/head.rs: heads of HTTP messages in the relay
--   Proxy.Relay       src/proxy/relay.rs: the accept loop, as a step relation
--   Server.Auth       src/server/auth.rs: the token of a request, the origin of a page
--   Server.SingleUse  src/server/single_use.rs: one session per process
--   Server.Resume     src/server/resume.rs: parked sessions, and the four ends of src/bridge.rs
--   Server.App        the state of src/server.rs that the handlers read, and who may ask (check_auth)
--   Server.Sessions   src/server/ws.rs: the handler of a session, up to the upgrade
--   Server.Http       src/server/http.rs: probes, discovery, the profile handlers
--   Server.ProfileSession
--                     src/server/ws.rs: a profile session after the upgrade
--   Factory           src/factory.rs: how sessions are created and destroyed; a teardown counts as done
--                     when it is asked for, and what a failed provisioning leaves is not counted
--   Chrome.Flags      src/chrome/flags.rs: the command line of a browser
--   Profile.Manifest  src/profile/manifest.rs: the extraction of captured files
--   Bridge            src/bridge.rs: both pumps, and the ends of a session
--   Config            src/config.rs: Config.Settings has the sections and their defaults,
--                     Config.Loading load and validate, Config.Sources the choice of the file
--   Chrome.Pipe       src/chrome/pipe.rs: frames on the browser's pipe
--   Chrome.Client     src/chrome/client.rs: commands and their replies; a call runs over what the pipe
--                     will carry, and waits at its end
-- The other modules hold proofs, named for what they prove; Examples modules hold tests and witnesses.
--
-- How the code is rendered:
--   A mutex-guarded call is one step. In the pool an atomic counter, the semaphore and the list of
--   warm sessions change in the steps in which the code changes them, and a run is any sequence of
--   steps, which covers every interleaving of claims and of the replenisher. Each of close,
--   set_max_sessions and one look of the replenisher is a single step. is_alive is the answer that a
--   step carries; its write to the handle is left out.
--   Numbers are natural numbers; a usize counter wraps at 2^64, a u32 at 2^32, and a sum or a cast
--   keeps its bound. Fewer than 2^64 claimers stand in line. Times are numbers of milliseconds.
--   `decimal` has fuel for 20 digits, which every 64-bit number fits. Texts are bytes; trimming takes
--   ASCII spaces only. Streams are the pieces that their reads give.
--   Parameters with the laws the code relies on: the tokio semaphore (Pool.Semaphore; the
--   relay's too), memmem::find (Proxy.Head.Reading), memchr (Chrome.Pipe.Framing) and subtle's ct_eq
--   (Server.Credentials).
--   Parameters without: httparse, from_utf8_lossy, IP literals, the name lookup, base64, the random
--   token, f64, and what the host answers to a calibration.
--
-- Not modelled: processes, files, cgroups and the HTTP routing, which are I/O; what
-- the relay does with a connection.
mod Common
pub mod Capacity
pub mod Pool
pub mod Profiles
pub mod Profile
pub mod Proxy
pub mod Chrome
pub mod Server
pub mod Config
pub mod Bridge
pub mod Factory
pub mod Calibrate
