-- ===== src/Server/App.antt =====
-- server.rs and server/http.rs: the state that the handlers share, a request, and who may ask.
use browserserve.Common.{ℕ, Bool, true, false, ◌&&◌, Option, none, some}
use browserserve.Common.Result.{Result}
use browserserve.Common.Text.{Bytes, codes}
use browserserve.Capacity.{ThreadUsage, fits_a_session}
use browserserve.Pool.State.{PoolStats}
use browserserve.Profiles.{ProfileStore}
use browserserve.Server.Auth.{authorized, tokenless_origin_allowed}
use browserserve.Server.Resume.{ResumeRegistry}
use browserserve.Server.SingleUse.{SingleUse}

-- `a > b` on f64, `ct_eq` of subtle, and whether a host is a loopback IPv4 address.
pub record Host (F : Type 0) : Type 0 where
  pub above : F → F → Bool
  pub ct_eq : Bytes → Bytes → Bool
  pub is_loopback_ip : Bytes → Bool

pub record RelayOptions : Type 0 where
  pub allow_private : Bool
  pub connect_timeout_ms : ℕ
  pub max_connections : ℕ

abbrev pub default_relay : RelayOptions
default_relay = record { allow_private = false; connect_timeout_ms = 20_000; max_connections = 256 }

-- What the handlers read of `AppState`: the gauge, the pool and the factory as they answer at
-- the request; tokens of profiles and parked sessions are of type `K`.
pub record AppState (F K P : Type 0) : Type 0 where
  pub token : Option Bytes
  pub cpu : F
  pub memory : F
  pub max_cpu : F
  pub max_memory : F
  pub threads : Option ThreadUsage
  pub calibrating : Bool
  pub stats : PoolStats
  pub sandbox_blocked : Bool
  pub single_use : Option SingleUse
  pub resume : Option (ResumeRegistry K)
  pub profiles : ProfileStore K P
  pub session_proxy : Result Bytes RelayOptions
  pub external_address : Option Bytes

-- A header's value; `opaque` is one that `to_str` refuses.
pub data HeaderValue : Type 0 where
  visible : Bytes → HeaderValue
  opaque : HeaderValue

pub record Headers : Type 0 where
  pub origin : Option HeaderValue
  pub authorization : Option HeaderValue
  pub proxy : Option HeaderValue
  pub host : Option HeaderValue

pub record Query (K : Type 0) : Type 0 where
  pub token : Option Bytes
  pub resume : Option K
  pub profile_token : Option K

abbrev pub text_of : Option HeaderValue → Option Bytes
text_of none = none
text_of (some (visible t)) = some t
text_of (some opaque) = none

abbrev pub origin_text : Option HeaderValue → Option Bytes
origin_text none = none
origin_text (some (visible t)) = some t
origin_text (some opaque) = some (codes "invalid")

-- Without a token, the page has to be a local one.
abbrev pub origin_passes : {F : Type 0} → Host F → Option Bytes → Option HeaderValue → Bool
origin_passes h none origin = tokenless_origin_allowed h.is_loopback_ip (origin_text origin)
origin_passes h (some token) origin = true

unfoldable pub request_authorized :
    {F : Type 0} → Host F → Option Bytes → Option Bytes → Headers → Bool
request_authorized h token query_token headers =
    origin_passes h token headers.origin
    && authorized h.ct_eq token query_token (text_of headers.authorization)

unfoldable pub check_auth : {F K P : Type 0} → Host F → AppState F K P → Query K → Headers → Bool
check_auth h s query headers = request_authorized h s.token query.token headers

abbrev pub has_room : Option ThreadUsage → Bool
has_room none = true
has_room (some usage) = fits_a_session usage

abbrev pub is_spent : Option SingleUse → Bool
is_spent none = false
is_spent (some u) = u.spent
