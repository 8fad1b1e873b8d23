-- ===== src/Proxy/Socks.antt =====
-- proxy/socks.rs: the SOCKS5 handshake, over a stream with the bytes that the proxy sends and the
-- number of writes that it takes before it breaks. `host.parse::<IpAddr>()` is a parameter.
pub mod Handshake
mod Examples
use browserserve.Common.{
  ℕ, zero, suc, ◌+◌, ◌*◌, ◌/◌, ◌%◌, Bool, true, false, not, ◌&&◌, ◌||◌, Option, none, some, List,
  [], ◌∷◌, ◌++◌, length, take, drop, ltb, leb, ◌==◌, if◌then◌else◌,
}
use browserserve.Common.Result.{Result, ok, err}
use browserserve.Common.Text.{Bytes}
use browserserve.Proxy.Address.{Ipv4, Ipv6, IpAddr, v4, v6}

-- `ProxyError` without its texts; the code is the one that the proxy answered.
pub data Refusal : Type 0 where
  name_too_long : Refusal
  replied : ℕ → Refusal

pub data Unreachable : Type 0 where
  io_failed not_socks5 unsupported_method bad_reply bad_address_type : Unreachable

pub data ProxyError : Type 0 where
  login_failed : ProxyError
  refused : Refusal → ProxyError
  unreachable : Unreachable → ProxyError

pub record Stream : Type 0 where
  pub incoming : Bytes
  pub sent : Bytes
  pub writes : ℕ

abbrev pub Talk : Type 0 → Type 0
Talk A = Stream → Result ProxyError A × Stream

abbrev after :
    {A B : Type 0} → (A → Talk B) → Result ProxyError A × Stream → Result ProxyError B × Stream
after f (ok a, s) = f a s
after f (err e, s) = (err e, s)

infixl 5 ◌>>=◌
abbrev pub ◌>>=◌ : {A B : Type 0} → Talk A → (A → Talk B) → Talk B
(m >>= f) s = after f (m s)

abbrev pub done : {A : Type 0} → A → Talk A
done a s = (ok a, s)

abbrev pub fail : {A : Type 0} → ProxyError → Talk A
fail e s = (err e, s)

-- A broken stream sends nothing.
unfoldable pub write_all : Bytes → Talk (Unit {0})
write_all bytes s = elim (s.writes) [
  | zero ↦ (err (unreachable io_failed), s)
  | suc n ↦ (ok tt, record s { sent = s.sent ++ bytes; writes = n })
]

unfoldable pub read_exact : ℕ → Talk Bytes
read_exact n s =
    if ltb (length s.incoming) n
    then (err (unreachable io_failed), record s { incoming = [] })
    else (ok (take n s.incoming), record s { incoming = drop n s.incoming })

-- Byte `n` of what was read.
abbrev pub byte_at : ℕ → Bytes → ℕ
byte_at n [] = 0
byte_at zero (c ∷ cs) = c
byte_at (suc n) (c ∷ cs) = byte_at n cs

abbrev pub version : ℕ
version = 5

abbrev pub no_auth : ℕ
no_auth = 0

abbrev pub user_pass : ℕ
user_pass = 2

abbrev pub no_acceptable : ℕ
no_acceptable = 0xff

abbrev pub greeting : Option (Bytes × Bytes) → Bytes
greeting none = version ∷ 1 ∷ no_auth ∷ []
greeting (some login) = version ∷ 2 ∷ no_auth ∷ user_pass ∷ []

-- `u8::try_from(len)`
abbrev pub fits_u8 : Bytes → Bool
fits_u8 s = ltb (length s) 256

abbrev pub login_message : Bytes → Bytes → Bytes
login_message user pass = 1 ∷ length user ∷ (user ++ (length pass ∷ pass))

unfoldable pub log_in : Bytes → Bytes → Talk (Unit {0})
log_in user pass = if not (fits_u8 user) || not (fits_u8 pass) then fail login_failed else do
  written ← write_all (login_message user pass)
  status ← read_exact 2
  if byte_at 1 status == 0 then done tt else fail login_failed

-- The method that the proxy chose, with the login that the client has.
unfoldable pub authenticate : ℕ → Option (Bytes × Bytes) → Talk (Unit {0})
authenticate method none =
    if method == no_auth
    then done tt
    else if method == user_pass || method == no_acceptable
    then fail login_failed
    else fail (unreachable unsupported_method)
authenticate method (some (user, pass)) =
    if method == no_auth
    then done tt
    else if method == user_pass
    then log_in user pass
    else if method == no_acceptable
    then fail login_failed
    else fail (unreachable unsupported_method)

abbrev pub v4_octets : Ipv4 → Bytes
v4_octets ip = ip.a ∷ ip.b ∷ ip.c ∷ ip.d ∷ []

abbrev pub be_bytes : ℕ → Bytes
be_bytes n = n / 256 ∷ n % 256 ∷ []

abbrev pub v6_octets : Ipv6 → Bytes
v6_octets ip =
    be_bytes ip.s0
    ++ be_bytes ip.s1
    ++ be_bytes ip.s2
    ++ be_bytes ip.s3
    ++ be_bytes ip.s4
    ++ be_bytes ip.s5
    ++ be_bytes ip.s6
    ++ be_bytes ip.s7

abbrev pub target_bytes : Bytes → Option IpAddr → Option Bytes
target_bytes host (some (v4 ip)) = some (1 ∷ v4_octets ip)
target_bytes host (some (v6 ip)) = some (4 ∷ v6_octets ip)
target_bytes host none = if fits_u8 host then some (3 ∷ length host ∷ host) else none

abbrev pub connect_message : Bytes → ℕ → Bytes
connect_message target port = version ∷ 1 ∷ 0 ∷ (target ++ be_bytes port)

-- The bytes that follow the head of the reply: the bound address and its port.
unfoldable pub read_bound : ℕ → Talk (Unit {0})
read_bound kind =
    if kind == 1
    then (do bound ← read_exact 6; done tt)
    else if kind == 4
    then (do bound ← read_exact 18; done tt)
    else if kind == 3
    then (do len ← read_exact 1; bound ← read_exact (byte_at 0 len + 2); done tt)
    else fail (unreachable bad_address_type)

unfoldable pub read_reply : Talk (Unit {0})
read_reply = do
  reply ← read_exact 4
  if not (byte_at 0 reply == version)
      then fail (unreachable bad_reply)
      else if not (byte_at 1 reply == 0)
      then fail (refused (replied (byte_at 1 reply)))
      else read_bound (byte_at 3 reply)

unfoldable pub request : Option Bytes → ℕ → Talk (Unit {0})
request none port = fail (refused name_too_long)
request (some target) port = do written ← write_all (connect_message target port); read_reply

unfoldable pub connect :
    (Bytes → Option IpAddr) → Bytes → ℕ → Option (Bytes × Bytes) → Talk (Unit {0})
connect parse_ip host port login = do
  greeted ← write_all (greeting login)
  choice ← read_exact 2
  if not (byte_at 0 choice == version) then fail (unreachable not_socks5) else do
    logged_in ← authenticate (byte_at 1 choice) login
    request (target_bytes host (parse_ip host)) port
