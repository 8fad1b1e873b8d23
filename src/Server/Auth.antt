-- ===== src/Server/Auth.antt =====
-- server/auth.rs: the token of a request and the origin of a page. `ct_eq` of subtle and
-- `host.parse::<Ipv4Addr>()` with its loopback test are parameters.
use browserserve.Common.{ℕ, Bool, true, false, ◌||◌, Option, none, some, [], ◌∷◌}
use browserserve.Common.Text.{
  Bytes, codes, equal, lowercase, rsplit_once, split_once, strip_prefix, trim,
}

abbrev bearer : Option Bytes → Option Bytes
bearer none = none
bearer (some token) = some (trim token)

-- The token of the `Authorization` header.
abbrev pub header_token : Option Bytes → Option Bytes
header_token none = none
header_token (some value) = bearer (strip_prefix (codes "Bearer ") value)

-- The query parameter comes first.
abbrev pub candidate : Option Bytes → Option Bytes → Option Bytes
candidate (some token) header = some token
candidate none header = header_token header

abbrev pub matches : (Bytes → Bytes → Bool) → Bytes → Option Bytes → Bool
matches ct_eq expected none = false
matches ct_eq expected (some token) = ct_eq expected token

unfoldable pub authorized :
    (Bytes → Bytes → Bool) → Option Bytes → Option Bytes → Option Bytes → Bool
authorized ct_eq none query_token header = true
authorized ct_eq (some expected) query_token header =
    matches ct_eq expected (candidate query_token header)

abbrev or_later : Option Bytes → Option Bytes → Option Bytes
or_later (some rest) later = some rest
or_later none later = later

-- What follows the first `://`.
unfoldable pub after_scheme : Bytes → Option Bytes
after_scheme [] = none
after_scheme (c ∷ cs) = or_later (strip_prefix (codes "://") (c ∷ cs)) (after_scheme cs)

abbrev front : Bytes → Option (Bytes × Bytes) → Bytes
front s none = s
front s (some (a, b)) = a

-- `split(c).next()`: what is in front of the first such byte, or everything.
abbrev pub before : ℕ → Bytes → Bytes
before c s = front s (split_once c s)

abbrev host_of : Bytes → Option Bytes → Bytes
host_of authority (some stripped) = before b']' stripped
host_of authority none = front authority (rsplit_once b':' authority)

-- The host of an authority, with its port taken off.
unfoldable pub origin_host : Bytes → Bytes
origin_host authority = host_of authority (strip_prefix (codes "[") authority)

unfoldable pub is_local : (Bytes → Bool) → Bytes → Bool
is_local is_loopback_ip host =
    equal host (codes "localhost") || (equal host (codes "::1") || is_loopback_ip host)

abbrev pub allows : (Bytes → Bool) → Option Bytes → Bool
allows is_loopback_ip none = false
allows is_loopback_ip (some rest) =
    is_local is_loopback_ip (lowercase (origin_host (before b'/' rest)))

unfoldable pub tokenless_origin_allowed : (Bytes → Bool) → Option Bytes → Bool
tokenless_origin_allowed is_loopback_ip none = true
tokenless_origin_allowed is_loopback_ip (some origin) = allows is_loopback_ip (after_scheme origin)
