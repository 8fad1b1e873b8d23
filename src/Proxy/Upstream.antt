-- ===== src/Proxy/Upstream.antt =====
-- proxy/upstream.rs: parsing, showing and validating a proxy address.
use browserserve.Common.{
  ℕ, ◌+◌, ◌-◌, ◌*◌, ◌^◌, Bool, true, false, not, ◌&&◌, ◌||◌, Option, none, some, [], ◌∷◌, is_empty,
  all, leb, ◌==◌, if◌then◌else◌,
}
use browserserve.Common.Result.{Result, ok, err, ok_or, ◌>>=◌}
use browserserve.Common.Text.{
  Bytes, codes, is_digit, is_upper, is_lower, lowercase, eq_ignore_case, split_once, rsplit_once,
}
use browserserve.Common.Decimal.{parse_unsigned}
use browserserve.Common.Utf8.{is_utf8}

pub data ProxyScheme : Type 0 where
  http https socks5 : ProxyScheme

abbrev pub as_str : ProxyScheme → Bytes
as_str http = codes "http"
as_str https = codes "https"
as_str socks5 = codes "socks5"

abbrev pub default_port : ProxyScheme → ℕ
default_port http = 80
default_port https = 443
default_port socks5 = 1080

pub data LoginFault : Type 0 where
  bad_escape empty_username control_character username_colon too_long : LoginFault

pub data UpstreamParseError : Type 0 where
  bad_scheme bad_host_port has_path : UpstreamParseError
  bad_login : LoginFault → UpstreamParseError

pub record ProxyUpstream : Type 0 where
  pub scheme : ProxyScheme
  pub host : Bytes
  pub port : ℕ
  pub username : Option Bytes
  pub password : Option Bytes

unfoldable pub has_login : ProxyUpstream → Bool
has_login u = elim (u.username) [ none ↦ false | some name ↦ true ]

-- `s.get(..prefix.len())`, compared without case, and what follows it.
unfoldable pub strip_prefix_ci : Bytes → Bytes → Option Bytes
strip_prefix_ci s [] = some s
strip_prefix_ci [] (p ∷ ps) = none
strip_prefix_ci (c ∷ cs) (p ∷ ps) =
    if eq_ignore_case (c ∷ []) (p ∷ []) then strip_prefix_ci cs ps else none

-- The first scheme whose prefix the address has.
unfoldable pub read_scheme : Bytes → Option (ProxyScheme × Bytes)
unfolding strip_prefix_ci eq_ignore_case
read_scheme raw = elim (strip_prefix_ci raw (codes "http://")) [
  | some r ↦ some (http, r)
  | none ↦ elim (strip_prefix_ci raw (codes "https://")) [
    | some r ↦ some (https, r)
    | none ↦ elim (strip_prefix_ci raw (codes "socks5://")) [
      | some r ↦ some (socks5, r)
      | none ↦ elim (strip_prefix_ci raw (codes "socks5h://")) [
        | some r ↦ some (socks5, r)
        | none ↦ none
      ]
    ]
  ]
]

-- `rest.strip_suffix('/').unwrap_or(rest)`
unfoldable pub drop_slash : Bytes → Bytes
drop_slash [] = []
drop_slash (c ∷ []) = if c == b'/' then [] else c ∷ []
drop_slash (c ∷ d ∷ cs) = c ∷ drop_slash (d ∷ cs)

abbrev pub is_path_byte : ℕ → Bool
is_path_byte c = c == b'/' || (c == b'?' || c == b'#')

abbrev pub is_host_byte : ℕ → Bool
is_host_byte c =
    (is_digit c || (is_upper c || is_lower c))
    || (c == b'.' || (c == b'-' || (c == b':' || c == b'_')))

-- What follows the bracket of an IPv6 literal.
unfoldable pub port_after : Bytes → Result UpstreamParseError (Option Bytes)
port_after [] = ok none
port_after (c ∷ cs) = if c == b':' then ok (some cs) else err bad_host_port

unfoldable pub split_bracketed :
    Option (Bytes × Bytes) → Result UpstreamParseError (Bytes × Option Bytes)
unfolding port_after
split_bracketed none = err bad_host_port
split_bracketed (some (host, after)) = do port ← port_after after; ok (host, port)

unfoldable pub split_plain : Bytes → Option (Bytes × Bytes) → Bytes × Option Bytes
split_plain s none = (s, none)
split_plain s (some (host, port)) = (host, some port)

-- The host and the text of the port, before either is checked.
unfoldable pub split_text : Bytes → Result UpstreamParseError (Bytes × Option Bytes)
unfolding split_bracketed split_plain
split_text [] = ok (split_plain [] (rsplit_once b':' []))
split_text (c ∷ cs) =
    if c == b'['
    then split_bracketed (split_once b']' cs)
    else ok (split_plain (c ∷ cs) (rsplit_once b':' (c ∷ cs)))

abbrev not_zero : Option ℕ → Option ℕ
not_zero none = none
not_zero (some n) = if n == 0 then none else some n

-- `p.parse::<u16>().ok().filter(|p| *p != 0)`, or the default port.
unfoldable pub read_port : Option Bytes → ℕ → Result UpstreamParseError ℕ
read_port none default = ok default
read_port (some p) default = ok_or (not_zero (parse_unsigned (2 ^ 16) p)) bad_host_port

unfoldable pub check_host : Bytes → Result UpstreamParseError Bytes
check_host host =
    if is_empty host || not (all is_host_byte host) then err bad_host_port else ok (lowercase host)

unfoldable pub split_host_port : Bytes → ℕ → Result UpstreamParseError (Bytes × ℕ)
unfolding split_text check_host read_port
split_host_port s default = do
  parts ← split_text s
  host ← check_host parts.0
  port ← read_port parts.1 default
  ok (host, port)

abbrev pub hex_digit : ℕ → Option ℕ
hex_digit c =
    if is_digit c
    then some (c - b'0')
    else if leb b'a' c && leb c b'f'
    then some (c - b'a' + 10)
    else if leb b'A' c && leb c b'F'
    then some (c - b'A' + 10)
    else none

abbrev hex_pair : Option ℕ → Option ℕ → Option ℕ
hex_pair (some h) (some l) = some (h * 16 + l)
hex_pair _ _ = none

-- `u8::from_str_radix` at radix 16 on two bytes: it takes a plus sign in front of a digit.
unfoldable pub hex_byte : ℕ → ℕ → Option ℕ
hex_byte h l = if h == b'+' then hex_digit l else hex_pair (hex_digit h) (hex_digit l)

abbrev pub push_byte : Option ℕ → Option Bytes → Option Bytes
push_byte (some b) (some out) = some (b ∷ out)
push_byte _ _ = none

-- The loop of `percent_decode`: a `%` wants two more bytes.
unfoldable pub decode_bytes : Bytes → Option Bytes
unfolding hex_byte
decode_bytes [] = some []
decode_bytes (c ∷ []) = if c == b'%' then none else some (c ∷ [])
decode_bytes (c ∷ d ∷ []) = if c == b'%' then none else push_byte (some c) (decode_bytes (d ∷ []))
decode_bytes (c ∷ h ∷ l ∷ s) = elim (c == b'%') [
  | true ↦ push_byte (hex_byte h l) (decode_bytes s)
  | false ↦ push_byte (some c) (decode_bytes (h ∷ l ∷ s))
]

abbrev if_utf8 : Option Bytes → Option Bytes
if_utf8 none = none
if_utf8 (some out) = if is_utf8 out then some out else none

unfoldable pub percent_decode : Bytes → Option Bytes
unfolding decode_bytes
percent_decode s = if_utf8 (decode_bytes s)
