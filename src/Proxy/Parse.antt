-- ===== src/Proxy/Parse.antt =====
-- proxy/upstream.rs: `ProxyUpstream::parse`, the checks of the login, and `Display`. The base64
-- encoder is a parameter of `basic_auth`.
use browserserve.Common.{
  Bool, false, ◌||◌, Option, none, some, [], ◌∷◌, ◌++◌, length, is_empty, any, ltb, if◌then◌else◌,
}
use browserserve.Common.Result.{Result, ok, err, ok_or, ◌>>=◌}
use browserserve.Common.Text.{Bytes, codes, contains, split_once, rsplit_once, trim}
use browserserve.Common.Decimal.{decimal}
use browserserve.Common.Utf8.{has_control}
use browserserve.Proxy.Upstream.{
  ProxyScheme, http, https, socks5, as_str, default_port, LoginFault, bad_escape, empty_username,
  control_character, username_colon, too_long, UpstreamParseError, bad_scheme, has_path, bad_login,
  ProxyUpstream, read_scheme, drop_slash, is_path_byte, split_host_port, percent_decode,
}

abbrev pub is_some_and : (Bytes → Bool) → Option Bytes → Bool
is_some_and p none = false
is_some_and p (some s) = p s

abbrev pub is_long : Bytes → Bool
is_long s = ltb 255 (length s)

-- The last test of `validate_login`, by scheme.
abbrev pub scheme_fault : ProxyScheme → Bytes → Option Bytes → Option LoginFault
scheme_fault socks5 user pass =
    if is_long user || is_some_and is_long pass then some too_long else none
scheme_fault http user pass = if contains b':' user then some username_colon else none
scheme_fault https user pass = if contains b':' user then some username_colon else none

-- The first fault that `validate_login` reports.
unfoldable pub login_fault : ProxyScheme → Option Bytes → Option Bytes → Option LoginFault
login_fault scheme none pass = none
login_fault scheme (some user) pass =
    if is_empty user
    then some empty_username
    else if has_control user || is_some_and has_control pass
    then some control_character
    else scheme_fault scheme user pass

abbrev fault_error : Option LoginFault → Result UpstreamParseError (Unit {0})
fault_error none = ok tt
fault_error (some f) = err (bad_login f)

unfoldable pub validate_login :
    ProxyScheme → Option Bytes → Option Bytes → Result UpstreamParseError (Unit {0})
unfolding login_fault
validate_login scheme user pass = fault_error (login_fault scheme user pass)

abbrev pub decode_part : Bytes → Result UpstreamParseError Bytes
decode_part s = ok_or (percent_decode s) (bad_login bad_escape)

abbrev pub with_password : Bytes → Bytes → Result UpstreamParseError (Option Bytes × Option Bytes)
with_password u p = do user ← decode_part u; pass ← decode_part p; ok (some user, some pass)

abbrev pub without_password : Bytes → Result UpstreamParseError (Option Bytes × Option Bytes)
without_password u = do user ← decode_part u; ok (some user, none)

unfoldable pub read_login : Option Bytes → Result UpstreamParseError (Option Bytes × Option Bytes)
read_login none = ok (none, none)
read_login (some login) = elim (split_once b':' login) [
  | none ↦ without_password login
  | some (u, p) ↦ with_password u p
]

-- `rest.rfind('@')`: the login and what follows it.
abbrev pub split_login : Bytes → Option (Bytes × Bytes) → Option Bytes × Bytes
split_login rest none = (none, rest)
split_login rest (some (login, hostport)) = (some login, hostport)

-- The address, then the login and its checks.
unfoldable pub parse_parts :
    ProxyScheme → Option Bytes × Bytes → Result UpstreamParseError ProxyUpstream
unfolding validate_login read_login
parse_parts scheme parts = do
  address ← split_host_port parts.1 (default_port scheme)
  login ← read_login parts.0
  valid ← validate_login scheme login.0 login.1
  ok (record {
    scheme = scheme;
    host = address.0;
    port = address.1;
    username = login.0;
    password = login.1;
  })

-- What follows the scheme, with its closing slash taken off.
unfoldable pub parse_rest : ProxyScheme → Bytes → Result UpstreamParseError ProxyUpstream
unfolding parse_parts
parse_rest scheme rest =
    if any is_path_byte rest
    then err has_path
    else parse_parts scheme (split_login rest (rsplit_once b'@' rest))

unfoldable pub parse : Bytes → Result UpstreamParseError ProxyUpstream
unfolding parse_rest read_scheme drop_slash
parse raw = do
  found ← ok_or (read_scheme (trim raw)) bad_scheme
  parse_rest found.0 (drop_slash found.1)

-- `Display`: the login never shows.
unfoldable pub display : ProxyUpstream → Bytes
display u =
    if contains b':' u.host
    then as_str u.scheme ++ (codes "://[" ++ (u.host ++ (codes "]:" ++ decimal u.port)))
    else as_str u.scheme ++ (codes "://" ++ (u.host ++ (codes ":" ++ decimal u.port)))

abbrev pub text_or_empty : Option Bytes → Bytes
text_or_empty none = []
text_or_empty (some s) = s

-- The `Basic` credentials, over the base64 encoder.
unfoldable pub basic_auth : (Bytes → Bytes) → ProxyUpstream → Option Bytes
basic_auth encode u = elim (u.username) [
  | none ↦ none
  | some user ↦ some (codes "Basic " ++ encode (user ++ (b':' ∷ text_or_empty u.password)))
]
