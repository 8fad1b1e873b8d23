-- ===== src/Proxy/Examples.antt =====
-- Concrete proxy addresses.
use browserserve.Common.{
  ℕ, false, none, some, Option, List, [], ◌∷◌, is_empty, any, ◌≡◌, refl, arith,
}
use browserserve.Common.Result.{ok}
use browserserve.Common.Text.{
  Bytes, codes, lowercase, eq_ignore_case, split_once, rsplit_once, trim, trim_start, trim_end,
}
use browserserve.Common.Decimal.{parse_unsigned, parse_digits}
use browserserve.Common.Utf8.{is_utf8, utf8_from, continuation, has_control}
use browserserve.Proxy.Upstream.{
  socks5, ProxyUpstream, strip_prefix_ci, read_scheme, drop_slash, split_host_port, split_text,
  split_bracketed, port_after, check_host, read_port, percent_decode, decode_bytes, hex_byte,
}
use browserserve.Proxy.Parse.{
  parse, parse_rest, parse_parts, validate_login, login_fault, read_login,
}
use browserserve.Proxy.Usable.{IsUsable, parse-IsUsable}
use browserserve.Proxy.Address.{
  Ipv4, v4, blocked_v4, is_blocked_ip, SocketAddr, resolve_allowed, candidates,
}
use browserserve.Proxy.Blocked.{
  IsIpv4, value, in_network, blocked_networks, AllAllowed, blocked_v4-networks,
  resolve_allowed-AllAllowed,
}

abbrev raw : Bytes
raw = codes " SOCKS5://me:p%40ss@[2001:DB8::1]:9050/"

abbrev upstream : ProxyUpstream
upstream = record {
  scheme = socks5;
  host = codes "2001:db8::1";
  port = 9050;
  username = some (codes "me");
  password = some (codes "p@ss");
}

parse-raw : parse raw ≡ ok upstream
unfolding parse parse_rest parse_parts validate_login login_fault read_login read_scheme drop_slash
    split_host_port split_text split_bracketed port_after check_host read_port percent_decode
    decode_bytes hex_byte strip_prefix_ci eq_ignore_case trim trim_start trim_end split_once
    rsplit_once lowercase parse_unsigned parse_digits is_utf8 utf8_from continuation has_control
parse-raw = refl

parse-IsUsable_example : IsUsable upstream
parse-IsUsable_example = parse-IsUsable raw upstream parse-raw

-- An escape with a plus sign, and a port with one, are read.
percent_decode-plus : percent_decode (codes "a%+5b") ≡ some (97 ∷ 5 ∷ 98 ∷ [])
unfolding percent_decode decode_bytes hex_byte is_utf8 utf8_from continuation
percent_decode-plus = refl

read_port-plus : read_port (some (codes "+80")) 443 ≡ ok 80
unfolding read_port parse_unsigned parse_digits
read_port-plus = refl

abbrev home : Ipv4
home = record { a = 172; b = 31; c = 0; d = 9 }

home-IsIpv4 : IsIpv4 home
home-IsIpv4 = record {
  byte_a = omega arith;
  byte_b = omega arith;
  byte_c = omega arith;
  byte_d = omega arith;
}

blocked_v4-networks_example : blocked_v4 home ≡ any (in_network (value home)) blocked_networks
blocked_v4-networks_example = blocked_v4-networks home home-IsIpv4

abbrev public : SocketAddr
public = record { ip = v4 (record { a = 8; b = 8; c = 4; d = 4 }); port = 80 }

abbrev found : Bytes → ℕ → Option (List SocketAddr)
found host port = some (record { ip = v4 home; port = port } ∷ public ∷ [])

resolve_allowed-found :
    resolve_allowed (λ host. none) found (codes "a.com") 80 false ≡ ok (public ∷ [])
unfolding resolve_allowed candidates is_blocked_ip blocked_v4
resolve_allowed-found = refl

resolve_allowed-AllAllowed_example : AllAllowed (public ∷ []) × (is_empty (public ∷ []) ≡ false)
resolve_allowed-AllAllowed_example =
    resolve_allowed-AllAllowed (λ host. none) found (codes "a.com") 80 (public ∷ [])
      resolve_allowed-found
