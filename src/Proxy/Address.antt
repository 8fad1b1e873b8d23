-- ===== src/Proxy/Address.antt =====
-- proxy/address.rs: addresses that an upstream proxy must not have. `host.parse::<IpAddr>()` and
-- the name lookup are parameters of `resolve_allowed`.
use browserserve.Common.{
  ℕ, ◌*◌, ◌/◌, ◌%◌, ◌^◌, Bool, not, ◌&&◌, ◌||◌, Option, none, some, List, [], ◌∷◌, retain, ltb, leb,
  ◌==◌, if◌then◌else◌,
}
use browserserve.Common.Result.{Result, ok, err, ok_or, ◌>>=◌}
use browserserve.Common.Text.{Bytes}

pub record Ipv4 : Type 0 where
  pub a : ℕ
  pub b : ℕ
  pub c : ℕ
  pub d : ℕ

-- The eight 16-bit segments.
pub record Ipv6 : Type 0 where
  pub s0 : ℕ
  pub s1 : ℕ
  pub s2 : ℕ
  pub s3 : ℕ
  pub s4 : ℕ
  pub s5 : ℕ
  pub s6 : ℕ
  pub s7 : ℕ

pub data IpAddr : Type 0 where
  v4 : Ipv4 → IpAddr
  v6 : Ipv6 → IpAddr

-- The tests of `std::net` that the source calls.
unfoldable pub is_unspecified_v4 : Ipv4 → Bool
is_unspecified_v4 ip = ip.a == 0 && (ip.b == 0 && (ip.c == 0 && ip.d == 0))

unfoldable pub is_loopback_v4 : Ipv4 → Bool
is_loopback_v4 ip = ip.a == 127

unfoldable pub is_private_v4 : Ipv4 → Bool
is_private_v4 ip =
    ip.a == 10 || ((ip.a == 172 && (leb 16 ip.b && leb ip.b 31)) || (ip.a == 192 && ip.b == 168))

unfoldable pub is_link_local_v4 : Ipv4 → Bool
is_link_local_v4 ip = ip.a == 169 && ip.b == 254

unfoldable pub is_multicast_v4 : Ipv4 → Bool
is_multicast_v4 ip = leb 224 ip.a && leb ip.a 239

unfoldable pub is_broadcast_v4 : Ipv4 → Bool
is_broadcast_v4 ip = ip.a == 255 && (ip.b == 255 && (ip.c == 255 && ip.d == 255))

unfoldable pub blocked_v4 : Ipv4 → Bool
unfolding is_unspecified_v4 is_loopback_v4 is_private_v4 is_link_local_v4 is_multicast_v4
    is_broadcast_v4
blocked_v4 ip =
    is_unspecified_v4 ip
    || (is_loopback_v4 ip
        || (is_private_v4 ip
            || (is_link_local_v4 ip
                || (is_multicast_v4 ip
                    || (is_broadcast_v4 ip
                        || (ip.a == 0
                            || (leb 240 ip.a
                                || ((ip.a == 100 && (leb 64 ip.b && ltb ip.b 128))
                                    || ((ip.a == 192 && (ip.b == 0 && ip.c == 0))
                                        || ((ip.a == 192 && (ip.b == 0 && ip.c == 2))
                                            || ((ip.a == 198 && (ip.b == 18 || ip.b == 19))
                                                || ((ip.a == 198 && (ip.b == 51 && ip.c == 100))
                                                    || (ip.a == 203
                                                        && (ip.b == 0 && ip.c == 113))))))))))))))

abbrev pub first_six : Ipv6 → ℕ → Bool
first_six ip last =
    ip.s0 == 0 && (ip.s1 == 0 && (ip.s2 == 0 && (ip.s3 == 0 && (ip.s4 == 0 && ip.s5 == last))))

unfoldable pub is_unspecified_v6 : Ipv6 → Bool
is_unspecified_v6 ip = first_six ip 0 && (ip.s6 == 0 && ip.s7 == 0)

unfoldable pub is_loopback_v6 : Ipv6 → Bool
is_loopback_v6 ip = first_six ip 0 && (ip.s6 == 0 && ip.s7 == 1)

unfoldable pub is_multicast_v6 : Ipv6 → Bool
is_multicast_v6 ip = ip.s0 / 256 == 0xff

-- The last four octets.
abbrev pub low_v4 : Ipv6 → Ipv4
low_v4 ip = record { a = ip.s6 / 256; b = ip.s6 % 256; c = ip.s7 / 256; d = ip.s7 % 256 }

-- `x & (0xffff << k)` for a 16-bit x.
abbrev pub mask_high : ℕ → ℕ → ℕ
mask_high x k = x / 2 ^ k * 2 ^ k

-- The tests behind the IPv4 forms.
unfoldable pub blocked_plain_v6 : Ipv6 → Bool
unfolding is_unspecified_v6 is_loopback_v6 is_multicast_v6
blocked_plain_v6 ip =
    is_unspecified_v6 ip
    || (is_loopback_v6 ip
        || (is_multicast_v6 ip
            || (mask_high ip.s0 9 == 0xfc00
                || (mask_high ip.s0 6 == 0xfe80
                    || (mask_high ip.s0 6 == 0xfec0 || (ip.s0 == 0x2001 && ip.s1 == 0x0db8))))))

unfoldable pub blocked_v6 : Ipv6 → Bool
unfolding is_unspecified_v6 is_loopback_v6 blocked_v4 blocked_plain_v6
blocked_v6 ip =
    let compatible = first_six ip 0 && (not (is_unspecified_v6 ip) && not (is_loopback_v6 ip)) in
    let nat64 = ip.s0 == 0x64 && ip.s1 == 0xff9b in
    if first_six ip 0xffff
    then blocked_v4 (low_v4 ip)
    else if compatible || nat64
    then blocked_v4 (low_v4 ip)
    else blocked_plain_v6 ip

unfoldable pub is_blocked_ip : IpAddr → Bool
is_blocked_ip (v4 ip) = blocked_v4 ip
is_blocked_ip (v6 ip) = blocked_v6 ip

pub record SocketAddr : Type 0 where
  pub ip : IpAddr
  pub port : ℕ

pub data AddressError : Type 0 where
  does_not_resolve private_network : AddressError

abbrev pub is_allowed : Bool → SocketAddr → Bool
is_allowed allow_private addr = allow_private || not (is_blocked_ip addr.ip)

abbrev pub not_none_left : List SocketAddr → Result AddressError (List SocketAddr)
not_none_left [] = err private_network
not_none_left (x ∷ xs) = ok (x ∷ xs)

-- A literal address is used as it is; a name is looked up once.
unfoldable pub candidates :
    (Bytes → Option IpAddr)
    → (Bytes → ℕ → Option (List SocketAddr))
    → Bytes
    → ℕ
    → Result AddressError (List SocketAddr)
candidates parse_ip lookup_host host port = elim (parse_ip host) [
  | some ip ↦ ok (record { ip = ip; port = port } ∷ [])
  | none ↦ ok_or (lookup_host host port) does_not_resolve
]

unfoldable pub resolve_allowed :
    (Bytes → Option IpAddr)
    → (Bytes → ℕ → Option (List SocketAddr))
    → Bytes
    → ℕ
    → Bool
    → Result AddressError (List SocketAddr)
unfolding candidates
resolve_allowed parse_ip lookup_host host port allow_private = do
  addrs ← candidates parse_ip lookup_host host port
  not_none_left (retain (is_allowed allow_private) addrs)
