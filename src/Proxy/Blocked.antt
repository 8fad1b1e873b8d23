-- ===== src/Proxy/Blocked.antt =====
-- The blocked addresses as networks, and what `resolve_allowed` lets through.
use browserserve.Common.{
  ℕ, ◌+◌, ◌*◌, ◌/◌, ◌%◌, ◌^◌, ◌≤◌, ◌<◌, Bool, true, false, not, ◌&&◌, ◌||◌, Option, List, [], ◌∷◌,
  is_empty, any, all, retain, ltb, leb, ◌==◌, ◌≡◌, refl, ap, sym, subst, ◌∙◌, arith,
}
use browserserve.Common.Result.{ok, >>=-eq-ok}
use browserserve.Common.Text.{Bytes}
use browserserve.Proxy.Address.{
  Ipv4, Ipv6, IpAddr, blocked_v4, blocked_v6, is_blocked_ip, low_v4, SocketAddr, not_none_left,
  is_allowed, candidates, resolve_allowed,
}

pub record IsIpv4 (ip : Ipv4) : Type 0 where
  pub byte_a : ip.a < 256
  pub byte_b : ip.b < 256
  pub byte_c : ip.c < 256
  pub byte_d : ip.d < 256

-- The address as a 32-bit number.
abbrev pub value : Ipv4 → ℕ
value ip = ((ip.a * 256 + ip.b) * 256 + ip.c) * 256 + ip.d

abbrev pub address : ℕ → ℕ → ℕ → ℕ → ℕ
address a b c d = ((a * 256 + b) * 256 + c) * 256 + d

-- A network by its first address and the number of its host bits.
abbrev pub in_network : ℕ → ℕ × ℕ → Bool
in_network n (first, bits) = n / 2 ^ bits == first / 2 ^ bits

-- "This" network, private, shared (carrier-grade NAT), loopback, link local, protocol assignments,
-- documentation, benchmarking, and all from 224.0.0.0 on (multicast, reserved, broadcast).
abbrev pub blocked_networks : List (ℕ × ℕ)
blocked_networks =
    (address 0 0 0 0, 24)
    ∷ (address 10 0 0 0, 24)
    ∷ (address 100 64 0 0, 22)
    ∷ (address 127 0 0 0, 24)
    ∷ (address 169 254 0 0, 16)
    ∷ (address 172 16 0 0, 20)
    ∷ (address 192 0 0 0, 8)
    ∷ (address 192 0 2 0, 8)
    ∷ (address 192 168 0 0, 16)
    ∷ (address 198 18 0 0, 17)
    ∷ (address 198 51 100 0, 8)
    ∷ (address 203 0 113 0, 8)
    ∷ (address 224 0 0 0, 29)
    ∷ []

module _ (ip : Ipv4) (h : IsIpv4 ip) where
  first_octet : (x : ℕ) → in_network (value ip) (address x 0 0 0, 24) ≡ (ip.a == x)
  first_octet x = ground arith

  first_two :
      (x y : ℕ) → y < 256 → in_network (value ip) (address x y 0 0, 16) ≡ (ip.a == x && ip.b == y)
  first_two x y k = ground arith

  first_three :
      (x y z : ℕ)
      → y < 256
      → z < 256
      → in_network (value ip) (address x y z 0, 8) ≡ (ip.a == x && (ip.b == y && ip.c == z))
  first_three x y z k l = ground arith

  shared :
      in_network (value ip) (address 100 64 0 0, 22)
      ≡ (ip.a == 100 && (leb 64 ip.b && ltb ip.b 128))
  shared = ground arith

  private_twelve :
      in_network (value ip) (address 172 16 0 0, 20) ≡ (ip.a == 172 && (leb 16 ip.b && leb ip.b 31))
  private_twelve = ground arith

  benchmarks :
      in_network (value ip) (address 198 18 0 0, 17) ≡ (ip.a == 198 && (ip.b == 18 || ip.b == 19))
  benchmarks = ground arith

  above : in_network (value ip) (address 224 0 0 0, 29) ≡ leb 224 ip.a
  above = ground arith

or-cong : {a b c d : Bool} → a ≡ b → c ≡ d → (a || c) ≡ (b || d)
or-cong p q = cc

-- The source's tests in the order of the networks; the last three make up one network.
reorder :
    (u lo ten p172 p192 ll mc bc z hi sh d1 d2 be d3 d4 top : Bool)
    → (u || z) ≡ z
    → (mc || (bc || hi)) ≡ top
    → (u
        || (lo
            || ((ten || (p172 || p192))
                || (ll
                    || (mc || (bc || (z || (hi || (sh || (d1 || (d2 || (be || (d3 || d4)))))))))))))
      ≡ (z
          || (ten
              || (sh
                  || (lo
                      || (ll
                          || (p172
                              || (d1
                                  || (d2 || (p192 || (be || (d3 || (d4 || (top || false)))))))))))))
reorder u lo ten p172 p192 ll mc bc z hi sh d1 d2 be d3 d4 top e f = ground arith

-- An IPv4 address is blocked exactly when it lies in one of the blocked networks.
pub blocked_v4-networks :
    (ip : Ipv4) → IsIpv4 ip → blocked_v4 ip ≡ any (in_network (value ip)) blocked_networks
unfolding blocked_v4
blocked_v4-networks ip h =
    reorder (ip.a == 0 && (ip.b == 0 && (ip.c == 0 && ip.d == 0))) (ip.a == 127) (ip.a == 10)
      (ip.a == 172 && (leb 16 ip.b && leb ip.b 31)) (ip.a == 192 && ip.b == 168)
      (ip.a == 169 && ip.b == 254) (leb 224 ip.a && leb ip.a 239)
      (ip.a == 255 && (ip.b == 255 && (ip.c == 255 && ip.d == 255))) (ip.a == 0) (leb 240 ip.a)
      (ip.a == 100 && (leb 64 ip.b && ltb ip.b 128)) (ip.a == 192 && (ip.b == 0 && ip.c == 0))
      (ip.a == 192 && (ip.b == 0 && ip.c == 2)) (ip.a == 198 && (ip.b == 18 || ip.b == 19))
      (ip.a == 198 && (ip.b == 51 && ip.c == 100)) (ip.a == 203 && (ip.b == 0 && ip.c == 113))
      (leb 224 ip.a) (ground arith) (ground arith)
    ∙ sym (
        or-cong (first_octet ip h 0) (
          or-cong (first_octet ip h 10) (
            or-cong (shared ip h) (
              or-cong (first_octet ip h 127) (
                or-cong (first_two ip h 169 254 (omega arith)) (
                  or-cong (private_twelve ip h) (
                    or-cong (first_three ip h 192 0 0 (omega arith) (omega arith)) (
                      or-cong (first_three ip h 192 0 2 (omega arith) (omega arith)) (
                        or-cong (first_two ip h 192 168 (omega arith)) (
                          or-cong (benchmarks ip h) (
                            or-cong (first_three ip h 198 51 100 (omega arith) (omega arith)) (
                              or-cong (first_three ip h 203 0 113 (omega arith) (omega arith))
                                (or-cong (above ip h) refl)))))))))))))

-- The IPv6 addresses that carry an IPv4 address: mapped, compatible, and NAT64.
abbrev pub carry : ℕ → ℕ → ℕ → Ipv4 → Ipv6
carry first second sixth ip = record {
  s0 = first;
  s1 = second;
  s2 = 0;
  s3 = 0;
  s4 = 0;
  s5 = sixth;
  s6 = ip.a * 256 + ip.b;
  s7 = ip.c * 256 + ip.d;
}

low_v4-carry : (f s x : ℕ) (ip : Ipv4) → IsIpv4 ip → low_v4 (carry f s x ip) ≡ ip
low_v4-carry f s x ip h = rw (high, low, third, fourth) refl
  where
    high : (ip.a * 256 + ip.b) / 256 ≡ ip.a
    high = omega arith

    low : (ip.a * 256 + ip.b) % 256 ≡ ip.b
    low = omega arith

    third : (ip.c * 256 + ip.d) / 256 ≡ ip.c
    third = omega arith

    fourth : (ip.c * 256 + ip.d) % 256 ≡ ip.d
    fourth = omega arith

not_small :
    (ip : Ipv4)
    → 1 < value ip
    → (n : ℕ) → n ≤ 1
    → (ip.a * 256 + ip.b == 0 && ip.c * 256 + ip.d == n) ≡ false
not_small ip k n l = ground arith

-- An IPv4 address is blocked in each of its IPv6 forms exactly when it is blocked by itself:
-- mapped, NAT64, and compatible, the last from the address 0.0.0.2 on.
blocked_v6-carry :
    (ip : Ipv4)
    → IsIpv4 ip
    → 1 < value ip
    → (blocked_v6 (carry 0 0 0xffff ip) ≡ blocked_v4 ip)
      × (blocked_v6 (carry 0x64 0xff9b 0 ip) ≡ blocked_v4 ip)
      × (blocked_v6 (carry 0 0 0 ip) ≡ blocked_v4 ip)
unfolding blocked_v6
blocked_v6-carry ip h k = (
  ap blocked_v4 (low_v4-carry 0 0 0xffff ip h),
  ap blocked_v4 (low_v4-carry 0x64 0xff9b 0 ip h),
  compatible_lem,
)
  where
    compatible_lem : blocked_v6 (carry 0 0 0 ip) ≡ blocked_v4 ip
    compatible_lem =
        rw (not_small ip k 0 (omega arith), not_small ip k 1 (omega arith))
          (ap blocked_v4 (low_v4-carry 0 0 0 ip h))

not_none_left-eq-ok :
    (xs ys : List SocketAddr) → not_none_left xs ≡ ok ys → (xs ≡ ys) × (is_empty ys ≡ false)
not_none_left-eq-ok [] ys h = absurd (ground arith)
not_none_left-eq-ok (x ∷ xs) ys h = ground arith

abbrev pub AllAllowed : List SocketAddr → Type 0
AllAllowed xs = all (λ addr. not (is_blocked_ip addr.ip)) xs ≡ true

retain-all {ℓ} : {A : Type ℓ} (p : A → Bool) (xs : List A) → all p (retain p xs) ≡ true
retain-all p [] = refl
retain-all p (x ∷ xs) = ground (arith, retain-all p xs)

-- When private addresses are not allowed, the addresses that `resolve_allowed` returns are one or
-- more, and none of them is blocked.
pub resolve_allowed-AllAllowed :
    (parse_ip : Bytes → Option IpAddr) (lookup_host : Bytes → ℕ → Option (List SocketAddr))
    (host : Bytes) (port : ℕ) (addrs : List SocketAddr)
    → resolve_allowed parse_ip lookup_host host port false ≡ ok addrs
    → AllAllowed addrs × (is_empty addrs ≡ false)
unfolding resolve_allowed
resolve_allowed-AllAllowed parse_ip lookup_host host port addrs h =
    let step =
      >>=-eq-ok (candidates parse_ip lookup_host host port)
        (λ xs. not_none_left (retain (is_allowed false) xs)) addrs h in
    let kept = not_none_left-eq-ok (retain (is_allowed false) (step.0)) addrs step.2 in
    (subst AllAllowed kept.0 (retain-all (is_allowed false) step.0), kept.1)
