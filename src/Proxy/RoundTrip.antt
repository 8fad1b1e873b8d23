-- ===== src/Proxy/RoundTrip.antt =====
-- proxy/upstream.rs: `Display` of a proxy address, and `parse` of it.
use browserserve.Common.{
  ℕ, ◌^◌, ◌<◌, Bool, true, false, ◌||◌, none, some, [], ◌∷◌, ◌++◌, is_empty, any, all, ◌==◌,
  if◌then◌else◌, ◌≡◌, refl, ap, arith, inl, inr, Bool-cases,
}
use browserserve.Common.Result.{ok, ◌>>=◌}
use browserserve.Common.Text.{Bytes, codes, is_digit, is_space, contains}
use browserserve.Common.Decimal.{decimal, parse_unsigned-decimal}
use browserserve.Common.Split.{
  all-append, all_weaken, any_none, trim_id, split_once-append, rsplit_once-none,
  rsplit_once-append, all-decimal,
}
use browserserve.Proxy.Upstream.{
  ProxyScheme, ProxyUpstream, default_port, as_str, http, https, socks5, read_scheme, drop_slash,
  is_path_byte, is_host_byte, split_host_port, split_text, check_host, read_port,
}
use browserserve.Proxy.Parse.{parse_parts, parse_rest, parse, display}
use browserserve.Proxy.Usable.{IsAddress, parse-IsUsable}

-- The part of `display` behind the scheme.
abbrev shown : Bytes → ℕ → Bytes
shown host port =
    if contains b':' host
    then b'[' ∷ (host ++ (b']' ∷ b':' ∷ decimal port))
    else host ++ (b':' ∷ decimal port)

-- The bytes of an address: those of a host, and brackets.
abbrev is_shown_byte : ℕ → Bool
is_shown_byte c = is_host_byte c || (c == b'[' || c == b']')

all-shown :
    (host : Bytes) (port : ℕ)
    → all is_host_byte host ≡ true
    → all is_shown_byte (shown host port) ≡ true
all-shown host port h =
    let digits =
      all_weaken is_digit is_shown_byte (decimal port) (λ c e. ground arith) (all-decimal port) in
    let bytes = all_weaken is_host_byte is_shown_byte host (λ c e. ground arith) h in
    elim (Bool-cases (contains b':' host)) [
      | inl colon ↦
          rw colon (all-append is_shown_byte host (b']' ∷ b':' ∷ decimal port) bytes (ground arith))
      | inr none_there ↦
          rw none_there (all-append is_shown_byte host (b':' ∷ decimal port) bytes (ground arith))
    ]

display-shown :
    (u : ProxyUpstream) → display u ≡ as_str u.scheme ++ (codes "://" ++ shown u.host u.port)
unfolding display
display-shown u = ground arith

read_scheme-shown :
    (scheme : ProxyScheme) (s : Bytes)
    → read_scheme (as_str scheme ++ (codes "://" ++ s)) ≡ some (scheme, s)
unfolding read_scheme
read_scheme-shown http s = refl
read_scheme-shown https s = refl
read_scheme-shown socks5 s = refl

drop_slash_id : (s : Bytes) → any is_path_byte s ≡ false → drop_slash s ≡ s
unfolding drop_slash
drop_slash_id [] h = refl
drop_slash_id (c ∷ []) h = ground arith
drop_slash_id (c ∷ d ∷ cs) h = ap (◌∷◌ c) (drop_slash_id (d ∷ cs) (ground arith))

split_text-plain :
    (host rest : Bytes)
    → is_empty host ≡ false
    → all is_host_byte host ≡ true
    → contains b':' rest ≡ false
    → split_text (host ++ (b':' ∷ rest)) ≡ ok (host, some rest)
unfolding split_text
split_text-plain [] rest h k digits = cc
split_text-plain (c ∷ cs) rest h k digits =
    ground (arith, rsplit_once-append b':' (c ∷ cs) rest digits)

split_text-bracketed :
    (host rest : Bytes)
    → all is_host_byte host ≡ true
    → split_text (b'[' ∷ (host ++ (b']' ∷ b':' ∷ rest))) ≡ ok (host, some rest)
unfolding split_text
split_text-bracketed host rest h = ground (
  arith,
  split_once-append b']' host (b':' ∷ rest)
      (any_none is_host_byte (λ x. x == b']') host (λ c e. ground arith) h),
)

split_text-shown :
    (host : Bytes) (port : ℕ)
    → IsAddress host port
    → split_text (shown host port) ≡ ok (host, some (decimal port))
split_text-shown host port a = elim (Bool-cases (contains b':' host)) [
  | inl colon ↦ rw colon (split_text-bracketed host (decimal port) a.host_bytes)
  | inr no_colon ↦ rw no_colon (
      split_text-plain host (decimal port) a.not_empty a.host_bytes (
        any_none is_digit (λ x. x == b':') (decimal port) (λ c e. ground arith) (all-decimal port)))
]

check_host-IsAddress : (host : Bytes) (port : ℕ) → IsAddress host port → check_host host ≡ ok host
unfolding check_host
check_host-IsAddress host port a = ground arith

read_port-decimal :
    (port default : ℕ)
    → 0 < port
    → port < 2 ^ 16
    → read_port (some (decimal port)) default ≡ ok port
unfolding read_port
read_port-decimal port default h k =
    ground (arith, parse_unsigned-decimal (2 ^ 16) port k (omega arith))

split_host_port-shown :
    (host : Bytes) (port default : ℕ)
    → IsAddress host port
    → split_host_port (shown host port) default ≡ ok (host, port)
unfolding split_host_port
split_host_port-shown host port default a =
    rw
      (
        split_text-shown host port a,
        ◌>>=◌,
        check_host-IsAddress host port a,
        read_port-decimal port default a.port_pos a.port_u16,
      )
      refl

-- Parsing what `display` shows gives the same scheme, host and port, with no login: `display`
-- never shows one.
parse-display :
    (u : ProxyUpstream)
    → IsAddress u.host u.port
    → parse (display u) ≡ ok (record u { username = none; password = none })
unfolding parse
parse-display u a =
    rw
      (
        display-shown u,
        trim_id (as_str u.scheme ++ (codes "://" ++ shown u.host u.port)) (no_spaces u.scheme),
        read_scheme-shown u.scheme (shown u.host u.port),
        drop_slash_id (shown u.host u.port) no_path,
      )
      (unfold parse_rest in
        rw (no_path, rsplit_once-none b'@' (shown u.host u.port) no_at) shown_parts)
  where
    bytes : all is_shown_byte (shown u.host u.port) ≡ true
    bytes = all-shown u.host u.port a.host_bytes

    no_path : any is_path_byte (shown u.host u.port) ≡ false
    no_path = any_none is_shown_byte is_path_byte (shown u.host u.port) (λ c e. ground arith) bytes

    no_at : contains b'@' (shown u.host u.port) ≡ false
    no_at =
        any_none is_shown_byte (λ x. x == b'@') (shown u.host u.port) (λ c e. ground arith) bytes

    no_spaces :
        (scheme : ProxyScheme)
        → any is_space (as_str scheme ++ (codes "://" ++ shown u.host u.port)) ≡ false
    no_spaces http =
        any_none is_shown_byte is_space (shown u.host u.port) (λ c e. ground arith) bytes
    no_spaces https =
        any_none is_shown_byte is_space (shown u.host u.port) (λ c e. ground arith) bytes
    no_spaces socks5 =
        any_none is_shown_byte is_space (shown u.host u.port) (λ c e. ground arith) bytes

    shown_parts :
        parse_parts u.scheme (none, shown u.host u.port)
        ≡ ok (record u { username = none; password = none })
    shown_parts =
        unfold parse_parts in
        rw (split_host_port-shown u.host u.port (default_port u.scheme) a) refl

-- So whatever `parse` accepts is shown by `display` as an address that `parse` reads back as the
-- same proxy without its login.
parse-display-parse :
    (raw : Bytes) (u : ProxyUpstream)
    → parse raw ≡ ok u
    → parse (display u) ≡ ok (record u { username = none; password = none })
parse-display-parse raw u e = parse-display u (parse-IsUsable raw u e).address
