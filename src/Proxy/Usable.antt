-- ===== src/Proxy/Usable.antt =====
-- What every parsed proxy address satisfies.
use browserserve.Common.{
  ℕ, ◌^◌, ◌<◌, true, false, Option, none, some, [], ◌∷◌, is_empty, all, ◌≡◌, refl, arith, inl, inr,
  Option-cases,
}
use browserserve.Common.Result.{ok, ok_or, >>=-eq-ok}
use browserserve.Common.Text.{Bytes, lowercase, rsplit_once, trim}
use browserserve.Common.Decimal.{parse_unsigned, parse_unsigned-lt}
use browserserve.Common.Split.{lowercase_twice}
use browserserve.Proxy.Upstream.{
  ProxyScheme, ProxyUpstream, default_port, http, https, socks5, read_scheme, drop_slash,
  is_host_byte, split_host_port, split_text, check_host, read_port,
}
use browserserve.Proxy.Parse.{
  login_fault, validate_login, read_login, split_login, parse_parts, parse_rest, parse,
}

-- A host and port that `display` can show and `parse` can read.
pub record IsAddress (host : Bytes) (port : ℕ) : Type 0 where
  pub not_empty : is_empty host ≡ false
  pub host_bytes : all is_host_byte host ≡ true
  pub is_lowercase : lowercase host ≡ host
  pub port_pos : 0 < port
  pub port_u16 : port < 2 ^ 16

lowercase-host : (s : Bytes) → all is_host_byte s ≡ true → all is_host_byte (lowercase s) ≡ true
unfolding lowercase
lowercase-host [] h = refl
lowercase-host (c ∷ cs) h = ground (arith, lowercase-host cs)

is_empty-lowercase : (s : Bytes) → is_empty (lowercase s) ≡ is_empty s
unfolding lowercase
is_empty-lowercase [] = refl
is_empty-lowercase (c ∷ cs) = refl

check_host-ok :
    (host h : Bytes)
    → check_host host ≡ ok h
    → (is_empty h ≡ false) × (all is_host_byte h ≡ true) × (lowercase h ≡ h)
unfolding check_host
check_host-ok host h e =
    ground (arith, lowercase-host host, is_empty-lowercase host, lowercase_twice host)

read_port-ok :
    (p : Option Bytes) (scheme : ProxyScheme) (n : ℕ)
    → read_port p (default_port scheme) ≡ ok n
    → (0 < n) × (n < 2 ^ 16)
unfolding read_port
read_port-ok none http n e = ground arith
read_port-ok none https n e = ground arith
read_port-ok none socks5 n e = ground arith
read_port-ok (some s) scheme n e = elim (Option-cases (parse_unsigned (2 ^ 16) s)) [
  | inl missing ↦ ground arith
  | inr (m, found) ↦ ground (arith, parse_unsigned-lt (2 ^ 16) m s (omega arith) found)
]

-- The address and login of a proxy that the relay can use: host and port as above, and a login
-- without any of the faults that `validate_login` knows.
pub record IsUsable (u : ProxyUpstream) : Type 0 where
  pub address : IsAddress u.host u.port
  pub login : login_fault u.scheme u.username u.password ≡ none

split_host_port-IsAddress :
    (s host : Bytes) (scheme : ProxyScheme) (port : ℕ)
    → split_host_port s (default_port scheme) ≡ ok (host, port)
    → IsAddress host port
unfolding split_host_port
split_host_port-IsAddress s host scheme port e =
    let (parts, _, e1) = >>=-eq-ok (split_text s) _ _ e in
    let (h, checked, e2) = >>=-eq-ok (check_host parts.0) _ _ e1 in
    let (n, read, e3) = >>=-eq-ok (read_port parts.1 (default_port scheme)) _ _ e2 in
    let good = check_host-ok parts.0 h checked in
    let range = read_port-ok parts.1 scheme n read in ground arith

fault_error-none :
    (scheme : ProxyScheme) (user pass : Option Bytes) (t : Unit {0})
    → validate_login scheme user pass ≡ ok t
    → login_fault scheme user pass ≡ none
unfolding validate_login
fault_error-none scheme user pass t e = ground arith

parse_parts-IsUsable :
    (scheme : ProxyScheme) (parts : Option Bytes × Bytes) (u : ProxyUpstream)
    → parse_parts scheme parts ≡ ok u
    → IsUsable u
unfolding parse_parts
parse_parts-IsUsable scheme parts u e =
    let ((host, port), split, e1) =
      >>=-eq-ok (split_host_port parts.1 (default_port scheme)) _ _ e in
    let (login, _, e2) = >>=-eq-ok (read_login parts.0) _ _ e1 in
    let (valid, checked, e3) = >>=-eq-ok (validate_login scheme login.0 login.1) _ _ e2 in
    let address = split_host_port-IsAddress parts.1 host scheme port split in
    let faultless = fault_error-none scheme login.0 login.1 valid checked in ground arith

parse_rest-IsUsable :
    (scheme : ProxyScheme) (rest : Bytes) (u : ProxyUpstream)
    → parse_rest scheme rest ≡ ok u
    → IsUsable u
unfolding parse_rest
parse_rest-IsUsable scheme rest u e =
    ground (arith, parse_parts-IsUsable scheme (split_login rest (rsplit_once b'@' rest)) u)

-- Whatever `parse` accepts is usable: the host is not empty, in lower case and of host bytes, the
-- port is from 1 to 65535, and the login passes every check of `validate_login`.
pub parse-IsUsable : (raw : Bytes) (u : ProxyUpstream) → parse raw ≡ ok u → IsUsable u
unfolding parse
parse-IsUsable raw u e =
    let (found, _, rest) = >>=-eq-ok (ok_or (read_scheme (trim raw)) _) _ _ e in
    parse_rest-IsUsable found.0 (drop_slash found.1) u rest
