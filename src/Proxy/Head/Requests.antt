-- ===== src/Proxy/Head/Requests.antt =====
-- `parse_request`: the requests that it accepts.
use browserserve.Common.{
  ℕ, ◌^◌, ◌<◌, Bool, true, false, ◌||◌, Option, none, some, [], ◌∷◌, take, drop, is_empty, ◌==◌,
  if◌then◌else◌, ◌≡◌, refl, subst, arith, inl, inr, Bool-cases, Option-cases,
}
use browserserve.Common.Text.{Bytes, codes, eq_ignore_case, contains}
use browserserve.Common.Result.{Result, ok, ok_or, ◌>>=◌, >>=-eq-ok, ok_or-eq-ok, and_then}
use browserserve.Common.Decimal.{parse_unsigned, parse_unsigned-lt}
use browserserve.Proxy.Head.{
  Headers, Request, connect, forward, RequestError, bad_connect_target, bad_target, malformed,
  Parsed, cut_authority, authority_port, split_authority, cut_path, origin, forward_target, route,
  parse_request,
}

-- A host and a port that a connection can be made to.
pub record IsTarget (host : Bytes) (port : ℕ) : Type 0 where
  pub not_empty : is_empty host ≡ false
  pub port_pos : 0 < port
  pub port_u16 : port < 2 ^ 16

abbrev pub starts_with : ℕ → Bytes → Bool
starts_with c [] = false
starts_with c (x ∷ xs) = x == c

-- A forwarded request has an absolute target with the scheme `http`, and its path starts with a
-- slash.
abbrev pub IsRouted : Request → Type 0
IsRouted (connect host port) = IsTarget host port
IsRouted (forward f) =
    IsTarget f.host f.port
    × (eq_ignore_case (take 7 f.absolute) (codes "http://") ≡ true)
    × (starts_with b'/' f.origin_form ≡ true)

ok_inj : (a b : Request) → Path (Result RequestError Request) (ok a) (ok b) → a ≡ b
ok_inj a b h = cc

and_then-eq-some :
    {A B : Type 0} (m : Option A) (f : A → Option B) (b : B)
    → and_then m f ≡ some b
    → (a : A) × (m ≡ some a) × (f a ≡ some b)
and_then-eq-some none f b h = cc
and_then-eq-some (some a) f b h = (a, refl, h)

authority_port-bounds :
    (text : Option Bytes) (default : Option ℕ) (port : ℕ)
    → ((d : ℕ) → default ≡ some d → (0 < d) × (d < 2 ^ 16))
    → authority_port text default ≡ some port
    → (0 < port) × (port < 2 ^ 16)
unfolding authority_port
authority_port-bounds none default port usual h = usual port h
authority_port-bounds (some p) default port usual h =
    elim (Option-cases (parse_unsigned (2 ^ 16) p)) [
      | inl missing ↦ absurd (ground arith)
      | inr (n, here) ↦ ground (arith, parse_unsigned-lt (2 ^ 16) n p (omega arith) here)
    ]

not_empty-IsTarget :
    (host : Bytes) (port : ℕ) (found : Bytes × ℕ)
    → (0 < port) × (port < 2 ^ 16)
    → (if is_empty host then none else some (host, port)) ≡ some found
    → IsTarget found.0 found.1
not_empty-IsTarget [] port found bounds h = absurd (ground arith)
not_empty-IsTarget (c ∷ cs) port found bounds h =
    subst {A = Bytes × ℕ} (λ t. IsTarget t.0 t.1) (ground arith) there
  where
    there : IsTarget (c ∷ cs) port
    there = record { not_empty = refl; port_pos = bounds.0; port_u16 = bounds.1 }

split_authority-IsTarget :
    (s : Bytes) (default : Option ℕ) (found : Bytes × ℕ)
    → ((d : ℕ) → default ≡ some d → (0 < d) × (d < 2 ^ 16))
    → split_authority s default ≡ some found
    → IsTarget found.0 found.1
unfolding split_authority
split_authority-IsTarget s default found usual h =
    elim (Bool-cases (contains b'@' s || is_empty s)) [
      | inl bad ↦ absurd (ground arith)
      | inr fine ↦
          let parts =
            and_then-eq-some (cut_authority s)
              (λ parts.
                and_then (authority_port parts.1 default)
                  (λ port. if is_empty parts.0 then none else some (parts.0, port)))
              found (rw fine at h) in
          let port =
            and_then-eq-some (authority_port (parts.0).1 default)
              (λ port. if is_empty (parts.0).0 then none else some ((parts.0).0, port)) found
              parts.2 in
          not_empty-IsTarget (parts.0).0 port.0 found
            (authority_port-bounds (parts.0).1 default port.0 usual port.1) port.2
    ]

origin-slash : (s : Bytes) → starts_with b'/' (origin (cut_path s).1) ≡ true
unfolding cut_path
origin-slash [] = refl
origin-slash (c ∷ cs) = ground (arith, origin-slash cs)

no_default : (d : ℕ) → none ≡ some d → (0 < d) × (d < 2 ^ 16)
no_default d h = absurd (ground arith)

port_80 : (d : ℕ) → some 80 ≡ some d → (0 < d) × (d < 2 ^ 16)
port_80 d h = ground arith

connect-IsRouted :
    (target : Bytes) (r : Request)
    → (ok_or (split_authority target none) bad_connect_target >>= λ a. ok (connect a.0 a.1)) ≡ ok r
    → IsRouted r
connect-IsRouted target r h =
    let step =
      >>=-eq-ok (ok_or (split_authority target none) bad_connect_target) (λ a. ok (connect a.0 a.1))
        r h in
    subst IsRouted (ok_inj _ r step.2) (
      split_authority-IsTarget target none step.0 no_default
        (ok_or-eq-ok (split_authority target none) bad_connect_target step.0 step.1))

forward-IsRouted :
    (method target : Bytes) (headers : Headers) (r : Request)
    → eq_ignore_case (take 7 target) (codes "http://") ≡ true
    → forward_target method target headers ≡ ok r
    → IsRouted r
unfolding forward_target
forward-IsRouted method target headers r scheme h =
    let authority = (cut_path (drop 7 target)).0 in
    let step = >>=-eq-ok (ok_or (split_authority authority (some 80)) bad_target) _ r h in
    subst IsRouted (ok_inj _ r step.2) (
      split_authority-IsTarget authority (some 80) step.0 port_80
          (ok_or-eq-ok (split_authority authority (some 80)) bad_target step.0 step.1),
      scheme,
      origin-slash (drop 7 target),
    )

route-IsRouted :
    (method target : Bytes) (headers : Headers) (r : Request)
    → route method target headers ≡ ok r
    → IsRouted r
unfolding route
route-IsRouted method target headers r h =
    elim (Bool-cases (eq_ignore_case method (codes "CONNECT"))) [
      | inl tunnel ↦ connect-IsRouted target r (rw tunnel at h)
      | inr other ↦ elim (Bool-cases (eq_ignore_case (take 7 target) (codes "http://"))) [
        | inl scheme ↦ forward-IsRouted method target headers r scheme (ground arith)
        | inr other_scheme ↦ absurd (ground arith)
      ]
    ]

-- A request that `parse_request` accepts names a host that is not empty and a port from 1 to
-- 65535. A forwarded one has an absolute target that starts with `http://` in any case, and a path
-- for the origin that starts with a slash; so a request in origin form is never forwarded.
pub parse_request-IsRouted :
    (parse : Bytes → Option Parsed) (head : Bytes) (r : Request)
    → parse_request parse head ≡ ok r
    → IsRouted r
unfolding parse_request
parse_request-IsRouted parse head r h =
    let parsed = >>=-eq-ok (ok_or (parse head) malformed) _ r h in
    let method = >>=-eq-ok (ok_or (parsed.0).method malformed) _ r parsed.2 in
    let target = >>=-eq-ok (ok_or (parsed.0).path malformed) _ r method.2 in
    route-IsRouted method.0 target.0 (parsed.0).headers r target.2
