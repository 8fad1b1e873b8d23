-- ===== src/Server/Credentials.antt =====
-- What a request must present.
use browserserve.Common.{
  ℕ, Bool, true, false, ◌||◌, Option, none, some, [], ◌∷◌, ◌++◌, any, ◌==◌, ◌≡◌, refl, ap, sym, ◌⊎◌,
  inl, inr, arith,
}
use browserserve.Common.Text.{Bytes, codes, lowercase, split_once, strip_prefix, trim, contains}
use browserserve.Common.Split.{rsplit_once-append}
use browserserve.Server.Auth.{
  candidate, matches, authorized, after_scheme, before, origin_host, is_local,
  tokenless_origin_allowed,
}

-- A request presents the token: as its query parameter, or, without one, behind `Bearer ` in its
-- header.
abbrev pub Presents : Bytes → Option Bytes → Option Bytes → Type 0
Presents token query header =
    (query ≡ some token)
    ⊎ ((query ≡ none) × ((t : Bytes) × (header ≡ some (codes "Bearer " ++ t)) × (trim t ≡ token)))

strip_prefix-append : (p s r : Bytes) → strip_prefix p s ≡ some r → s ≡ p ++ r
unfolding strip_prefix
strip_prefix-append [] s r h = ground arith
strip_prefix-append (c ∷ p) [] r h = absurd (ground arith)
strip_prefix-append (c ∷ p) (d ∷ s) r h = ground (arith, strip_prefix-append p s r)

matches-Presents :
    (ct_eq : Bytes → Bytes → Bool) (token : Bytes) (query header : Option Bytes)
    → ((a b : Bytes) → ct_eq a b ≡ true → a ≡ b)
    → matches ct_eq token (candidate query header) ≡ true
    → Presents token query header
matches-Presents ct_eq token (some t) header law h = inl (ap some (sym (law token t h)))
matches-Presents ct_eq token none none law h = absurd (ground arith)
matches-Presents ct_eq token none (some value) law h =
    within (strip_prefix (codes "Bearer ") value) refl h
  where
    within :
        (o : Option Bytes)
        → strip_prefix (codes "Bearer ") value ≡ o
        → matches ct_eq token (elim o [ none ↦ none | some t ↦ some (trim t) ]) ≡ true
        → Presents token none (some value)
    within none e k = absurd (ground arith)
    within (some t) e k = inr (
      refl,
      (t, ap some (strip_prefix-append (codes "Bearer ") value t e), sym (law token (trim t) k)),
    )

-- When a token is configured, an authorized request presents that token.
pub authorized-Presents :
    (ct_eq : Bytes → Bytes → Bool) (token : Bytes) (query header : Option Bytes)
    → ((a b : Bytes) → ct_eq a b ≡ true → a ≡ b)
    → authorized ct_eq (some token) query header ≡ true
    → Presents token query header
unfolding authorized
authorized-Presents ct_eq token query header law h = matches-Presents ct_eq token query header law h

after_scheme-append :
    (scheme rest : Bytes)
    → contains b':' scheme ≡ false
    → after_scheme (scheme ++ (codes "://" ++ rest)) ≡ some rest
unfolding after_scheme strip_prefix
after_scheme-append [] rest h = refl
after_scheme-append (c ∷ cs) rest h = rw (no_head h) (after_scheme-append cs rest (ground arith))
  where
    no_head : contains b':' (c ∷ cs) ≡ false → (c == b':') ≡ false
    no_head k = ground arith

any-append : (p : ℕ → Bool) (a b : Bytes) → any p (a ++ b) ≡ (any p a || any p b)
any-append p [] b = refl
any-append p (x ∷ a) b = ground (arith, any-append p a b)

split_once-none : (c : ℕ) (s : Bytes) → contains c s ≡ false → split_once c s ≡ none
unfolding split_once
split_once-none c [] h = refl
split_once-none c (x ∷ s) h = ground (arith, split_once-none c s)

origin_host-port :
    (c : ℕ) (host port : Bytes)
    → (c == b'[') ≡ false
    → contains b':' port ≡ false
    → origin_host ((c ∷ host) ++ (b':' ∷ port)) ≡ c ∷ host
unfolding origin_host strip_prefix
origin_host-port c host port hc hp = rw (hc, rsplit_once-append b':' (c ∷ host) port hp) refl

before-slash :
    (host port : Bytes)
    → contains b'/' host ≡ false
    → contains b'/' port ≡ false
    → before b'/' (host ++ (b':' ∷ port)) ≡ host ++ (b':' ∷ port)
before-slash host port h k = rw (split_once-none b'/' (host ++ (b':' ∷ port)) no_slash) refl
  where
    no_slash : contains b'/' (host ++ (b':' ∷ port)) ≡ false
    no_slash = rw (any-append (λ x. x == b'/') host (b':' ∷ port), h) k

-- Without a token, a page reaches the server exactly when the host of its origin, in lower case, is
-- local: the origin has a scheme without a colon, a host without a slash and without a bracket in
-- front, and a port without a colon or a slash.
tokenless_origin_allowed-origin :
    (is_loopback_ip : Bytes → Bool) (scheme host port : Bytes) (c : ℕ)
    → contains b':' scheme ≡ false
    → (c == b'[') ≡ false
    → contains b'/' (c ∷ host) ≡ false
    → contains b':' port ≡ false
    → contains b'/' port ≡ false
    → tokenless_origin_allowed is_loopback_ip
        (some (scheme ++ (codes "://" ++ ((c ∷ host) ++ (b':' ∷ port)))))
      ≡ is_local is_loopback_ip (lowercase (c ∷ host))
unfolding tokenless_origin_allowed
tokenless_origin_allowed-origin is_loopback_ip scheme host port c hs hc hh hp hq =
    rw
      (
        after_scheme-append scheme ((c ∷ host) ++ (b':' ∷ port)) hs,
        before-slash (c ∷ host) port hh hq,
        origin_host-port c host port hc hp,
      )
      refl
