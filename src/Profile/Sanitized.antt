-- ===== src/Profile/Sanitized.antt =====
-- The cookies that `sanitize` lets through, and its counts.
use browserserve.Common.{
  ℕ, ◌+◌, ◌^◌, ◌<◌, Bool, true, false, not, ◌&&◌, ◌||◌, Option, none, some, ltb, ◌==◌, is_empty,
  if◌then◌else◌, Bool-cases, Option-cases, refl, List, [], ◌∷◌, ◌++◌, length, leb, map, retain, ◌≡◌,
  sym, subst, ◌∙◌, ap, arith, length-append, append_nil, append_assoc, ◌⊎◌, inl, inr,
}
use browserserve.Common.Result.{ok, err}
use browserserve.Common.Text.{Bytes, codes, equal, strip_prefix}
use browserserve.Profile.Cookie.{
  name_allows, SameSite, strict, lax, unrestricted, Cookie, CookieParam, DropCounts, DropReason,
  insecure_cross_site, past_expiry, opaque_key, bad_prefix, too_big, total, count_drop,
  is_unrestricted, prefix_ok, is_session, as_param, to_param, add_cookie, sanitize_from, sanitize,
  no_drops, max_cookie_bytes,
}

-- The sum of the counts.
abbrev sum : DropCounts → ℕ
sum d = d.same_site_none_insecure + d.expired + d.opaque_partition + d.invalid_prefix + d.oversized

sum-count_drop :
    (d : DropCounts) (r : DropReason) → sum d + 1 < 2 ^ 32 → sum (count_drop d r) ≡ sum d + 1
unfolding count_drop
sum-count_drop d insecure_cross_site h = omega arith
sum-count_drop d past_expiry h = omega arith
sum-count_drop d opaque_key h = omega arith
sum-count_drop d bad_prefix h = omega arith
sum-count_drop d too_big h = omega arith

total-sum : (d : DropCounts) → sum d < 2 ^ 32 → total d ≡ sum d
unfolding total
total-sum d h = omega arith

abbrev pub begins_with : Bytes → Bytes → Bool
begins_with p s = elim (strip_prefix p s) [ none ↦ false | some rest ↦ true ]

some_injective : {A : Type 0} (a b : A) → some a ≡ some b → a ≡ b
some_injective a b h = cc

strip_prefix-length :
    (p s rest : Bytes) → strip_prefix p s ≡ some rest → length s ≡ length p + length rest
unfolding strip_prefix
strip_prefix-length [] s rest h = omega (arith, ap length (some_injective s rest h))
strip_prefix-length (c ∷ p) [] rest h = absurd (ground (arith, h))
strip_prefix-length (c ∷ p) (d ∷ s) rest h = elim (Bool-cases (d == c)) [
  | inl same ↦ omega (arith, strip_prefix-length p s rest (rw same at h))
  | inr other ↦ absurd (ground (arith, rw other at h))
]

goes_on :
    (p s rest : Bytes)
    → strip_prefix p s ≡ some rest
    → not (is_empty rest) ≡ ltb (length p) (length s)
goes_on p s [] h = ground (arith, strip_prefix-length p s [] h)
goes_on p s (c ∷ rest) h = ground (arith, strip_prefix-length p s (c ∷ rest) h)

-- A name that begins with `__Host-` or `__Secure-` goes on behind it and asks for a secure cookie; the
-- former also for the path `/` and for a domain without a dot in front.
abbrev pub name_is_allowed : Bytes → Bool → Bytes → Bytes → Bool
name_is_allowed name secure path domain =
    if begins_with (codes "__Host-") name
    then ltb 7 (length name)
      && (secure && (equal path (codes "/") && not (begins_with (codes ".") domain)))
    else if begins_with (codes "__Secure-") name
    then ltb 9 (length name) && secure
    else true

name_allows-name_is_allowed :
    (name path domain : Bytes) (secure : Bool)
    → name_allows name secure path domain ≡ name_is_allowed name secure path domain
unfolding name_allows
name_allows-name_is_allowed name path domain secure =
    elim (Option-cases (strip_prefix (codes "__Host-") name)) [
      | inr (rest, host) ↦ rw (host, goes_on _ name rest host) refl
      | inl free ↦ elim (Option-cases (strip_prefix (codes "__Secure-") name)) [
        | inr (rest, safe) ↦ rw (free, safe, goes_on _ name rest safe) refl
        | inl other ↦ rw (free, other) refl
      ]
    ]

-- `SameSite=None`
abbrev pub is_sent_across : Option SameSite → Bool
is_sent_across (some unrestricted) = true
is_sent_across _ = false

is_unrestricted-is_sent_across : (o : Option SameSite) → is_unrestricted o ≡ is_sent_across o
is_unrestricted-is_sent_across none = refl
is_unrestricted-is_sent_across (some strict) = refl
is_unrestricted-is_sent_across (some lax) = refl
is_unrestricted-is_sent_across (some unrestricted) = refl

module _ {F : Type 0} (zero_f : F) (less : F → F → Bool) where
  -- Every attribute of the cookie can be set again: its key is not opaque, it is secure if it is
  -- sent across sites, it has not expired, its name allows its attributes, and it is not too long.
  abbrev pub is_reproducible : F → Cookie F → Bool
  is_reproducible now c =
      not c.partition_key_opaque
      && ((c.secure || not (is_sent_across c.same_site))
          && ((less c.expires zero_f || not (less c.expires now))
              && (name_is_allowed c.name c.secure c.path c.domain
                  && leb (length c.name + length c.value) 4096)))

  -- The parameters set every attribute that the cookie has; a time before the epoch is that of a
  -- cookie of the browser session, which has no expiry.
  pub record Restores (c : Cookie F) (p : CookieParam F) : Type 0 where
    pub name_is : p.name ≡ c.name
    pub value_is : p.value ≡ c.value
    pub domain_is : p.domain ≡ c.domain
    pub path_is : p.path ≡ c.path
    pub secure_is : p.secure ≡ c.secure
    pub http_only_is : p.http_only ≡ c.http_only
    pub same_site_is : p.same_site ≡ c.same_site
    pub priority_is : p.priority ≡ c.priority
    pub source_is : (p.source_scheme ≡ c.source_scheme) × (p.source_port ≡ c.source_port)
    pub partition_is : p.partition_key ≡ c.partition_key
    pub expiry :
        ((less c.expires zero_f ≡ true) × (p.expires ≡ none))
        ⊎ ((less c.expires zero_f ≡ false) × (p.expires ≡ some c.expires))

  abbrev pub AllRestored : List (Cookie F) → List (CookieParam F) → Type 0
  AllRestored [] [] = Unit {0}
  AllRestored (c ∷ cs) (p ∷ ps) = Restores c p × AllRestored cs ps
  AllRestored [] (p ∷ ps) = ⊥
  AllRestored (c ∷ cs) [] = ⊥

  as_param-Restores : (c : Cookie F) → Restores c (as_param zero_f less c)
  as_param-Restores c = record {
    name_is = refl;
    value_is = refl;
    domain_is = refl;
    path_is = refl;
    secure_is = refl;
    http_only_is = refl;
    same_site_is = refl;
    priority_is = refl;
    source_is = (refl, refl);
    partition_is = refl;
    expiry = elim (Bool-cases (less c.expires zero_f)) [
      | inl session ↦ inl (session, rw session refl)
      | inr lasting ↦ inr (lasting, rw lasting refl)
    ];
  }

  AllRestored-map : (cs : List (Cookie F)) → AllRestored cs (map (as_param zero_f less) cs)
  AllRestored-map [] = tt
  AllRestored-map (c ∷ cs) = (as_param-Restores c, AllRestored-map cs)

  abbrev kept : F → List (Cookie F) → List (CookieParam F)
  kept now cookies = map (as_param zero_f less) (retain (is_reproducible now) cookies)

  -- The same over the functions of the source.
  abbrev passes : F → Cookie F → Bool
  passes now c =
      not c.partition_key_opaque
      && ((c.secure || not (is_unrestricted c.same_site))
          && ((is_session zero_f less c || not (less c.expires now))
              && (prefix_ok zero_f less c
                  && leb (length c.name + length c.value) max_cookie_bytes)))

  passes-is_reproducible : (now : F) (c : Cookie F) → passes now c ≡ is_reproducible now c
  unfolding prefix_ok
  passes-is_reproducible now c =
      rw
        (
          name_allows-name_is_allowed c.name c.path c.domain c.secure,
          is_unrestricted-is_sent_across c.same_site,
        )
        refl

  to_param-passes :
      (c : Cookie F) (now : F)
      → ((passes now c ≡ true) × (to_param zero_f less c now ≡ ok (as_param zero_f less c)))
        ⊎ ((passes now c ≡ false) × ((r : DropReason) × (to_param zero_f less c now ≡ err r)))
  unfolding to_param
  to_param-passes c now = ground arith

  to_param_lem :
      (c : Cookie F) (now : F)
      → ((is_reproducible now c ≡ true)
          × (to_param zero_f less c now ≡ ok (as_param zero_f less c)))
        ⊎ ((is_reproducible now c ≡ false)
            × ((r : DropReason) × (to_param zero_f less c now ≡ err r)))
  to_param_lem c now =
      subst
        (λ b.
          ((b ≡ true) × (to_param zero_f less c now ≡ ok (as_param zero_f less c)))
          ⊎ ((b ≡ false) × ((r : DropReason) × (to_param zero_f less c now ≡ err r))))
        (passes-is_reproducible now c) (to_param-passes c now)

  sanitize_from-ok :
      (now : F) (c : Cookie F) (cs : List (Cookie F)) (p : CookieParam F)
      (ps : List (CookieParam F)) (d : DropCounts)
      → to_param zero_f less c now ≡ ok p
      → sanitize_from zero_f less now (c ∷ cs) (ps, d)
        ≡ sanitize_from zero_f less now cs (ps ++ (p ∷ []), d)
  unfolding sanitize_from add_cookie
  sanitize_from-ok now c cs p ps d e =
      ap (λ r. sanitize_from zero_f less now cs (add_cookie zero_f less r (ps, d))) e

  sanitize_from-err :
      (now : F) (c : Cookie F) (cs : List (Cookie F)) (r : DropReason) (ps : List (CookieParam F))
      (d : DropCounts)
      → to_param zero_f less c now ≡ err r
      → sanitize_from zero_f less now (c ∷ cs) (ps, d)
        ≡ sanitize_from zero_f less now cs (ps, count_drop d r)
  unfolding sanitize_from add_cookie
  sanitize_from-err now c cs r ps d e =
      ap (λ r. sanitize_from zero_f less now cs (add_cookie zero_f less r (ps, d))) e

  sanitize_from_kept :
      (now : F) (cookies : List (Cookie F)) (ps : List (CookieParam F)) (d : DropCounts)
      → (sanitize_from zero_f less now cookies (ps, d)).0 ≡ ps ++ kept now cookies
  unfolding sanitize_from
  sanitize_from_kept now [] ps d = sym (append_nil ps)
  sanitize_from_kept now (c ∷ cs) ps d = elim (to_param_lem c now) [
    | inl (keep, e) ↦
        rw (sanitize_from-ok now c cs _ ps d e, keep)
          (sanitize_from_kept now cs (ps ++ (as_param zero_f less c ∷ [])) d ∙ append_assoc ps _ _)
    | inr (drop, (r, e)) ↦
        rw (sanitize_from-err now c cs r ps d e, drop)
          (sanitize_from_kept now cs ps (count_drop d r))
  ]

  -- What `sanitize` returns sets the reproducible cookies of the list again, in its order: one for
  -- each of them, with every attribute as it was. Reproducible is a cookie whose partition key is not
  -- opaque, which is secure if it is sent across sites, has not expired, whose name allows its
  -- attributes, and which has 4096 bytes at most.
  pub sanitize_kept :
      (cookies : List (Cookie F)) (now : F)
      → AllRestored (retain (is_reproducible now) cookies) (sanitize zero_f less cookies now).0
  unfolding sanitize
  sanitize_kept cookies now =
      subst (AllRestored (retain (is_reproducible now) cookies))
        (sym (sanitize_from_kept now cookies [] _))
        (AllRestored-map (retain (is_reproducible now) cookies))

  sum-sanitize_from :
      (now : F) (cookies : List (Cookie F)) (ps : List (CookieParam F)) (d : DropCounts)
      → sum d + length cookies < 2 ^ 32
      → let out = sanitize_from zero_f less now cookies (ps, d) in
        sum out.1 + length out.0 ≡ sum d + length ps + length cookies
  unfolding sanitize_from
  sum-sanitize_from now [] ps d h = omega arith
  sum-sanitize_from now (c ∷ cs) ps d h = elim (to_param_lem c now) [
    | inl (keep, e) ↦ rw (sanitize_from-ok now c cs _ ps d e) (
        omega (
          arith,
          sum-sanitize_from now cs (ps ++ (as_param zero_f less c ∷ [])) d,
          length-append ps (as_param zero_f less c ∷ []),
        ))
    | inr (drop, (r, e)) ↦
        rw (sanitize_from-err now c cs r ps d e)
          (omega (arith, sum-sanitize_from now cs ps (count_drop d r), sum-count_drop d r))
  ]

  -- No cookie is lost without a count: the total and the number of the cookies returned make up
  -- the number of the cookies given, if that is below 2^32.
  total-sanitize :
      (cookies : List (Cookie F)) (now : F)
      → length cookies < 2 ^ 32
      → let out = sanitize zero_f less cookies now in total out.1 + length out.0 ≡ length cookies
  unfolding sanitize
  total-sanitize cookies now h =
      let counted = sum-sanitize_from now cookies [] no_drops (omega arith) in
      omega
        (arith, counted, total-sum (sanitize zero_f less cookies now).1 (omega (arith, counted)))
