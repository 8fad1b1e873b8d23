-- ===== src/Proxy/Head/Examples.antt =====
-- Heads on concrete bytes, with a search for the first occurrence.
use browserserve.Common.{
  ℕ, zero, suc, ◌+◌, ◌≤◌, true, false, Option, none, some, List, [], ◌∷◌, ◌++◌, length, take, drop,
  map, ◌≡◌, refl, arith, if◌then◌else◌, subst, Bool-cases, inl, inr,
}
use browserserve.Common.Text.{
  Bytes, codes, eq_ignore_case, strip_prefix, rsplit_once, lowercase, trim, trim_start, trim_end,
}
use browserserve.Common.Result.{ok}
use browserserve.Proxy.Head.{
  Head, Read, bytes, got, read_head, find_head_end, Headers, Request, forward, Parsed,
  parse_request, route, forward_target, split_authority, cut_authority, authority_port, cut_path,
  hop_by_hop, named_by_connection, split_commas, tokens, rewrite_request,
}
use browserserve.Proxy.Head.Reading.{
  FindLaws, is_here, none_before, all_bytes, IsHeadOf, read_head-IsHeadOf,
}
use browserserve.Proxy.Head.Requests.{IsRouted, parse_request-IsRouted}
use browserserve.Proxy.Head.OneHop.{forwarded}
use browserserve.Proxy.Head.Rewriting.{
  line_of, auth_lines, request_line, read_lines, read_lines-rewrite_request,
}

abbrev plus_one : Option ℕ → Option ℕ
plus_one none = none
plus_one (some i) = some (suc i)

unfoldable find_first : Bytes → Bytes → Option ℕ
find_first [] needle = if is_here needle [] then some 0 else none
find_first (c ∷ hay) needle =
    if is_here needle (c ∷ hay) then some 0 else plus_one (find_first hay needle)

strip_prefix-found :
    (needle hay : Bytes)
    → is_here needle hay ≡ true
    → (length needle ≤ length hay) × (take (length needle) hay ≡ needle)
unfolding strip_prefix
strip_prefix-found [] hay h = (omega arith, refl)
strip_prefix-found (p ∷ ps) [] h = absurd (ground arith)
strip_prefix-found (p ∷ ps) (c ∷ cs) h = ground (arith, strip_prefix-found ps cs)

abbrev IsAt : Bytes → Bytes → ℕ → Type 0
IsAt hay needle i =
    (i + length needle ≤ length hay)
    × (take (length needle) (drop i hay) ≡ needle)
    × (none_before i needle hay ≡ true)

some_inj : (a b : ℕ) → some a ≡ some b → a ≡ b
some_inj a b h = ground arith

IsAt-zero :
    (hay needle : Bytes) (i : ℕ) → is_here needle hay ≡ true → some 0 ≡ some i → IsAt hay needle i
IsAt-zero hay needle i hit h =
    let there = strip_prefix-found needle hay hit in
    subst (IsAt hay needle) (some_inj 0 i h) (omega (arith, there.0), there.1, refl)

IsAt-plus_one :
    (c : ℕ) (hay needle : Bytes) (i : ℕ) (o : Option ℕ)
    → ((j : ℕ) → o ≡ some j → IsAt hay needle j)
    → is_here needle (c ∷ hay) ≡ false
    → plus_one o ≡ some i
    → IsAt (c ∷ hay) needle i
IsAt-plus_one c hay needle i none f m h = absurd (ground arith)
IsAt-plus_one c hay needle zero (some j) f m h = absurd (ground arith)
IsAt-plus_one c hay needle (suc i) (some j) f m h =
    let there = f i (ground arith) in (omega (arith, there.0), there.1, rw m there.2)

find_first-found : (hay needle : Bytes) (i : ℕ) → find_first hay needle ≡ some i → IsAt hay needle i
unfolding find_first
find_first-found [] needle i h = elim (Bool-cases (is_here needle [])) [
  | inl hit ↦ IsAt-zero [] needle i hit (rw hit at h)
  | inr miss ↦ absurd (ground arith)
]
find_first-found (c ∷ hay) needle i h = elim (Bool-cases (is_here needle (c ∷ hay))) [
  | inl hit ↦ IsAt-zero (c ∷ hay) needle i hit (rw hit at h)
  | inr miss ↦
      IsAt-plus_one c hay needle i (find_first hay needle) (find_first-found hay needle) miss
        (rw miss at h)
]

find_first-FindLaws : FindLaws find_first
find_first-FindLaws = record { found = find_first-found }

abbrev reads : List Read
reads = bytes (codes "a" ++ (13 ∷ 10 ∷ [])) ∷ bytes (13 ∷ 10 ∷ codes "xy") ∷ bytes (codes "z") ∷ []

abbrev read : Head
read = record { head = codes "a" ++ (13 ∷ 10 ∷ 13 ∷ 10 ∷ []); rest = codes "xy" }

read_head-reads : read_head find_first [] reads ≡ got read
unfolding read_head find_head_end find_first strip_prefix
read_head-reads = refl

read_head-IsHeadOf_example :
    (later : Bytes) × (seen : Bytes) × (seen ++ later ≡ all_bytes reads)
    × IsHeadOf find_first find_first-FindLaws read seen
read_head-IsHeadOf_example =
    read_head-IsHeadOf find_first find_first-FindLaws [] reads read (omega arith)
      (omega arith, (omega arith, (omega arith, tt))) read_head-reads

-- A request that names one more header of one hop.
abbrev headers : Headers
headers =
    (codes "Host", codes "a.com")
    ∷ (codes "Connection", codes "close, X-Id")
    ∷ (codes "x-id", codes "7")
    ∷ (codes "Proxy-Authorization", codes "Basic eA==")
    ∷ []

abbrev parse : Bytes → Option Parsed
parse head = some (record {
  method = some (codes "GET");
  path = some (codes "HTTP://a.com?q");
  headers = headers;
})

abbrev routed : Request
routed = forward (record {
  host = codes "a.com";
  port = 80;
  method = codes "GET";
  absolute = codes "HTTP://a.com?q";
  origin_form = codes "/?q";
  headers = headers;
})

parse_request-routed : parse_request parse [] ≡ ok routed
unfolding parse_request route forward_target split_authority cut_authority authority_port cut_path
    eq_ignore_case strip_prefix rsplit_once
parse_request-routed = refl

parse_request-IsRouted_example : IsRouted routed
parse_request-IsRouted_example = parse_request-IsRouted parse [] routed parse_request-routed

forwarded-headers : forwarded (λ s. s) headers ≡ (codes "Host", codes "a.com") ∷ []
unfolding hop_by_hop named_by_connection split_commas tokens lowercase trim trim_start trim_end
    eq_ignore_case
forwarded-headers = refl

read_lines-rewrite_request_example :
    let through = forwarded (λ s. s) headers in
    read_lines
      (length through + 4)
      (rewrite_request (λ s. s) (codes "GET") (codes "/?q") headers (some (codes "Basic eQ==")))
    ≡ some (
      request_line (codes "GET") (codes "/?q")
          ∷ (map line_of through
              ++ (auth_lines (some (codes "Basic eQ==")) ++ (codes "Connection: close" ∷ []))),
      [],
    )
read_lines-rewrite_request_example =
    read_lines-rewrite_request (λ s. s) (codes "GET") (codes "/?q") headers
      (some (codes "Basic eQ==")) refl refl
      (refl, refl, (refl, refl, (refl, refl, (refl, refl, tt)))) refl
