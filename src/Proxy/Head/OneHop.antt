-- ===== src/Proxy/Head/OneHop.antt =====
-- proxy/head.rs: which headers are of one hop.
use browserserve.Common.{
  ℕ, Bool, not, ◌&&◌, ◌||◌, List, [], ◌∷◌, ◌++◌, is_empty, any, retain, ◌≡◌, refl, ap, ◌∙◌, arith,
  inl, inr, Bool-cases,
}
use browserserve.Common.Text.{Bytes, codes, eq_ignore_case, lowercase, to_lower, trim}
use browserserve.Proxy.Head.{
  Headers, split_commas, tokens, named_by_connection, is_dropped, hop_by_hop,
}

pub any-append : {A : Type 0} (p : A → Bool) (a b : List A) → any p (a ++ b) ≡ (any p a || any p b)
any-append p [] b = refl
any-append p (x ∷ a) b = ground (arith, any-append p a b)

-- Headers that are meant for the next hop alone, whatever a `Connection` header says (RFC 9110, 7.6.1,
-- and the login for a proxy).
abbrev pub hop_headers : List Bytes
hop_headers =
    codes "connection"
    ∷ codes "keep-alive"
    ∷ codes "proxy-authorization"
    ∷ codes "proxy-authenticate"
    ∷ codes "proxy-connection"
    ∷ codes "te"
    ∷ codes "trailer"
    ∷ codes "upgrade"
    ∷ []

-- An option of the comma-separated list names the header.
abbrev pub is_option : Bytes → Bytes → Bool
is_option name option = not (is_empty (trim option)) && eq_ignore_case name (trim option)

-- The header is one of these, or a `Connection` header of the request names it; case does not count.
abbrev pub is_of_one_hop : (Bytes → Bytes) → Headers → Bytes → Bool
is_of_one_hop lossy headers name =
    any (eq_ignore_case name) hop_headers
    || any
        (λ h.
          eq_ignore_case h.0 (codes "connection")
          && any (is_option name) (split_commas (lossy h.1)))
        headers

to_lower_twice : (c : ℕ) → to_lower (to_lower c) ≡ to_lower c
to_lower_twice c = ground arith

eq_ignore_case-lowercase : (a b : Bytes) → eq_ignore_case a (lowercase b) ≡ eq_ignore_case a b
unfolding eq_ignore_case lowercase
eq_ignore_case-lowercase [] [] = refl
eq_ignore_case-lowercase [] (y ∷ b) = refl
eq_ignore_case-lowercase (x ∷ a) [] = refl
eq_ignore_case-lowercase (x ∷ a) (y ∷ b) = rw (to_lower_twice y, eq_ignore_case-lowercase a b) refl

is_empty-lowercase : (s : Bytes) → is_empty (lowercase s) ≡ is_empty s
unfolding lowercase
is_empty-lowercase [] = refl
is_empty-lowercase (c ∷ s) = refl

any-tokens :
    (name : Bytes) (options : List Bytes)
    → any (eq_ignore_case name) (tokens options) ≡ any (is_option name) options
unfolding tokens
any-tokens name [] = refl
any-tokens name (t ∷ ts) = elim (Bool-cases (is_empty (trim t))) [
  | inl blank ↦ rw (is_empty-lowercase (trim t), blank) (any-tokens name ts)
  | inr word ↦
      rw (is_empty-lowercase (trim t), word, eq_ignore_case-lowercase name (trim t))
        (ap (λ b. eq_ignore_case name (trim t) || b) (any-tokens name ts))
]

any-named_by_connection :
    (lossy : Bytes → Bytes) (name : Bytes) (headers : Headers)
    → any (eq_ignore_case name) (named_by_connection lossy headers)
      ≡ any
          (λ h.
            eq_ignore_case h.0 (codes "connection")
            && any (is_option name) (split_commas (lossy h.1)))
          headers
unfolding named_by_connection
any-named_by_connection lossy name [] = refl
any-named_by_connection lossy name ((key, value) ∷ headers) =
    elim (Bool-cases (eq_ignore_case key (codes "connection"))) [
      | inr other ↦ rw other (any-named_by_connection lossy name headers)
      | inl here ↦ rw here (
          any-append (eq_ignore_case name) (tokens (split_commas (lossy value)))
            (named_by_connection lossy headers)
          ∙ rw (any-tokens name (split_commas (lossy value))) (
              ap (λ b. any (is_option name) (split_commas (lossy value)) || b)
                (any-named_by_connection lossy name headers)))
    ]

pub is_dropped-is_of_one_hop :
    (lossy : Bytes → Bytes) (headers : Headers) (name : Bytes)
    → is_dropped (hop_by_hop lossy headers) name ≡ is_of_one_hop lossy headers name
unfolding hop_by_hop
is_dropped-is_of_one_hop lossy headers name =
    any-append (eq_ignore_case name) hop_headers (named_by_connection lossy headers)
    ∙ ap (λ b. any (eq_ignore_case name) hop_headers || b)
        (any-named_by_connection lossy name headers)

-- The headers that go further than one hop.
abbrev pub forwarded : (Bytes → Bytes) → Headers → Headers
forwarded lossy headers = retain (λ h. not (is_of_one_hop lossy headers h.0)) headers
