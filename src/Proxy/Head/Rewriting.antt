-- ===== src/Proxy/Head/Rewriting.antt =====
-- `rewrite_request`: the lines that the next hop reads.
use browserserve.Common.{
  ℕ, zero, suc, ◌+◌, Bool, true, false, not, ◌&&◌, Option, none, some, List, [], ◌∷◌, ◌++◌, length,
  is_empty, map, retain, ◌==◌, if◌then◌else◌, ◌≡◌, refl, ap, sym, ◌∙◌, arith, inl, inr, Bool-cases,
  append_assoc, subst,
}
use browserserve.Common.Text.{Bytes, codes, contains}
use browserserve.Common.Result.{and_then}
use browserserve.Proxy.Head.OneHop.{any-append, is_dropped-is_of_one_hop, forwarded}
use browserserve.Proxy.Head.{
  Headers, crlf, blank_line, is_dropped, hop_by_hop, header_lines, auth_line, rewrite_request,
}

abbrev onto : ℕ → Option (Bytes × Bytes) → Option (Bytes × Bytes)
onto c none = none
onto c (some (line, rest)) = some (c ∷ line, rest)

-- What is in front of the first line break, and behind it.
unfoldable pub split_line : Bytes → Option (Bytes × Bytes)
split_line [] = none
split_line (c ∷ []) = none
split_line (c ∷ d ∷ s) = if c == 13 && d == 10 then some ([], s) else onto c (split_line (d ∷ s))

abbrev pub cons_line : Bytes → List Bytes × Bytes → Option (List Bytes × Bytes)
cons_line l (ls, rest) = some (l ∷ ls, rest)

-- The lines of a head up to its blank line, and what follows, with a round of fuel for each.
unfoldable pub read_lines : ℕ → Bytes → Option (List Bytes × Bytes)
read_lines zero s = none
read_lines (suc f) s = elim (split_line s) [
  | none ↦ none
  | some (line, rest) ↦
      if is_empty line then some ([], rest) else and_then (read_lines f rest) (cons_line line)
]

split_line-append :
    (a b : Bytes) → contains 13 a ≡ false → split_line (a ++ (crlf ++ b)) ≡ some (a, b)
unfolding split_line
split_line-append [] b h = refl
split_line-append (x ∷ []) b h = ground arith
split_line-append (x ∷ y ∷ a) b h = ground (arith, split_line-append (y ∷ a) b)

read_lines-line :
    (f : ℕ) (l rest : Bytes)
    → is_empty l ≡ false
    → contains 13 l ≡ false
    → read_lines (suc f) (l ++ (crlf ++ rest)) ≡ and_then (read_lines f rest) (cons_line l)
unfolding read_lines
read_lines-line f l rest e h = ap after_split (split_line-append l rest h) ∙ rw e refl
  where
    after_split : Option (Bytes × Bytes) → Option (List Bytes × Bytes)
    after_split none = none
    after_split (some (line, r)) =
        if is_empty line then some ([], r) else and_then (read_lines f r) (cons_line line)

is_empty-append : (a : Bytes) (x : ℕ) (b : Bytes) → is_empty (a ++ (x ∷ b)) ≡ false
is_empty-append [] x b = refl
is_empty-append (y ∷ a) x b = refl

-- No carriage return in a name or a value.
abbrev pub AreClean : Headers → Type 0
AreClean [] = Unit {0}
AreClean ((name, value) ∷ headers) =
    (contains 13 name ≡ false) × (contains 13 value ≡ false) × AreClean headers

abbrev pub line_of : Bytes × Bytes → Bytes
line_of (name, value) = name ++ (codes ": " ++ value)

-- The headers that the rewriting keeps.
abbrev kept : List Bytes → Headers → Headers
kept names = retain (λ h. not (is_dropped names h.0))

abbrev append_lines : List Bytes → List Bytes × Bytes → Option (List Bytes × Bytes)
append_lines ls (more, rest) = some (ls ++ more, rest)

line_of-clean :
    (name value : Bytes)
    → contains 13 name ≡ false
    → contains 13 value ≡ false
    → contains 13 (line_of (name, value)) ≡ false
line_of-clean name value h k = rw (any-append (λ x. x == 13) name (codes ": " ++ value), h) k

regroup :
    (name value lines rest : Bytes)
    → (name ++ (codes ": " ++ (value ++ (crlf ++ lines)))) ++ rest
      ≡ line_of (name, value) ++ (crlf ++ (lines ++ rest))
regroup name value lines rest =
    append_assoc name (codes ": " ++ (value ++ (crlf ++ lines))) rest
    ∙ ap (λ z. name ++ (codes ": " ++ z)) (append_assoc value (crlf ++ lines) rest)
    ∙ sym (append_assoc name (codes ": " ++ value) (crlf ++ (lines ++ rest)))

lines_twice :
    (o : Option (List Bytes × Bytes)) (l : Bytes) (ls : List Bytes)
    → and_then (and_then o (append_lines ls)) (cons_line l) ≡ and_then o (append_lines (l ∷ ls))
lines_twice none l ls = refl
lines_twice (some (more, rest)) l ls = refl

no_lines : (o : Option (List Bytes × Bytes)) → o ≡ and_then o (append_lines [])
no_lines none = refl
no_lines (some (more, rest)) = refl

ap2_lines : {a b : ℕ} {s t : Bytes} → a ≡ b → s ≡ t → read_lines a s ≡ read_lines b t
ap2_lines p q = cc

suc_add : (a b : ℕ) → suc a + b ≡ suc (a + b)
suc_add a b = omega arith

read_lines-header_lines :
    (names : List Bytes) (headers : Headers) (f : ℕ) (rest : Bytes)
    → AreClean headers
    → read_lines (length (kept names headers) + f) (header_lines names headers ++ rest)
      ≡ and_then (read_lines f rest) (append_lines (map line_of (kept names headers)))
unfolding header_lines
read_lines-header_lines names [] f rest clean =
    ap (λ k. read_lines k rest) (omega arith) ∙ no_lines (read_lines f rest)
read_lines-header_lines names ((name, value) ∷ headers) f rest clean =
    elim (Bool-cases (is_dropped names name)) [
      | inl dropped ↦ rw dropped (read_lines-header_lines names headers f rest clean.2)
      | inr here ↦ rw here (
          ap2_lines (suc_add (length (kept names headers)) f)
            (regroup name value (header_lines names headers) rest)
          ∙ read_lines-line (length (kept names headers) + f) (line_of (name, value))
              (header_lines names headers ++ rest) (is_empty-append name 58 _)
              (line_of-clean name value clean.0 clean.1)
          ∙ ap (λ o. and_then o (cons_line (line_of (name, value))))
              (read_lines-header_lines names headers f rest clean.2)
          ∙ lines_twice (read_lines f rest) _ _)
    ]

abbrev pub auth_lines : Option Bytes → List Bytes
auth_lines none = []
auth_lines (some auth) = (codes "Proxy-Authorization: " ++ auth) ∷ []

abbrev pub no_return : Option Bytes → Bool
no_return none = true
no_return (some auth) = not (contains 13 auth)

abbrev last_line : Bytes
last_line = codes "Connection: close" ++ blank_line

read_lines-last_line :
    (f : ℕ) → read_lines (suc (suc f)) last_line ≡ some (codes "Connection: close" ∷ [], [])
unfolding read_lines split_line
read_lines-last_line f = refl

read_lines-last :
    (auth : Option Bytes)
    → no_return auth ≡ true
    → read_lines 3 (auth_line auth ++ last_line)
      ≡ some (auth_lines auth ++ (codes "Connection: close" ∷ []), [])
read_lines-last none h = read_lines-last_line 1
read_lines-last (some auth) h =
    ap (λ z. read_lines 3 (codes "Proxy-Authorization: " ++ z)) (append_assoc auth crlf last_line)
    ∙ read_lines-line 2 (codes "Proxy-Authorization: " ++ auth) last_line refl (ground arith)
    ∙ ap (λ o. and_then o (cons_line (codes "Proxy-Authorization: " ++ auth)))
        (read_lines-last_line 0)

abbrev pub request_line : Bytes → Bytes → Bytes
request_line method target = method ++ (codes " " ++ (target ++ codes " HTTP/1.1"))

request_line-break :
    (method target rest : Bytes)
    → (method ++ (codes " " ++ (target ++ (codes " HTTP/1.1" ++ crlf)))) ++ rest
      ≡ request_line method target ++ (crlf ++ rest)
request_line-break method target rest =
    ap (λ z. (method ++ (codes " " ++ z)) ++ rest)
      (sym (append_assoc target (codes " HTTP/1.1") crlf))
    ∙ ap (λ z. z ++ rest)
        (sym (append_assoc method (codes " " ++ (target ++ codes " HTTP/1.1")) crlf))
    ∙ append_assoc (request_line method target) crlf rest

request_line-clean :
    (method target : Bytes)
    → contains 13 method ≡ false
    → contains 13 target ≡ false
    → contains 13 (request_line method target) ≡ false
request_line-clean method target h k =
    rw (any-append (λ x. x == 13) method (codes " " ++ (target ++ codes " HTTP/1.1")), h)
      (rw (any-append (λ x. x == 13) target (codes " HTTP/1.1"), k) refl)

rewritten_lines :
    (lossy : Bytes → Bytes) (method target : Bytes) (headers : Headers) (auth : Option Bytes)
    → contains 13 method ≡ false
    → contains 13 target ≡ false
    → AreClean headers
    → no_return auth ≡ true
    → let through = kept (hop_by_hop lossy headers) headers in
      read_lines (length through + 4) (rewrite_request lossy method target headers auth)
      ≡ some (
        request_line method target
            ∷ (map line_of through ++ (auth_lines auth ++ (codes "Connection: close" ∷ []))),
        [],
      )
unfolding rewrite_request
rewritten_lines lossy method target headers auth hm ht clean ha =
    let names = hop_by_hop lossy headers in
    let last = auth_line auth ++ last_line in
    ap2_lines (fuel (length (kept names headers)))
      (request_line-break method target (header_lines names headers ++ last))
    ∙ read_lines-line (length (kept names headers) + 3) (request_line method target)
        (header_lines names headers ++ last) (is_empty-append method 32 _)
        (request_line-clean method target hm ht)
    ∙ ap (λ o. and_then o (cons_line (request_line method target)))
        (read_lines-header_lines names headers 3 last clean
          ∙ ap (λ o. and_then o (append_lines (map line_of (kept names headers))))
              (read_lines-last auth ha))
  where
    fuel : (n : ℕ) → n + 4 ≡ suc (n + 3)
    fuel n = omega arith

retain_same :
    {A : Type 0} (p q : A → Bool) (xs : List A) → ((x : A) → p x ≡ q x) → retain p xs ≡ retain q xs
retain_same p q [] h = refl
retain_same p q (x ∷ xs) h = rw (h x, retain_same p q xs h) refl

-- The next hop reads in a rewritten head exactly the request line, the headers that go further than
-- one hop, the login when there is one, and `Connection: close`; nothing follows the blank line. No
-- part has a carriage return: so a client cannot add a line. Of one hop are eight names, the
-- proxy's login among them, and those that the request's `Connection` headers list.
pub read_lines-rewrite_request :
    (lossy : Bytes → Bytes) (method target : Bytes) (headers : Headers) (auth : Option Bytes)
    → contains 13 method ≡ false
    → contains 13 target ≡ false
    → AreClean headers
    → no_return auth ≡ true
    → let through = forwarded lossy headers in
      read_lines (length through + 4) (rewrite_request lossy method target headers auth)
      ≡ some (
        request_line method target
            ∷ (map line_of through ++ (auth_lines auth ++ (codes "Connection: close" ∷ []))),
        [],
      )
read_lines-rewrite_request lossy method target headers auth hm ht clean ha =
    subst
      (λ through.
        read_lines (length through + 4) (rewrite_request lossy method target headers auth)
        ≡ some (
          request_line method target
              ∷ (map line_of through ++ (auth_lines auth ++ (codes "Connection: close" ∷ []))),
          [],
        ))
      (retain_same _ _ headers (λ h. ap not (is_dropped-is_of_one_hop lossy headers h.0)))
      (rewritten_lines lossy method target headers auth hm ht clean ha)
