-- ===== src/Proxy/Head/Reading.antt =====
-- `read_head`: what it returns of the bytes it has read.
use browserserve.Common.{
  ℕ, zero, suc, ◌+◌, ◌-◌, Bool, true, false, not, ◌&&◌, ◌≤◌, ◌<◌, Option, none, some, List, [], ◌∷◌,
  ◌++◌, length, take, drop, ◌≡◌, refl, ap, sym, subst, ◌∙◌, arith, length-append, append_assoc, ◌⊎◌,
  inl, inr, Option-cases,
}
use browserserve.Common.Text.{Bytes, strip_prefix}
use browserserve.Common.Result.{and_then}
use browserserve.Proxy.Head.{
  Head, Read, bytes, broken, HeadOutcome, got, read_failed, waiting, blank_line, find_head_end,
  look, read_head, max_head_bytes,
}

abbrev pub is_here : Bytes → Bytes → Bool
is_here needle hay = elim (strip_prefix needle hay) [ none ↦ false | some rest ↦ true ]

-- No occurrence begins at one of the first n bytes.
abbrev pub none_before : ℕ → Bytes → Bytes → Bool
none_before zero needle hay = true
none_before (suc n) needle hay = not (is_here needle hay) && none_before n needle (drop 1 hay)

-- `memmem::find` gives the index of the first occurrence, which lies in the bytes.
pub record FindLaws (find : Bytes → Bytes → Option ℕ) : Type 0 where
  pub found :
      (hay needle : Bytes) (i : ℕ)
      → find hay needle ≡ some i
      → (i + length needle ≤ length hay)
        × (take (length needle) (drop i hay) ≡ needle)
        × (none_before i needle hay ≡ true)

-- Each read gives 4096 bytes at most, the size of the chunk.
abbrev pub AreShort : List Read → Type 0
AreShort [] = Unit {0}
AreShort (broken ∷ reads) = AreShort reads
AreShort (bytes chunk ∷ reads) = (length chunk ≤ 4096) × AreShort reads

abbrev pub all_bytes : List Read → Bytes
all_bytes [] = []
all_bytes (broken ∷ reads) = all_bytes reads
all_bytes (bytes chunk ∷ reads) = chunk ++ all_bytes reads

take-drop {ℓ} : {A : Type ℓ} (n : ℕ) (xs : List A) → take n xs ++ drop n xs ≡ xs
take-drop zero xs = refl
take-drop (suc n) [] = refl
take-drop (suc n) (x ∷ xs) = ap (◌∷◌ x) (take-drop n xs)

length-take {ℓ} : {A : Type ℓ} (n : ℕ) (xs : List A) → n ≤ length xs → length (take n xs) ≡ n
length-take zero xs h = refl
length-take (suc n) [] h = omega arith
length-take (suc n) (x ∷ xs) h = omega (arith, length-take n xs (omega arith))

some_injective : {A : Type 0} (a b : A) → some a ≡ some b → a ≡ b
some_injective a b h = cc

module _ (find : Bytes → Bytes → Option ℕ) (laws : FindLaws find) where
  -- What a head that was read satisfies, for the bytes that were there.
  pub record IsHeadOf (h : Head) (there : Bytes) : Type 0 where
    pub nothing_lost : h.head ++ h.rest ≡ there
    pub ends :
        (4 ≤ length h.head) × (take 4 (drop (length h.head - 4) there) ≡ 13 ∷ 10 ∷ 13 ∷ 10 ∷ [])
    pub first : none_before (length h.head - 4) (13 ∷ 10 ∷ 13 ∷ 10 ∷ []) there ≡ true
    pub bounded : length there < max_head_bytes + 4096

  -- Where the blank line was found.
  record Found (buf : Bytes) (e : ℕ) : Type 0 where
    inside : (4 ≤ e) × (e ≤ length buf)
    there : take 4 (drop (e - 4) buf) ≡ 13 ∷ 10 ∷ 13 ∷ 10 ∷ []
    earliest : none_before (e - 4) (13 ∷ 10 ∷ 13 ∷ 10 ∷ []) buf ≡ true

  find-Found : (buf : Bytes) (i : ℕ) → find buf blank_line ≡ some i → Found buf (i + 4)
  find-Found buf i h =
      let (fits, there, earliest) = laws.found buf blank_line i h in
      let back : i ≡ i + 4 - 4 = omega arith in
      record {
        inside = (omega arith, omega (arith, fits));
        there = subst (λ j. take 4 (drop j buf) ≡ 13 ∷ 10 ∷ 13 ∷ 10 ∷ []) back there;
        earliest = subst (λ j. none_before j (13 ∷ 10 ∷ 13 ∷ 10 ∷ []) buf ≡ true) back earliest;
      }

  find_head_end-Found : (buf : Bytes) (e : ℕ) → find_head_end find buf ≡ some e → Found buf e
  unfolding find_head_end
  find_head_end-Found buf e h = within (find buf blank_line) refl h
    where
      within :
          (o : Option ℕ)
          → find buf blank_line ≡ o
          → and_then o (λ i. some (i + 4)) ≡ some e
          → Found buf e
      within none p q = absurd (ground arith)
      within (some i) p q = subst (Found buf) (some_injective _ _ q) (find-Found buf i p)

  got_inj : (a b : Head) → got a ≡ got b → a ≡ b
  got_inj a b e = cc

  cut-IsHeadOf :
      (buf : Bytes) (end : ℕ)
      → length buf < max_head_bytes + 4096
      → find_head_end find buf ≡ some end
      → IsHeadOf (record { head = take end buf; rest = drop end buf }) buf
  cut-IsHeadOf buf end small here =
      let cut = find_head_end-Found buf end here in
      let long : end ≡ length (take end buf) = sym (length-take end buf cut.inside.1) in
      record {
        nothing_lost = take-drop end buf;
        ends = (
          subst (λ n. 4 ≤ n) long cut.inside.0,
          subst (λ n. take 4 (drop (n - 4) buf) ≡ 13 ∷ 10 ∷ 13 ∷ 10 ∷ []) long cut.there,
        );
        first =
            subst (λ n. none_before (n - 4) (13 ∷ 10 ∷ 13 ∷ 10 ∷ []) buf ≡ true) long cut.earliest;
        bounded = small;
      }

  got-IsHeadOf :
      (buf : Bytes) (next : HeadOutcome) (h : Head)
      → length buf < max_head_bytes + 4096
      → look find buf next ≡ got h
      → IsHeadOf h buf ⊎ ((next ≡ got h) × (length buf < max_head_bytes))
  got-IsHeadOf buf next h small e = elim (Option-cases (find_head_end find buf)) [
    | inl missing ↦ inr (ground arith)
    | inr (end, here) ↦
        inl (
          subst (λ k. IsHeadOf k buf) (got_inj _ h (ground arith))
            (cut-IsHeadOf buf end small here))
  ]

  -- A head that `read_head` returns ends at the first blank line of the bytes that it was given
  -- and has read; the head and the rest make up these bytes, and they are fewer than 36 KiB, if
  -- those that it was given were and no read gives more than 4096.
  pub read_head-IsHeadOf :
      (buf : Bytes) (reads : List Read) (h : Head)
      → length buf < max_head_bytes + 4096
      → AreShort reads
      → read_head find buf reads ≡ got h
      → (later : Bytes) × (seen : Bytes) × (seen ++ later ≡ buf ++ all_bytes reads)
        × IsHeadOf h seen
  unfolding read_head
  read_head-IsHeadOf buf [] h small short e = elim (got-IsHeadOf buf waiting h small e) [
    | inl is ↦ ([], buf, refl, is)
    | inr (ends, less) ↦ absurd (ground arith)
  ]
  read_head-IsHeadOf buf (broken ∷ reads) h small short e =
      elim (got-IsHeadOf buf read_failed h small e) [
        | inl is ↦ (all_bytes reads, buf, refl, is)
        | inr (ends, less) ↦ absurd (ground arith)
      ]
  read_head-IsHeadOf buf (bytes chunk ∷ reads) h small short e =
      elim (got-IsHeadOf buf _ h small e) [
        | inl is ↦ (chunk ++ all_bytes reads, buf, refl, is)
        | inr (more, less) ↦
            let rest =
              read_head-IsHeadOf (buf ++ chunk) reads h
                (omega (arith, length-append buf chunk, short.0)) short.1 (ground arith) in
            (rest.0, rest.1, rest.2 ∙ append_assoc buf chunk (all_bytes reads), rest.3)
      ]
