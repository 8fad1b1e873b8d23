-- ===== src/Profiles/Others.antt =====
-- server/profiles.rs: calls about other tokens while a profile is in flight.
use browserserve.Common.{
  ℕ, ◌-◌, ◌<◌, Bool, false, List, [], ◌∷◌, Option, none, some, length, leb, ◌≡◌, ◌∙◌, refl, inl,
  inr, arith, Bool-cases, lt→ltb,
}
use browserserve.Common.Map.{
  Eq, insert, lookup-insert, lookup-remove, remove, remove-Unique, insert-Unique,
}
use browserserve.Profiles.Lifecycle.{
  Call, drops_off, claims, deposits, picks_up, finishes, call, calls, Tallies,
}
use browserserve.Profiles.{
  Slot, store_under, finish_without_result, finish_entry, in_flight_max_age, pending, in_flight,
  ready, Entry, ProfileStore, sweep, drop_off, claim, deposit_result, pick_up, claim_entry,
  deposit_entry, pick_entry,
}
use browserserve.Profiles.Held.{Holds, sweep-Holds}

module _ {K P : Type 0} ⦃e : Eq K⦄ where
  insert-other :
      (s : ProfileStore K P) (token k : K) (x new : Entry P)
      → Holds s token x
      → e.same k token ≡ false
      → Holds (record s { entries = insert k new s.entries }) token x
  insert-other s token k x new h apart = record {
    unique = insert-Unique k new s.entries h.unique;
    found = lookup-insert k token new s.entries ∙ rw apart h.found;
  }

  remove-other :
      (s : ProfileStore K P) (token k : K) (x : Entry P)
      → Holds s token x
      → e.same k token ≡ false
      → Holds (record s { entries = remove k s.entries }) token x
  remove-other s token k x h apart = record {
    unique = remove-Unique k s.entries h.unique;
    found = lookup-remove k token s.entries ∙ rw apart h.found;
  }

  -- The token of a call, if it has one.
  abbrev pub names : K → Call K P → Bool
  names token (drops_off p none) = false
  names token (drops_off p (some k)) = e.same k token
  names token (claims k) = e.same k token
  names token (deposits k p) = e.same k token
  names token (picks_up k) = e.same k token
  names token (finishes k) = e.same k token

  module _ (s : ProfileStore K P) (token k : K) (x : Entry P) (h : Holds s token x)
      (apart : e.same k token ≡ false) where
    claim_entry-other : (now : ℕ) (o : Option (Entry P)) → Holds (claim_entry s now k o).1 token x
    unfolding claim_entry
    claim_entry-other now none = h
    claim_entry-other now (some y) = on_slot y.slot
      where
        on_slot :
            (o : Slot P) → Holds (claim_entry s now k (some (record y { slot = o }))).1 token x
        on_slot (pending p) = insert-other s token k x _ h apart
        on_slot (in_flight) = h
        on_slot (ready p) = h

    deposit_entry-other :
        (now : ℕ) (q : P) (o : Option (Entry P)) → Holds (deposit_entry s now k q o) token x
    unfolding deposit_entry
    deposit_entry-other now q none = h
    deposit_entry-other now q (some y) = on_slot y.slot
      where
        on_slot :
            (o : Slot P) → Holds (deposit_entry s now k q (some (record y { slot = o }))) token x
        on_slot (pending p) = h
        on_slot (in_flight) = insert-other s token k x _ h apart
        on_slot (ready p) = h

    pick_entry-other : (o : Option (Entry P)) → Holds (pick_entry s k o).1 token x
    unfolding pick_entry
    pick_entry-other none = h
    pick_entry-other (some y) = on_slot y.slot
      where
        on_slot : (o : Slot P) → Holds (pick_entry s k (some (record y { slot = o }))).1 token x
        on_slot (pending p) = h
        on_slot (in_flight) = h
        on_slot (ready p) = remove-other s token k x h apart

    finish_entry-other : (o : Option (Entry P)) → Holds (finish_entry s k o) token x
    unfolding finish_entry
    finish_entry-other none = h
    finish_entry-other (some y) = on_slot y.slot
      where
        on_slot : (o : Slot P) → Holds (finish_entry s k (some (record y { slot = o }))) token x
        on_slot (pending p) = h
        on_slot (in_flight) = remove-other s token k x h apart
        on_slot (ready p) = h

  sweep-live :
      (s : ProfileStore K P) (token : K) (since now : ℕ)
      → Holds s token (record { slot = in_flight; at = since })
      → now - since < in_flight_max_age
      → Holds (sweep s now) token (record { slot = in_flight; at = since })
  sweep-live s token since now h young = sweep-Holds s token _ now h (lt→ltb _ _ young)

  store_under-other :
      (s : ProfileStore K P) (token : K) (x : Entry P) (now : ℕ) (p : P) (minted : Option K)
      → Holds s token x
      → names token (drops_off p minted) ≡ false
      → Holds (store_under s now p minted).1 token x
  unfolding store_under
  store_under-other s token x now p none h apart = h
  store_under-other s token x now p (some k) h apart = insert-other s token k x _ h apart

  call-live :
      (s : ProfileStore K P) (n : Tallies) (token : K) (since now : ℕ) (c : Call K P)
      → Holds s token (record { slot = in_flight; at = since })
      → now - since < in_flight_max_age
      → names token c ≡ false
      → Holds (call token (s, n) (now, c)).0 token (record { slot = in_flight; at = since })
  unfolding call drop_off claim deposit_result pick_up finish_without_result
  call-live s n token since now (drops_off p minted) h young apart =
      let swept = sweep-live s token since now h young in
      elim (Bool-cases (leb (sweep s now).max_pending (length (sweep s now).entries))) [
        | inl full ↦ rw full swept
        | inr room ↦ rw room (store_under-other (sweep s now) token _ now p minted swept apart)
      ]
  call-live s n token since now (claims k) h young apart =
      claim_entry-other (sweep s now) token k _ (sweep-live s token since now h young) apart now _
  call-live s n token since now (deposits k p) h young apart =
      deposit_entry-other s token k _ h apart now p _
  call-live s n token since now (picks_up k) h young apart =
      pick_entry-other (sweep s now) token k _ (sweep-live s token since now h young) apart _
  call-live s n token since now (finishes k) h young apart =
      finish_entry-other s token k _ h apart _

  ttl-call :
      (s : ProfileStore K P) (n : Tallies) (token : K) (now : ℕ) (c : Call K P)
      → (call token (s, n) (now, c)).0.ttl ≡ s.ttl
  unfolding call drop_off claim deposit_result pick_up finish_without_result sweep store_under
      claim_entry deposit_entry pick_entry finish_entry
  ttl-call s n token now (drops_off p none) = ground arith
  ttl-call s n token now (drops_off p (some k)) = ground arith
  ttl-call s n token now (claims k) = ground arith
  ttl-call s n token now (deposits k p) = ground arith
  ttl-call s n token now (picks_up k) = ground arith
  ttl-call s n token now (finishes k) = ground arith

  -- Calls about other tokens, each less than 24 hours after the claim at this time.
  abbrev pub AreOthers : K → ℕ → List (ℕ × Call K P) → Type 0
  AreOthers token since [] = Unit {0}
  AreOthers token since ((now, c) ∷ cs) =
      (names token c ≡ false) × (now - since < in_flight_max_age) × AreOthers token since cs

  pub calls-live :
      (cs : List (ℕ × Call K P)) (s : ProfileStore K P) (n : Tallies) (token : K) (since : ℕ)
      → Holds s token (record { slot = in_flight; at = since })
      → AreOthers token since cs
      → Holds (calls token (s, n) cs).0 token (record { slot = in_flight; at = since })
        × ((calls token (s, n) cs).0.ttl ≡ s.ttl)
  unfolding calls
  calls-live [] s n token since h others = (h, refl)
  calls-live ((now, c) ∷ cs) s n token since h others =
      let st = call token (s, n) (now, c) in
      let rest =
        calls-live cs st.0 st.1 token since (call-live s n token since now c h others.1 others.0)
          others.2 in
      (rest.0, rest.1 ∙ ttl-call s n token now c)
