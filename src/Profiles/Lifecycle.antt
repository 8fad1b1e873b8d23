-- ===== src/Profiles/Lifecycle.antt =====
-- server/profiles.rs: the entries of the store, whatever the order of the calls.
use browserserve.Common.{
  ℕ, ◌+◌, ◌≤◌, ◌<◌, Option, none, some, List, [], ◌∷◌, length, leb, ◌≡◌, refl, inl, inr, arith,
  if◌then◌else◌, Bool-cases,
}
use browserserve.Common.Map.{
  Eq, lookup, Unique, lookup-insert, lookup-remove, lookup-retain_values, insert-Unique,
  remove-Unique, retain_values-Unique, length-insert-le, length-insert_old, length-remove-le,
  length-retain_values-le,
}
use browserserve.Profiles.{
  pending, in_flight, ready, Entry, ProfileStore, new, is_fresh, sweep, drop_off, claim,
  deposit_result, pick_up, finish_without_result, store_under, claim_entry, deposit_entry,
  pick_entry, finish_entry,
}

-- The calls of the store's methods, and what `mint_token` yields to a drop-off.
pub data Call (K P : Type 0) : Type 0 where
  drops_off : P → Option K → Call K P
  claims : K → Call K P
  deposits : K → P → Call K P
  picks_up : K → Call K P
  finishes : K → Call K P

-- How often a token was given out, claimed and picked up.
pub record Tallies : Type 0 where
  pub dropped : ℕ
  pub claimed : ℕ
  pub picked : ℕ

abbrev pub untouched : Tallies
untouched = record { dropped = 0; claimed = 0; picked = 0 }

module _ {K : Type 0} ⦃e : Eq K⦄ (token : K) where
  abbrev pub hits : Option K → ℕ
  hits none = 0
  hits (some k) = if e.same k token then 1 else 0

  abbrev pub answers : {P : Type 0} → K → Option P → ℕ
  answers k none = 0
  answers k (some p) = if e.same k token then 1 else 0

module _ {K P : Type 0} ⦃e : Eq K⦄ (token : K) where
  -- One call at a time that the clock shows.
  unfoldable pub call : ProfileStore K P × Tallies → ℕ × Call K P → ProfileStore K P × Tallies
  call (s, n) (now, drops_off p minted) =
      let r = drop_off s now p minted in (r.1, record n { dropped = n.dropped + hits token r.0 })
  call (s, n) (now, claims k) =
      let r = claim s now k in (r.1, record n { claimed = n.claimed + answers token k r.0 })
  call (s, n) (now, deposits k p) = (deposit_result s now k p, n)
  call (s, n) (now, picks_up k) =
      let r = pick_up s now k in (r.1, record n { picked = n.picked + answers token k r.0 })
  call (s, n) (now, finishes k) = (finish_without_result s k, n)

  unfoldable pub calls :
      ProfileStore K P × Tallies → List (ℕ × Call K P) → ProfileStore K P × Tallies
  calls st [] = st
  calls st (c ∷ cs) = calls (call st c) cs

  -- What the slot under the token leaves open.
  abbrev unclaimed : Option (Entry P) → ℕ
  unclaimed none = 0
  unclaimed (some x) = elim (x.slot) [ pending p ↦ 1 | in_flight ↦ 0 | ready p ↦ 0 ]

  abbrev running : Option (Entry P) → ℕ
  running none = 0
  running (some x) = elim (x.slot) [ pending p ↦ 0 | in_flight ↦ 1 | ready p ↦ 1 ]

  record StoreInv (st : ProfileStore K P × Tallies) : Type 0 where
    unique : Unique st.0.entries
    capped : length st.0.entries ≤ st.0.max_pending
    claimed_le : st.1.claimed + unclaimed (lookup token st.0.entries) ≤ st.1.dropped
    picked_le : st.1.picked + running (lookup token st.0.entries) ≤ st.1.claimed

  sweep-StoreInv :
      (s : ProfileStore K P) (n : Tallies) (now : ℕ) → StoreInv (s, n) → StoreInv (sweep s now, n)
  unfolding sweep
  sweep-StoreInv s n now v = ground (
    arith,
    retain_values-Unique (is_fresh s.ttl now) s.entries v.unique,
    length-retain_values-le (is_fresh s.ttl now) s.entries,
    lookup-retain_values (is_fresh s.ttl now) token s.entries v.unique,
  )

  drop-StoreInv :
      (s : ProfileStore K P) (n : Tallies) (now : ℕ) (p : P) (minted : Option K)
      → StoreInv (s, n)
      → length s.entries < s.max_pending
      → StoreInv (
        (store_under s now p minted).1,
        record n { dropped = n.dropped + hits token (store_under s now p minted).0 },
      )
  unfolding store_under
  drop-StoreInv s n now p none v h = ground arith
  drop-StoreInv s n now p (some k) v h =
      let x : Entry P = record { slot = pending p; at = now } in
      ground (
        arith,
        e.same_iff k token,
        insert-Unique k x s.entries v.unique,
        length-insert-le k x s.entries,
        lookup-insert k token x s.entries,
      )

  claim-StoreInv :
      (s : ProfileStore K P) (n : Tallies) (now : ℕ) (k : K) (o : Option (Entry P))
      → lookup k s.entries ≡ o
      → StoreInv (s, n)
      → StoreInv (
        (claim_entry s now k o).1,
        record n { claimed = n.claimed + answers token k (claim_entry s now k o).0 },
      )
  unfolding claim_entry
  claim-StoreInv s n now k none h v = ground arith
  claim-StoreInv s n now k (some old) h v =
      let x : Entry P = record { slot = in_flight; at = now } in
      ground (
        arith,
        e.same_iff k token,
        insert-Unique k x s.entries v.unique,
        length-insert_old k x old s.entries h,
        lookup-insert k token x s.entries,
      )

  deposit-StoreInv :
      (s : ProfileStore K P) (n : Tallies) (now : ℕ) (k : K) (p : P) (o : Option (Entry P))
      → lookup k s.entries ≡ o
      → StoreInv (s, n)
      → StoreInv (deposit_entry s now k p o, n)
  unfolding deposit_entry
  deposit-StoreInv s n now k p none h v = v
  deposit-StoreInv s n now k p (some old) h v =
      let x : Entry P = record { slot = ready p; at = now } in
      ground (
        arith,
        e.same_iff k token,
        insert-Unique k x s.entries v.unique,
        length-insert_old k x old s.entries h,
        lookup-insert k token x s.entries,
      )

  pick-StoreInv :
      (s : ProfileStore K P) (n : Tallies) (k : K) (o : Option (Entry P))
      → lookup k s.entries ≡ o
      → StoreInv (s, n)
      → StoreInv (
        (pick_entry s k o).1,
        record n { picked = n.picked + answers token k (pick_entry s k o).0 },
      )
  unfolding pick_entry
  pick-StoreInv s n k none h v = ground arith
  pick-StoreInv s n k (some old) h v = ground (
    arith,
    e.same_iff k token,
    remove-Unique k s.entries v.unique,
    length-remove-le k s.entries,
    lookup-remove k token s.entries,
  )

  finish-StoreInv :
      (s : ProfileStore K P) (n : Tallies) (k : K) (o : Option (Entry P))
      → lookup k s.entries ≡ o
      → StoreInv (s, n)
      → StoreInv (finish_entry s k o, n)
  unfolding finish_entry
  finish-StoreInv s n k none h v = v
  finish-StoreInv s n k (some old) h v = ground (
    arith,
    e.same_iff k token,
    remove-Unique k s.entries v.unique,
    length-remove-le k s.entries,
    lookup-remove k token s.entries,
  )

  call-StoreInv :
      (st : ProfileStore K P × Tallies) (c : ℕ × Call K P) → StoreInv st → StoreInv (call st c)
  unfolding call drop_off claim deposit_result pick_up finish_without_result
  call-StoreInv (s, n) (now, drops_off p minted) v =
      let kept = sweep-StoreInv s n now v in
      elim (Bool-cases (leb (sweep s now).max_pending (length (sweep s now).entries))) [
        | inl full ↦ rw full (ground (arith, kept))
        | inr room ↦ rw room (drop-StoreInv (sweep s now) n now p minted kept (ground arith))
      ]
  call-StoreInv (s, n) (now, claims k) v =
      claim-StoreInv (sweep s now) n now k _ refl (sweep-StoreInv s n now v)
  call-StoreInv (s, n) (now, deposits k p) v = deposit-StoreInv s n now k p _ refl v
  call-StoreInv (s, n) (now, picks_up k) v =
      pick-StoreInv (sweep s now) n k _ refl (sweep-StoreInv s n now v)
  call-StoreInv (s, n) (now, finishes k) v = finish-StoreInv s n k _ refl v

  calls-StoreInv :
      (st : ProfileStore K P × Tallies) (cs : List (ℕ × Call K P))
      → StoreInv st
      → StoreInv (calls st cs)
  unfolding calls
  calls-StoreInv st [] v = v
  calls-StoreInv st (c ∷ cs) v = calls-StoreInv (call st c) cs (call-StoreInv st c v)

  -- After any calls at any times on a new store, a token was picked up at most as often as it was
  -- claimed, and claimed at most as often as `drop_off` gave it out, so a token that was minted
  -- once yields its profile once and its result once; and the entries are within the cap.
  pub calls_single_use :
      (ttl max_pending : ℕ) (cs : List (ℕ × Call K P))
      → let r = calls (new ttl max_pending, untouched) cs in
        (r.1.picked ≤ r.1.claimed)
        × (r.1.claimed ≤ r.1.dropped)
        × (length r.0.entries ≤ r.0.max_pending)
  unfolding new lookup
  calls_single_use ttl max_pending cs =
      let v = calls-StoreInv (new ttl max_pending, untouched) cs (omega arith) in
      (omega arith, omega arith, v.capped)
