-- ===== src/Profiles/HandOff.antt =====
-- server/profiles.rs: what is handed in and what is claimed or picked up.
use browserserve.Common.{
  ℕ, ◌-◌, ◌<◌, List, Option, none, some, length, leb, ◌≡◌, ◌∙◌, refl, sym, ap, inl, inr, arith,
  Bool-cases, lt→ltb,
}
use browserserve.Common.Map.{Eq, lookup, insert, Unique, keep, lookup-remove}
use browserserve.Profiles.Lifecycle.{Call, calls, untouched}
use browserserve.Profiles.{
  pending, in_flight, ready, Entry, ProfileStore, is_fresh, sweep, drop_off, claim, deposit_result,
  pick_up, claim_entry, deposit_entry, pick_entry,
}
use browserserve.Profiles.Held.{lookup-sweep, Holds, insert-Holds, sweep-Unique, sweep-Holds}
use browserserve.Profiles.Others.{AreOthers, calls-live}

module _ {K P : Type 0} ⦃e : Eq K⦄ where
  drop_off-Holds :
      (s t : ProfileStore K P) (token : K) (p : P) (now : ℕ)
      → Unique s.entries
      → drop_off s now p (some token) ≡ (some token, t)
      → Holds t token (record { slot = pending p; at = now }) × (t.ttl ≡ s.ttl)
  unfolding drop_off
  drop_off-Holds s t token p now u dropped =
      let x : Entry P = record { slot = pending p; at = now } in
      elim (Bool-cases (leb (sweep s now).max_pending (length (sweep s now).entries))) [
        | inl full ↦ absurd (ground arith)
        | inr room ↦
            let after = ap (λ r. r.1) (sym (rw room at dropped)) in
            rw after
              (insert-Holds (sweep s now) token x (sweep-Unique s now u), unfold sweep in refl)
      ]

  claim-Holds :
      (s : ProfileStore K P) (token : K) (p : P) (at now : ℕ)
      → Holds s token (record { slot = pending p; at = at })
      → now - at < s.ttl
      → ((claim s now token).0 ≡ some p)
        × Holds (claim s now token).1 token (record { slot = in_flight; at = now })
        × ((claim s now token).1.ttl ≡ s.ttl)
  unfolding claim
  claim-Holds s token p at now h fresh =
      let kept =
        sweep-Holds s token (record { slot = pending p; at = at }) now h (lt→ltb _ _ fresh) in
      rw (kept.found, claim_entry)
        (
          refl,
          insert-Holds (sweep s now) token (record { slot = in_flight; at = now }) kept.unique,
          unfold sweep in refl,
        )

  -- A claimed entry, swept or not, is not claimed again.
  claim-in_flight :
      (s : ProfileStore K P) (token : K) (at now : ℕ)
      → Holds s token (record { slot = in_flight; at = at })
      → (claim s now token).0 ≡ none
  unfolding claim
  claim-in_flight s token at now h =
      let x : Entry P = record { slot = in_flight; at = at } in
      let left = lookup-sweep s now token h.unique ∙ ap (keep (is_fresh s.ttl now)) h.found in
      elim (Bool-cases (is_fresh s.ttl now x)) [
        | inl fresh ↦ rw (left, fresh, claim_entry)
        | inr stale ↦ rw (left, stale, claim_entry)
      ]

  claim_entry-some :
      (s t : ProfileStore K P) (now : ℕ) (token : K) (p : P) (o : Option (Entry P))
      → claim_entry s now token o ≡ (some p, t)
      → t ≡ record s { entries = insert token (record { slot = in_flight; at = now }) s.entries }
  unfolding claim_entry
  claim_entry-some s t now token p none h = ground arith
  claim_entry-some s t now token p (some x) h = ground arith

  pub claimed-Holds :
      (s t : ProfileStore K P) (token : K) (p : P) (now : ℕ)
      → Unique s.entries
      → claim s now token ≡ (some p, t)
      → Holds t token (record { slot = in_flight; at = now }) × (t.ttl ≡ s.ttl)
  unfolding claim
  claimed-Holds s t token p now u claimed =
      let after = claim_entry-some (sweep s now) t now token p _ claimed in
      rw after (insert-Holds (sweep s now) token _ (sweep-Unique s now u), unfold sweep in refl)

  deposit-Holds :
      (s : ProfileStore K P) (token : K) (q : P) (at now : ℕ)
      → Holds s token (record { slot = in_flight; at = at })
      → Holds (deposit_result s now token q) token (record { slot = ready q; at = now })
        × ((deposit_result s now token q).ttl ≡ s.ttl)
  unfolding deposit_result
  deposit-Holds s token q at now h =
      rw (h.found, deposit_entry) (insert-Holds s token _ h.unique, refl)

  pick_up-Holds :
      (s : ProfileStore K P) (token : K) (q : P) (at now : ℕ)
      → Holds s token (record { slot = ready q; at = at })
      → now - at < s.ttl
      → ((pick_up s now token).0 ≡ some q) × (lookup token (pick_up s now token).1.entries ≡ none)
  unfolding pick_up
  pick_up-Holds s token q at now h fresh =
      let kept =
        sweep-Holds s token (record { slot = ready q; at = at }) now h (lt→ltb _ _ fresh) in
      rw (kept.found, pick_entry)
        (
          refl,
          lookup-remove token token (sweep s now).entries ∙ rw ((e.same_iff token token).1 refl),
        )

  -- A profile that was dropped off less than the time to live ago is claimed under its token, and
  -- a second claim, at any later time, gets nothing.
  claim-drop_off :
      (s t : ProfileStore K P) (token : K) (p : P) (now again later : ℕ)
      → Unique s.entries
      → drop_off s now p (some token) ≡ (some token, t)
      → later - now < s.ttl
      → ((claim t later token).0 ≡ some p) × ((claim (claim t later token).1 again token).0 ≡ none)
  claim-drop_off s t token p now again later u dropped h =
      let first = drop_off-Holds s t token p now u dropped in
      let second = claim-Holds t token p now later first.0 (omega (arith, first.1)) in
      (second.0, claim-in_flight (claim t later token).1 token later again second.1)

  -- The result deposited for a claimed profile is picked up once, if that is within the time to live of
  -- the deposit: whatever other profiles are handed in, claimed, deposited, picked up and ended
  -- between the claim and the deposit, as long as all that comes less than 24 hours after the claim.
  pub pick_up-deposit_result :
      (s t : ProfileStore K P) (token : K) (p q : P) (since again later : ℕ)
      (cs : List (ℕ × Call K P))
      → Unique s.entries
      → claim s since token ≡ (some p, t)
      → AreOthers token since cs
      → later - again < s.ttl
      → let r =
          pick_up (deposit_result (calls token (t, untouched) cs).0 again token q) later token in
        (r.0 ≡ some q) × (lookup token r.1.entries ≡ none)
  pick_up-deposit_result s t token p q since again later cs u claimed others h =
      let first = claimed-Holds s t token p since u claimed in
      let kept = calls-live cs t untouched token since first.0 others in
      let then = (calls token (t, untouched) cs).0 in
      let second = deposit-Holds then token q since again kept.0 in
      pick_up-Holds (deposit_result then again token q) token q again later second.0
        (omega (arith, first.1, second.1, kept.1))
