-- ===== src/Profiles/Ends.antt =====
-- server/profiles.rs: what the end of a session does to the entries.
use browserserve.Common.{ℕ, none, some, if◌then◌else◌, ◌≡◌}
use browserserve.Common.Map.{Eq, lookup, lookup-insert, lookup-remove}
use browserserve.Profiles.{
  in_flight, ready, ProfileStore, deposit_result, deposit_entry, finish_without_result,
  finish_entry,
}

module _ {K P : Type 0} ⦃e : Eq K⦄ (s : ProfileStore K P) (token : K) (at : ℕ) where
  -- The claimed profile of a session that has not ended.
  abbrev pub InFlight : Type 0
  InFlight = lookup token s.entries ≡ some (record { slot = in_flight; at = at })

  pub lookup-deposit_result :
      (now : ℕ) (payload : P) (other : K)
      → InFlight
      → lookup other (deposit_result s now token payload).entries ≡ (
          if e.same token other
          then some (record { slot = ready payload; at = now })
          else lookup other s.entries)
  unfolding deposit_result
  lookup-deposit_result now payload other h =
      rw (h, deposit_entry) (lookup-insert token other _ s.entries)

  pub lookup-finish :
      (other : K)
      → InFlight
      → lookup other (finish_without_result s token).entries
        ≡ (if e.same token other then none else lookup other s.entries)
  unfolding finish_without_result
  lookup-finish other h = rw (h, finish_entry) (lookup-remove token other s.entries)
