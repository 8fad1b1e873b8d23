-- ===== src/Profiles/Held.antt =====
-- server/profiles.rs: the slot under a token.
use browserserve.Common.{ℕ, true, some, ◌≡◌, ◌∙◌, refl}
use browserserve.Common.Map.{
  Eq, lookup, insert, Unique, keep, lookup-insert, lookup-retain_values, insert-Unique,
  retain_values-Unique,
}
use browserserve.Profiles.{Entry, ProfileStore, is_fresh, sweep}

module _ {K P : Type 0} ⦃e : Eq K⦄ where
  pub lookup-sweep :
      (s : ProfileStore K P) (now : ℕ) (t : K)
      → Unique s.entries
      → lookup t (sweep s now).entries ≡ keep (is_fresh s.ttl now) (lookup t s.entries)
  unfolding sweep
  lookup-sweep s now t u = lookup-retain_values (is_fresh s.ttl now) t s.entries u

  -- The slot under a token, as a state: the entry is there and the keys are distinct.
  pub record Holds (s : ProfileStore K P) (t : K) (x : Entry P) : Type 0 where
    pub unique : Unique s.entries
    pub found : lookup t s.entries ≡ some x

  pub insert-Holds :
      (s : ProfileStore K P) (t : K) (x : Entry P)
      → Unique s.entries
      → Holds (record s { entries = insert t x s.entries }) t x
  insert-Holds s t x u = record {
    unique = insert-Unique t x s.entries u;
    found = lookup-insert t t x s.entries ∙ rw ((e.same_iff t t).1 refl);
  }

  pub sweep-Unique :
      (s : ProfileStore K P) (now : ℕ) → Unique s.entries → Unique (sweep s now).entries
  unfolding sweep
  sweep-Unique s now u = retain_values-Unique (is_fresh s.ttl now) s.entries u

  pub sweep-Holds :
      (s : ProfileStore K P) (t : K) (x : Entry P) (now : ℕ)
      → Holds s t x
      → is_fresh s.ttl now x ≡ true
      → Holds (sweep s now) t x
  sweep-Holds s t x now h fresh = record {
    unique = sweep-Unique s now h.unique;
    found = lookup-sweep s now t h.unique ∙ rw (h.found, fresh);
  }
