-- ===== src/Profiles/Examples.antt =====
-- The hand-off store at concrete calls; tokens and payloads are numbers.
use browserserve.Common.{ℕ, ◌≤◌, some, List, [], ◌∷◌, length, ◌≡◌, refl, arith}
use browserserve.Common.Map.{nat_eq, lookup, insert, retain_values, remove}
use browserserve.Profiles.{ProfileStore, new, drop_off, claim, deposit_result, pick_up, profile_ttl}
use browserserve.Profiles.Lifecycle.{
  Call, drops_off, claims, deposits, picks_up, calls, call, untouched, calls_single_use,
}
use browserserve.Profiles.HandOff.{pick_up-deposit_result}

abbrev store : ProfileStore ℕ ℕ
store = new profile_ttl 2

-- Token 7 is given out, claimed twice, deposited and picked up twice; token 8 expires.
abbrev history : List (ℕ × Call ℕ ℕ)
history =
    (0, drops_off 70 (some 7))
    ∷ (5, drops_off 80 (some 8))
    ∷ (6, drops_off 90 (some 9))
    ∷ (10, claims 7)
    ∷ (11, claims 7)
    ∷ (500_000, claims 8)
    ∷ (600_000, deposits 7 71)
    ∷ (600_001, picks_up 7)
    ∷ (600_002, picks_up 7)
    ∷ []

calls-history :
    ((calls 7 (store, untouched) history).1 ≡ record { dropped = 1; claimed = 1; picked = 1 })
    × ((calls 7 (store, untouched) history).0.entries ≡ [])
unfolding calls call new drop_off claim deposit_result pick_up lookup insert retain_values remove
calls-history = (refl, refl)

calls_single_use_example :
    let r = calls 7 (store, untouched) history in
    (r.1.picked ≤ r.1.claimed)
    × (r.1.claimed ≤ r.1.dropped)
    × (length r.0.entries ≤ r.0.max_pending)
calls_single_use_example = calls_single_use 7 profile_ttl 2 history

abbrev filled : ProfileStore ℕ ℕ
filled = (drop_off store 0 70 (some 7)).1

abbrev taken : ProfileStore ℕ ℕ
taken = (claim filled 10 7).1

-- Longer after the claim than the time to live of a profile, which sweeps the store.
abbrev others : List (ℕ × Call ℕ ℕ)
others = (500_000, drops_off 80 (some 8)) ∷ (500_001, claims 8) ∷ []

pick_up-deposit_result_example :
    (pick_up (deposit_result (calls 7 (taken, untouched) others).0 9_000_000 7 71) 9_000_001 7).0
    ≡ some 71
unfolding new drop_off insert retain_values claim lookup
pick_up-deposit_result_example =
    (pick_up-deposit_result filled taken 7 70 71 10 9_000_000 9_000_001 others (refl, tt) refl
      (refl, omega arith, (refl, omega arith, tt)) (omega arith)).0
