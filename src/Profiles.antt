-- ===== src/Profiles.antt =====
-- server/profiles.rs: the profile hand-off store. Times are milliseconds; a token is what
-- `mint_token` drew from the operating system for this call, or `none` where that failed.
pub mod Lifecycle
mod Held
mod Others
pub mod HandOff
pub mod Ends
mod Examples
use browserserve.Common.{
  ℕ, ◌-◌, ◌*◌, Bool, true, false, Option, none, some, List, [], ◌∷◌, length, ltb, leb,
  if◌then◌else◌,
}
use browserserve.Common.Map.{Eq, lookup, insert, remove, retain_values}

-- `PROFILE_TTL`, `IN_FLIGHT_MAX_AGE` and `MAX_PENDING`
abbrev pub profile_ttl : ℕ
profile_ttl = 2 * 60 * 1000

abbrev pub in_flight_max_age : ℕ
in_flight_max_age = 24 * 60 * 60 * 1000

abbrev pub max_pending_entries : ℕ
max_pending_entries = 256

pub data Slot (P : Type 0) : Type 0 where
  pending : P → Slot P
  in_flight : Slot P
  ready : P → Slot P

pub record Entry (P : Type 0) : Type 0 where
  pub slot : Slot P
  pub at : ℕ

pub record ProfileStore (K P : Type 0) : Type 0 where
  pub entries : List (K × Entry P)
  pub ttl : ℕ
  pub max_pending : ℕ

unfoldable pub new : {K P : Type 0} → ℕ → ℕ → ProfileStore K P
new ttl max_pending = record { entries = []; ttl = ttl; max_pending = max_pending }

module _ {P : Type 0} where
  abbrev pub limit : ℕ → Slot P → ℕ
  limit ttl in_flight = in_flight_max_age
  limit ttl (pending p) = ttl
  limit ttl (ready p) = ttl

  -- `entry.at.elapsed() < limit`
  abbrev pub is_fresh : ℕ → ℕ → Entry P → Bool
  is_fresh ttl now e = ltb (now - e.at) (limit ttl e.slot)

module _ {K P : Type 0} ⦃e : Eq K⦄ where
  unfoldable pub sweep : ProfileStore K P → ℕ → ProfileStore K P
  sweep s now = record s { entries = retain_values (is_fresh s.ttl now) s.entries }

  store_under : ProfileStore K P → ℕ → P → Option K → Option K × ProfileStore K P
  store_under s now payload none = (none, s)
  store_under s now payload (some token) = (
    some token,
    record s { entries = insert token (record { slot = pending payload; at = now }) s.entries },
  )

  unfoldable pub drop_off : ProfileStore K P → ℕ → P → Option K → Option K × ProfileStore K P
  unfolding sweep store_under
  drop_off s now payload minted =
      let swept = sweep s now in
      if leb swept.max_pending (length swept.entries)
      then (none, swept)
      else store_under swept now payload minted

  claim_entry : ProfileStore K P → ℕ → K → Option (Entry P) → Option P × ProfileStore K P
  claim_entry s now token none = (none, s)
  claim_entry s now token (some x) = elim (x.slot) [
    | pending payload ↦ (
      some payload,
      record s { entries = insert token (record { slot = in_flight; at = now }) s.entries },
    )
    | in_flight ↦ (none, s)
    | ready payload ↦ (none, s)
  ]

  unfoldable pub claim : ProfileStore K P → ℕ → K → Option P × ProfileStore K P
  unfolding sweep claim_entry
  claim s now token =
      let swept = sweep s now in claim_entry swept now token (lookup token swept.entries)

  deposit_entry : ProfileStore K P → ℕ → K → P → Option (Entry P) → ProfileStore K P
  deposit_entry s now token payload none = s
  deposit_entry s now token payload (some x) = elim (x.slot) [
    | in_flight ↦ record s {
      entries = insert token (record { slot = ready payload; at = now }) s.entries;
    }
    | pending old ↦ s
    | ready old ↦ s
  ]

  -- The one write that does not sweep first, with `finish_without_result`.
  unfoldable pub deposit_result : ProfileStore K P → ℕ → K → P → ProfileStore K P
  unfolding deposit_entry
  deposit_result s now token payload = deposit_entry s now token payload (lookup token s.entries)

  pick_entry : ProfileStore K P → K → Option (Entry P) → Option P × ProfileStore K P
  pick_entry s token none = (none, s)
  pick_entry s token (some x) = elim (x.slot) [
    | ready payload ↦ (some payload, record s { entries = remove token s.entries })
    | pending old ↦ (none, s)
    | in_flight ↦ (none, s)
  ]

  unfoldable pub pick_up : ProfileStore K P → ℕ → K → Option P × ProfileStore K P
  unfolding sweep pick_entry
  pick_up s now token =
      let swept = sweep s now in pick_entry swept token (lookup token swept.entries)

  finish_entry : ProfileStore K P → K → Option (Entry P) → ProfileStore K P
  finish_entry s token none = s
  finish_entry s token (some x) = elim (x.slot) [
    | in_flight ↦ record s { entries = remove token s.entries }
    | pending old ↦ s
    | ready old ↦ s
  ]

  unfoldable pub finish_without_result : ProfileStore K P → K → ProfileStore K P
  unfolding finish_entry
  finish_without_result s token = finish_entry s token (lookup token s.entries)
