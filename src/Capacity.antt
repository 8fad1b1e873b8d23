-- ===== src/Capacity.antt =====
-- capacity.rs and the ceiling of calibrate.rs: how many sessions the host can hold. Limits and
-- footprints are u64, `cpus` and `max_sessions` u32; the host files are read outside the model.
pub mod Bounds
mod Examples
use browserserve.Common.{
  ℕ, ◌*◌, ◌/◌, ◌-◌, ◌^◌, min, max, Bool, Option, none, some, ltb, leb, if◌then◌else◌,
}

pub record HostLimits : Type 0 where
  pub mem_ceiling_bytes : Option ℕ
  pub pids_max : Option ℕ
  pub cpus : ℕ

pub record SessionFootprint : Type 0 where
  pub bytes : ℕ
  pub threads : ℕ

-- `bound_by` is one of the string literals of the source.
pub data Bound : Type 0 where
  memory pids cpu measured : Bound

pub record Capacity : Type 0 where
  pub max_sessions : ℕ
  pub bound_by : Bound

abbrev pub usable_num : ℕ
usable_num = 4

abbrev pub usable_den : ℕ
usable_den = 5

abbrev pub sessions_per_cpu : ℕ
sessions_per_cpu = 2

abbrev pub auto_ceiling : ℕ
auto_ceiling = 256

abbrev pub session_estimate : SessionFootprint
session_estimate = record { bytes = 800 * 1024 * 1024; threads = 160 }

abbrev pub session_thread_reserve : ℕ
session_thread_reserve = session_estimate.threads

pub record ThreadUsage : Type 0 where
  pub current : ℕ
  pub max_threads : ℕ

-- `saturating_sub` is the subtraction of ℕ.
unfoldable pub headroom : ThreadUsage → ℕ
headroom u = u.max_threads - u.current

unfoldable pub fits_a_session : ThreadUsage → Bool
unfolding headroom
fits_a_session u = leb session_thread_reserve (headroom u)

-- The closure `consider`: the smaller value wins, and a tie keeps the earlier one.
pub consider : ℕ × Bound → Option ℕ → Bound → ℕ × Bound
consider best none label = best
consider best (some v) label = if ltb v best.0 then (v, label) else best

-- `ceiling / USABLE_DEN * USABLE_NUM / cost`, when the limit is known and the cost is not zero.
pub share : Option ℕ → ℕ → Option ℕ
share none cost = none
share (some ceiling) cost =
    if ltb 0 cost then some (ceiling / usable_den * usable_num / cost) else none

pub footprint_or_estimate : Option SessionFootprint → SessionFootprint
footprint_or_estimate none = session_estimate
footprint_or_estimate (some fp) = fp

abbrev pub clamp : ℕ → ℕ → ℕ → ℕ
clamp v lo hi = if ltb v lo then lo else if ltb hi v then hi else v

-- `u32::try_from(v).unwrap_or(1)`
abbrev pub to_u32_or_one : ℕ → ℕ
to_u32_or_one v = if ltb v (2 ^ 32) then v else 1

pub best_bound : HostLimits → SessionFootprint → ℕ × Bound
unfolding consider share
best_bound limits fp =
    consider
      (consider (max limits.cpus 1 * sessions_per_cpu, cpu)
        (share limits.mem_ceiling_bytes fp.bytes) memory)
      (share limits.pids_max fp.threads) pids

unfoldable pub compute : HostLimits → Option SessionFootprint → Capacity
unfolding best_bound footprint_or_estimate
compute limits footprint =
    let best = best_bound limits (footprint_or_estimate footprint) in
    record { max_sessions = to_u32_or_one (clamp best.0 1 auto_ceiling); bound_by = best.1 }

unfoldable pub derive_ceiling : ℕ → Bool → Option SessionFootprint → HostLimits → Capacity
unfolding compute
derive_ceiling sustained clean_cap footprint limits =
    if clean_cap
    then record {
      max_sessions = max (compute limits footprint).max_sessions (max sustained 1);
      bound_by = (compute limits footprint).bound_by;
    }
    else record { max_sessions = max sustained 1; bound_by = measured }
