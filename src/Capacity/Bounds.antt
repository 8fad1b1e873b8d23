-- ===== src/Capacity/Bounds.antt =====
-- The range of the computed ceiling, and what it promises of the host's limits.
use browserserve.Common.{
  ℕ, ◌*◌, ◌/◌, ◌≤◌, max, Bool, true, false, Option, none, some, ◌≡◌, ◌↔◌, ◌⊎◌, ◌+◌, arith,
}
use browserserve.Capacity.{
  HostLimits, SessionFootprint, Bound, memory, pids, cpu, measured, ThreadUsage, fits_a_session,
  compute, consider, share, best_bound, derive_ceiling, auto_ceiling, sessions_per_cpu, usable_den,
  usable_num, session_thread_reserve,
}

-- The ceiling is never zero and never above 256, whatever the host reports.
pub compute_range :
    (limits : HostLimits) (footprint : Option SessionFootprint)
    → (1 ≤ (compute limits footprint).max_sessions)
      × ((compute limits footprint).max_sessions ≤ auto_ceiling)
unfolding compute
compute_range limits footprint = ground arith

-- n sessions of this cost stay within 4/5 of the limit; an unknown limit allows any number.
abbrev pub Allows : Option ℕ → ℕ → ℕ → Type 0
Allows none cost n = 0 ≤ n
Allows (some ceiling) cost n = n * cost ≤ ceiling / usable_den * usable_num

abbrev AtMost : ℕ → Option ℕ → Type 0
AtMost n none = 0 ≤ n
AtMost n (some v) = n ≤ v

-- What the label says of the limits: the named constraint gives the unclamped ceiling.
abbrev pub Explains : HostLimits → SessionFootprint → ℕ × Bound → Type 0
Explains limits fp (v, memory) = share limits.mem_ceiling_bytes fp.bytes ≡ some v
Explains limits fp (v, pids) = share limits.pids_max fp.threads ≡ some v
Explains limits fp (v, cpu) = v ≡ max limits.cpus 1 * sessions_per_cpu
Explains limits fp (v, measured) = ⊥

-- The label names the constraint whose value is the ceiling before it is clamped; it is never
-- the label of a calibrated ceiling.
best_bound-Explains :
    (limits : HostLimits) (fp : SessionFootprint) → Explains limits fp (best_bound limits fp)
unfolding best_bound consider
best_bound-Explains limits fp = ground arith

-- A calibrated ceiling is at least one and at least the sessions that kept recording. Unless
-- every session of a full ramp did, it is exactly that number (or one), under the label
-- `measured`; if they did, it is also at least the ceiling computed from the limits.
pub derive_ceiling_lem :
    (sustained : ℕ) (clean_cap : Bool) (footprint : Option SessionFootprint) (limits : HostLimits)
    → let c = derive_ceiling sustained clean_cap footprint limits in
      (1 ≤ c.max_sessions)
      × (sustained ≤ c.max_sessions)
      × (((clean_cap ≡ true) × ((compute limits footprint).max_sessions ≤ c.max_sessions))
          ⊎ ((clean_cap ≡ false) × (c.max_sessions ≡ max sustained 1) × (c.bound_by ≡ measured)))
unfolding derive_ceiling
derive_ceiling_lem sustained clean_cap footprint limits = ground arith

-- A session fits exactly when starting its 160 threads stays within the container's limit.
pub fits_a_session_iff :
    (u : ThreadUsage)
    → (fits_a_session u ≡ true) ↔ (u.current + session_thread_reserve ≤ u.max_threads)
unfolding fits_a_session
fits_a_session_iff u = ground arith
