-- ===== src/Capacity/Examples.antt =====
-- The session ceiling at concrete hosts.
use browserserve.Common.{◌*◌, ◌≤◌, none, some, ◌≡◌, refl, arith, true}
use browserserve.Capacity.{HostLimits, compute, memory, fits_a_session}
use browserserve.Capacity.Bounds.{compute_range, fits_a_session_iff}

-- 8 GiB, no thread limit, 16 CPUs, before any measurement: 8 sessions by memory.
abbrev host : HostLimits
host = record { mem_ceiling_bytes = some (8 * 1024 * 1024 * 1024); pids_max = none; cpus = 16 }

compute-host : ((compute host none).max_sessions ≡ 8) × ((compute host none).bound_by ≡ memory)
unfolding compute
compute-host = (refl, refl)

compute_range_example :
    (1 ≤ (compute host none).max_sessions) × ((compute host none).max_sessions ≤ 256)
compute_range_example = compute_range host none

fits_a_session_iff_example : fits_a_session (record { current = 1000; max_threads = 1200 }) ≡ true
fits_a_session_iff_example =
    (fits_a_session_iff (record { current = 1000; max_threads = 1200 })).1 (omega arith)
