-- ===== src/Calibrate/Examples.antt =====
-- Tests of the calibration ramp, and inputs at which its properties apply.
use browserserve.Common.{
  ℕ, ◌+◌, ◌*◌, ◌≤◌, Bool, true, false, none, some, length, ◌≡◌, refl, ltb, leb, arith,
}
use browserserve.Capacity.{HostLimits, measured, cpu, derive_ceiling}
use browserserve.Calibrate.{
  Host, ramp_cap, count_where, crossed_memory_line, measure_footprint, widen, is_recording,
  spawn_recording_session, count_recording, ramp, calibrate,
}
use browserserve.Calibrate.Released.{calibrate-balanced, calibrate-extrapolates}

-- A host on which the sessions from the fifth on do not record.
abbrev small_host : Host ℕ
small_host = record {
  create = some;
  has_pipe = λ s. true;
  sets_up = λ s. ltb s 5;
  tree_rss_bytes = λ s. some (700 * 1024 * 1024);
  tree_thread_count = λ s. some (100 + s);
  used = λ n. some (n * 1024);
  frames_before = λ s. 3;
  frames_after = λ s. 3 + s;
}

abbrev large_host : Host ℕ
large_host = record small_host { sets_up = λ s. true }

-- On which the third session no longer draws.
abbrev starved_host : Host ℕ
starved_host = record large_host { frames_after = λ s. if_third (leb s 2) }
  where
    if_third : Bool → ℕ
    if_third true = 9
    if_third false = 3

abbrev limits : HostLimits
limits = record { mem_ceiling_bytes = some (64 * 1024 * 1024 * 1024); pids_max = none; cpus = 32 }

small_ceiling : (calibrate small_host limits).0 ≡ record { max_sessions = 4; bound_by = measured }
unfolding calibrate derive_ceiling ramp spawn_recording_session crossed_memory_line count_recording
    count_where widen measure_footprint
small_ceiling = refl

large_ceiling : (calibrate large_host limits).0 ≡ record { max_sessions = 64; bound_by = cpu }
unfolding calibrate derive_ceiling ramp spawn_recording_session crossed_memory_line count_recording
    count_where widen measure_footprint
large_ceiling = refl

starved_ceiling :
    (calibrate starved_host limits).0 ≡ record { max_sessions = 2; bound_by = measured }
unfolding calibrate derive_ceiling ramp spawn_recording_session crossed_memory_line count_recording
    count_where widen measure_footprint
starved_ceiling = refl

calibrate-balanced_example :
    (count_where (λ s. leb s 3) (calibrate small_host limits).1.destroyed
      ≡ count_where (λ s. leb s 3) (calibrate small_host limits).1.created)
    × (length (calibrate small_host limits).1.created ≤ ramp_cap)
calibrate-balanced_example = calibrate-balanced small_host limits (λ s. leb s 3)

calibrate-extrapolates_example :
    (length (calibrate large_host limits).1.created ≡ ramp_cap)
    × (count_where (is_recording large_host) (calibrate large_host limits).1.created ≡ ramp_cap)
unfolding calibrate derive_ceiling ramp spawn_recording_session crossed_memory_line count_recording
    count_where widen measure_footprint
calibrate-extrapolates_example = calibrate-extrapolates large_host limits (omega arith)
