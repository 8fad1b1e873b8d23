-- ===== src/Calibrate.antt =====
-- calibrate.rs: the ramp that measures how many recording sessions the host holds. The launches,
-- the page set-up, the footprints, the memory in use and the frame counters are read from outside.
pub mod Released
mod Examples
use browserserve.Common.{
  ℕ, zero, suc, ◌+◌, ◌*◌, ◌/◌, ◌-◌, ◌^◌, max, Bool, true, false, ◌&&◌, Option, none, some, List, [],
  ◌∷◌, ◌++◌, length, ltb, leb, ◌==◌, if◌then◌else◌,
}
use browserserve.Capacity.{HostLimits, SessionFootprint, Capacity, derive_ceiling}

abbrev pub ramp_cap : ℕ
ramp_cap = 12

abbrev pub mem_safety_num : ℕ
mem_safety_num = 85

abbrev pub mem_safety_den : ℕ
mem_safety_den = 100

pub data RampStop : Type 0 where
  launch_failed memory_line cap : RampStop

-- `stop == RampStop::Cap`
abbrev pub is_cap : RampStop → Bool
is_cap cap = true
is_cap _ = false

-- `filter(..).count()`
unfoldable pub count_where : {S : Type 0} → (S → Bool) → List S → ℕ
count_where test [] = 0
count_where test (s ∷ ss) = let rest = count_where test ss in if test s then suc rest else rest

-- `u32::try_from(n).unwrap_or(u32::MAX)`
abbrev pub to_u32_or_max : ℕ → ℕ
to_u32_or_max n = if ltb n (2 ^ 32) then n else 2 ^ 32 - 1

unfoldable pub measure_footprint : Option ℕ → Option ℕ → Option SessionFootprint
measure_footprint none threads = none
measure_footprint (some bytes) none = none
measure_footprint (some bytes) (some threads) =
    if ltb 0 bytes && ltb 0 threads
    then some (record { bytes = bytes; threads = threads })
    else none

unfoldable pub max_footprint : SessionFootprint → SessionFootprint → SessionFootprint
max_footprint a b = record { bytes = max a.bytes b.bytes; threads = max a.threads b.threads }

-- The largest footprint so far, with that of the last session when it could be measured.
unfoldable pub widen : Option SessionFootprint → Option SessionFootprint → Option SessionFootprint
unfolding max_footprint
widen footprint none = footprint
widen none (some fp) = some fp
widen (some prev) (some fp) = some (max_footprint prev fp)

unfoldable pub crossed_memory_line : Option ℕ → Option ℕ → Bool
crossed_memory_line none used = false
crossed_memory_line (some ceiling) none = false
crossed_memory_line (some ceiling) (some used) =
    leb (ceiling / mem_safety_den * mem_safety_num) used

-- What the factory and the host answer. `create n` is the session that the launch of step n gives,
-- if it does; `used n` the memory in use once that session has settled.
pub record Host (S : Type 0) : Type 0 where
  pub create : ℕ → Option S
  pub has_pipe : S → Bool
  pub sets_up : S → Bool
  pub tree_rss_bytes : S → Option ℕ
  pub tree_thread_count : S → Option ℕ
  pub used : ℕ → Option ℕ
  pub frames_before : S → ℕ
  pub frames_after : S → ℕ

-- The sessions that the factory has created, and those that were destroyed.
pub record Log (S : Type 0) : Type 0 where
  pub created : List S
  pub destroyed : List S

-- The variables of `calibrate`.
pub record Ramp (S : Type 0) : Type 0 where
  pub held : List S
  pub footprint : Option SessionFootprint
  pub stop : RampStop
  pub log : Log S

unfoldable pub destroy_one : {S : Type 0} → S → Log S → Log S
destroy_one s log = record log { destroyed = log.destroyed ++ (s ∷ []) }

unfoldable pub destroy_all : {S : Type 0} → List S → Log S → Log S
destroy_all [] log = log
destroy_all (s ∷ ss) log = destroy_all ss (destroy_one s log)

abbrev pub before_ramp : {S : Type 0} → Ramp S
before_ramp = record {
  held = [];
  footprint = none;
  stop = cap;
  log = record { created = []; destroyed = [] };
}

module _ {S : Type 0} (y : Host S) where
  -- After `factory.create`: the pipe and the set-up, or the session is destroyed.
  abbrev pub on_created : Option S → Log S → Option S × Log S
  on_created none log = (none, log)
  on_created (some s) log =
      let seen = record log { created = log.created ++ (s ∷ []) } in
      if y.has_pipe s
      then (if y.sets_up s then (some s, seen) else (none, destroy_one s seen))
      else (none, destroy_one s seen)

  unfoldable pub spawn_recording_session : ℕ → Log S → Option S × Log S
  spawn_recording_session n log = on_created (y.create n) log

  -- Whether the session's frame counter advances while it is probed.
  abbrev pub is_recording : S → Bool
  is_recording s = ltb (y.frames_before s) (y.frames_after s)

  unfoldable pub count_recording : List S → ℕ
  count_recording held = to_u32_or_max (count_where is_recording held)

module _ {S : Type 0} (y : Host S) (limits : HostLimits) where
  -- The rest of step n, `more` being the steps behind it.
  abbrev pub on_spawned : ℕ → Ramp S → Option S × Log S → (Ramp S → Ramp S) → Ramp S
  on_spawned n r (none, log) more = record r { stop = launch_failed; log = log }
  on_spawned n r (some s, log) more =
      let settled = record r {
        held = r.held ++ (s ∷ []);
        footprint =
            widen r.footprint (measure_footprint (y.tree_rss_bytes s) (y.tree_thread_count s));
        log = log;
      } in
      if crossed_memory_line limits.mem_ceiling_bytes (y.used n)
      then record settled { stop = memory_line }
      else more settled

  -- k more steps, from step n on.
  unfoldable pub ramp : ℕ → ℕ → Ramp S → Ramp S
  ramp zero n r = r
  ramp (suc k) n r =
      on_spawned n r (spawn_recording_session y n r.log) (λ settled. ramp k (suc n) settled)

  abbrev pub conclude : Ramp S → Capacity × Log S
  conclude r =
      let sustained = count_recording y r.held in
      let clean_cap = is_cap r.stop && (sustained == to_u32_or_max (length r.held)) in
      (derive_ceiling sustained clean_cap r.footprint limits, destroy_all r.held r.log)

  unfoldable pub calibrate : Capacity × Log S
  calibrate = conclude (ramp ramp_cap 1 before_ramp)
