-- ===== src/Pool/Examples.antt =====
-- Runs of the pool at concrete inputs, over a semaphore that is a number and a flag.
use browserserve.Common.{
  ℕ, zero, suc, ◌+◌, ◌-◌, ◌≤◌, ◌<◌, Bool, true, false, not, some, List, [], ◌∷◌, length, ◌≡◌, refl,
  arith, ◌==◌,
}
use browserserve.Pool.Semaphore.{
  Semaphore, SemaphoreLaws, TryAcquire, closed, no_permits, permit, Tried,
}
use browserserve.Pool.State.{Inner, PoolOptions, sessions, cull_warm, stats, expires}
use browserserve.Pool.World.{
  World, Event, try_slot, join, test_bound, get_slot, look, launched, cancel, release, closes,
  resizes, replenish, wake, created_warm, parked, start,
}
use browserserve.Pool.Steps.{step, run}
use browserserve.Pool.Slots.{held}
use browserserve.Pool.State.{wanted, park}
use browserserve.Pool.Slots.{run-slots}
use browserserve.Pool.Losses.{cancel-loses_slot}
use browserserve.Pool.Waiting.{run-waiters}
use browserserve.Pool.Queue.{waiters}
use browserserve.Pool.Sessions.{placed, run-placed}
use browserserve.Pool.Closing.{close-Winds, close_strands, Closed}
use browserserve.Pool.Cull.{wanted-park}

abbrev pub counter_take : ℕ × Bool → TryAcquire (ℕ × Bool)
counter_take (n, true) = closed
counter_take (zero, false) = no_permits
counter_take (suc n, false) = permit (n, false)

abbrev pub counter : Semaphore
counter = record {
  Sem = ℕ × Bool;
  with_permits = λ n. (n, false);
  available_permits = λ s. s.0;
  is_closed = λ s. s.1;
  try_acquire = counter_take;
  add_permits = λ s n. (s.0 + n, s.1);
  forget_permits = λ s n. (s.0 - n, s.1);
  close = λ s. (s.0, true);
}

counter-Tried : (s : ℕ × Bool) → Tried counter s (counter_take s)
counter-Tried (n, true) = refl
counter-Tried (zero, false) = (refl, refl)
counter-Tried (suc n, false) = (refl, refl, refl)

pub counter_laws : SemaphoreLaws counter
counter_laws = record {
  available-with_permits = λ n. refl;
  is_closed-with_permits = λ n. refl;
  try_acquire-Tried = counter-Tried;
  available-add_permits = λ s n. refl;
  is_closed-add_permits = λ s n. refl;
  available-forget_permits = λ s n. refl;
  is_closed-forget_permits = λ s n. refl;
  available-close = λ s. refl;
  is_closed-close = λ s. refl;
}

abbrev options : PoolOptions
options = record {
  min_ready = 1;
  max_sessions = 2;
  max_queue = 1;
  queue_timeout = 200;
  warm_idle = 1000;
  warm_max_age = 5000;
}

abbrev always : ℕ → Bool
always s = true

-- The replenisher parks session 1; two claims take both slots, the second launching session 2;
-- a third is queued, a fourth finds the queue full; session 1 is released.
abbrev busy : List (Event ℕ)
busy =
    replenish always 0
    ∷ replenish always 0
    ∷ created_warm (some 1)
    ∷ parked 5
    ∷ try_slot
    ∷ look true
    ∷ try_slot
    ∷ look true
    ∷ launched (some 2)
    ∷ try_slot
    ∷ join
    ∷ test_bound 0
    ∷ try_slot
    ∷ join
    ∷ test_bound 0
    ∷ release 1
    ∷ resizes 3
    ∷ []

busy_world :
    let w = run counter (start counter options) busy in
    (w.claimed ≡ 2 ∷ [])
    × (w.destroying ≡ 1 ∷ [])
    × (w.pool.warm ≡ [])
    × (w.pool.waiting ≡ 2)
    × (waiters w.line ≡ 1)
    × (w.pool.max_sessions ≡ 3)
unfolding run start step
busy_world = (refl, refl, refl, refl, refl, refl)

abbrev after_busy : World (ℕ × Bool) ℕ
after_busy = run counter (start counter options) busy

run-slots_example :
    counter.available_permits after_busy.pool.semaphore
      + held counter after_busy
      + after_busy.cancelled
    ≡ after_busy.pool.max_sessions
unfolding run start step
run-slots_example = run-slots counter counter_laws options busy (omega arith)

-- Two claims launch inline and one of them is dropped.
abbrev two_launches : List (Event ℕ)
two_launches = try_slot ∷ look true ∷ try_slot ∷ look true ∷ []

cancel-loses_slot_example :
    let w =
      run counter
        (run counter (start counter options) two_launches)
        (cancel ∷ launched (some 4) ∷ try_slot ∷ []) in
    counter.available_permits w.pool.semaphore + held counter w < w.pool.max_sessions
unfolding run start step
cancel-loses_slot_example =
    cancel-loses_slot counter counter_laws options two_launches (launched (some 4) ∷ try_slot ∷ [])
      1 (omega arith) refl (omega arith)

run-waiters_example :
    (waiters after_busy.line ≤ 1) × (after_busy.pool.waiting ≡ length after_busy.line)
run-waiters_example = run-waiters counter options busy

run-placed_example : placed always counter after_busy ≡ 2
unfolding run start step
run-placed_example = run-placed always counter options busy

close-Winds_example :
    let w = run counter after_busy (closes ∷ try_slot ∷ get_slot 1 ∷ []) in
    Closed counter counter_laws w
    × (held counter w ≤ held counter after_busy)
    × ((stats counter w.pool).accepting ≡ false)
close-Winds_example = close-Winds counter counter_laws after_busy (try_slot ∷ get_slot 1 ∷ [])

-- The replenisher has launched session 9 and found the pool open.
abbrev about_to_park : World (ℕ × Bool) ℕ
about_to_park =
    run counter (start counter options)
      (replenish always 0 ∷ replenish always 0 ∷ created_warm (some 9) ∷ [])

close_strands_example :
    (run counter about_to_park
      (closes ∷ parked 5 ∷ replenish always 6 ∷ wake ∷ replenish always 9 ∷ [])).pool.warm
    ≡ record { session = 9; ready_at = 5 } ∷ []
unfolding run start step
close_strands_example =
    close_strands counter counter_laws about_to_park 9 5 6 always (wake ∷ replenish always 9 ∷ [])
      refl refl ((λ e. cc), ((λ e. cc), tt))

-- A dead session, one past the age limit, a fresh one, and two that were idle for long.
abbrev stock : Inner (ℕ × Bool) ℕ
stock = record (start counter options).pool {
  warm =
      record { session = 1; ready_at = 8000 }
      ∷ record { session = 2; ready_at = 1000 }
      ∷ record { session = 3; ready_at = 8500 }
      ∷ record { session = 4; ready_at = 5000 }
      ∷ record { session = 5; ready_at = 6000 }
      ∷ [];
}

cull_warm-stock : sessions (cull_warm counter stock (λ s. not (s == 1)) 9000).0.warm ≡ 3 ∷ []
unfolding cull_warm start expires
cull_warm-stock = refl

wanted-park_example :
    wanted counter (park counter (start counter {S = ℕ} options).pool 3 10)
    ≡ wanted counter (start counter {S = ℕ} options).pool - 1
wanted-park_example = wanted-park counter (start counter {S = ℕ} options).pool 3 10
