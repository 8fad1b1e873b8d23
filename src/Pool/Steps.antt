-- ===== src/Pool/Steps.antt =====
-- The pieces of pool.rs's methods as they act on the world, one function for each, and `step`,
-- which runs the piece that an event names.
use browserserve.Common.{
  ℕ, zero, suc, Bool, true, false, Option, none, some, List, [], ◌∷◌, ◌++◌, length, ltb, ◌==◌,
  if◌then◌else◌,
}
use browserserve.Pool.Semaphore.{Semaphore, TryAcquire, closed, no_permits, permit}
use browserserve.Pool.State.{
  Inner, Warm, join_queue, queue_is_full, leave_queue, pop_warm, give_back, destroy_session, close,
  set_max_sessions, cull_warm, wanted, begin_launch, end_launch, park, usize_mod,
  retry_backoff_start, next_backoff,
}
use browserserve.Pool.World.{
  World, Place, Task, top, culling, idle, launches, backs_off, parks, discards, stopped, Event,
  try_slot, join, test_bound, get_slot, leave, look, dedicate, launched, cancel, release,
  finish_release, finish_discard, closes, resizes, replenish, wake, created_warm, parked, pick,
  admit,
}

module _ (k : Semaphore) {S : Type 0} where
  -- `semaphore.try_acquire()` in `acquire_slot`, then `permit.forget()`. `Closed` ends the claim.
  unfoldable pub take_permit : World k.Sem S → TryAcquire k.Sem → World k.Sem S
  take_permit w closed = w
  take_permit w no_permits = record w { refused = suc w.refused }
  take_permit w (permit s) = record w {
    pool = record (w.pool) { semaphore = s };
    slotted = suc w.slotted;
  }

  -- A refused claimer's `fetch_add`. There is room for fewer than 2^64 claimers.
  unfoldable pub enter_line : World k.Sem S → ℕ → World k.Sem S
  unfolding join_queue
  enter_line w zero = w
  enter_line w (suc n) =
      let joined = join_queue k w.pool in
      if ltb (suc (length w.line)) usize_mod
      then record w {
        pool = joined.0;
        refused = n;
        line = record { queued = joined.1; waits = false } ∷ w.line;
      }
      else w

  -- `queued > max_queue` refuses the claim, and its guard drops later.
  unfoldable pub test_place : World k.Sem S → ℕ → Option (Place × List Place) → World k.Sem S
  unfolding queue_is_full
  test_place w i none = w
  test_place w i (some (p, rest)) =
      if queue_is_full k w.pool p.queued then w else record w { line = admit i w.line }

  -- The wait in `semaphore.acquire()` ends with a permit, and the guard drops.
  unfoldable pub serve_place :
      World k.Sem S → Option (Place × List Place) → TryAcquire k.Sem → World k.Sem S
  unfolding leave_queue
  serve_place w (some (p, rest)) (permit s) =
      if p.waits
      then record w {
        pool = leave_queue k (record (w.pool) { semaphore = s });
        line = rest;
        slotted = suc w.slotted;
      }
      else w
  serve_place w _ _ = w

  -- `QueueFull`, `QueueTimeout`, `Closed` or a cancelled claim: the guard drops.
  unfoldable pub leave_place : World k.Sem S → Option (Place × List Place) → World k.Sem S
  unfolding leave_queue
  leave_place w none = w
  leave_place w (some (p, rest)) = record w { pool = leave_queue k w.pool; line = rest }

  -- One round of the loop in `claim`: a live session is handed out, a dead one is destroyed in
  -- the background, and with no warm session the claimer launches inline.
  unfoldable pub use_warm :
      World k.Sem S → ℕ → Bool → Option (Warm S) × Inner k.Sem S → World k.Sem S
  use_warm w n alive (none, p) = record w {
    pool = p;
    slotted = n;
    launching_inline = suc w.launching_inline;
  }
  use_warm w n true (some x, p) = record w {
    pool = p;
    slotted = n;
    claimed = x.session ∷ w.claimed;
  }
  use_warm w n false (some x, p) = record w { pool = p; discarding = x.session ∷ w.discarding }

  unfoldable pub look_warm : World k.Sem S → Bool → ℕ → World k.Sem S
  unfolding pop_warm use_warm
  look_warm w alive zero = w
  look_warm w alive (suc n) = use_warm w n alive (pop_warm k w.pool)

  -- `claim_with` launches a session of its own.
  unfoldable pub start_dedicated : World k.Sem S → ℕ → World k.Sem S
  start_dedicated w zero = w
  start_dedicated w (suc n) = record w { slotted = n; launching_inline = suc w.launching_inline }

  -- `hand_out`
  unfoldable pub hand_out : World k.Sem S → ℕ → Option S → World k.Sem S
  unfolding give_back
  hand_out w zero r = w
  hand_out w (suc n) none = record w { pool = give_back k w.pool; launching_inline = n }
  hand_out w (suc n) (some s) = record w {
    launching_inline = n;
    claimed = s ∷ w.claimed;
    created = s ∷ w.created;
  }

  -- A claim is dropped at the await of its launch: the permit was forgotten, and nothing adds it.
  unfoldable pub cancel_launch : World k.Sem S → ℕ → World k.Sem S
  cancel_launch w zero = w
  cancel_launch w (suc n) = record w { launching_inline = n; cancelled = suc w.cancelled }

  -- `destroy`, or the drop of a `Claimed`: the session is taken out once.
  unfoldable pub begin_destroy : World k.Sem S → Option (S × List S) → World k.Sem S
  begin_destroy w none = w
  begin_destroy w (some (s, rest)) = record w { claimed = rest; destroying = s ∷ w.destroying }

  unfoldable pub finish_destroy : World k.Sem S → Option (S × List S) → World k.Sem S
  unfolding destroy_session
  finish_destroy w none = w
  finish_destroy w (some (s, rest)) = record w {
    pool = destroy_session k w.pool;
    destroying = rest;
    destroyed = s ∷ w.destroyed;
  }

  unfoldable pub discard : World k.Sem S → Option (S × List S) → World k.Sem S
  discard w none = w
  discard w (some (s, rest)) = record w { discarding = rest; destroyed = s ∷ w.destroyed }

  unfoldable pub close_pool : World k.Sem S → World k.Sem S
  unfolding close
  close_pool w =
      let closing = close k w.pool in
      record w { pool = closing.0; discarding = closing.1 ++ w.discarding }

  -- After the cull: launch if a session is wanted, else wait.
  unfoldable pub decide : World k.Sem S → World k.Sem S
  unfolding wanted begin_launch
  decide w =
      if wanted k w.pool == 0
      then record w { task = idle }
      else record w { pool = begin_launch k w.pool; task = launches }

  -- The replenisher's next piece. At the top it leaves on a closed pool and culls otherwise.
  unfoldable pub replenish_from : World k.Sem S → Task S → (S → Bool) → ℕ → World k.Sem S
  unfolding cull_warm decide
  replenish_from w top is_alive now =
      if k.is_closed w.pool.semaphore
      then record w { task = stopped }
      else let culled = cull_warm k w.pool is_alive now in
        record w { pool = culled.0; task = culling culled.1 }
  replenish_from w (culling []) is_alive now = decide w
  replenish_from w (culling (s ∷ ss)) is_alive now = record w {
    task = culling ss;
    destroyed = s ∷ w.destroyed;
  }
  replenish_from w (discards s) is_alive now = record w {
    task = stopped;
    destroyed = s ∷ w.destroyed;
  }
  replenish_from w _ is_alive now = w

  -- A wait or a back-off ends; the back-off doubles after the sleep.
  unfoldable pub wake_from : World k.Sem S → Task S → World k.Sem S
  unfolding next_backoff
  wake_from w idle = record w { pool = record (w.pool) { notified = false }; task = top }
  wake_from w backs_off = record w { task = top; backoff = next_backoff w.backoff }
  wake_from w _ = w

  -- The replenisher's `create` returns: a session is destroyed if the pool was closed meanwhile.
  unfoldable pub create_from : World k.Sem S → Task S → Option S → World k.Sem S
  unfolding end_launch
  create_from w launches none = record w { pool = end_launch k w.pool; task = backs_off }
  create_from w launches (some s) = record w {
    pool = end_launch k w.pool;
    backoff = retry_backoff_start;
    task = if k.is_closed w.pool.semaphore then discards s else parks s;
    created = s ∷ w.created;
  }
  create_from w _ r = w

  unfoldable pub park_from : World k.Sem S → Task S → ℕ → World k.Sem S
  unfolding park
  park_from w (parks s) now = record w { pool = park k w.pool s now; task = top }
  park_from w _ now = w

  unfoldable pub step : World k.Sem S → Event S → World k.Sem S
  unfolding take_permit enter_line test_place serve_place leave_place look_warm start_dedicated
      hand_out cancel_launch begin_destroy finish_destroy discard close_pool set_max_sessions
      replenish_from wake_from create_from park_from pick
  step w try_slot = take_permit w (k.try_acquire w.pool.semaphore)
  step w join = enter_line w w.refused
  step w (test_bound i) = test_place w i (pick i w.line)
  step w (get_slot i) = serve_place w (pick i w.line) (k.try_acquire w.pool.semaphore)
  step w (leave i) = leave_place w (pick i w.line)
  step w (look alive) = look_warm w alive w.slotted
  step w dedicate = start_dedicated w w.slotted
  step w (launched r) = hand_out w w.launching_inline r
  step w cancel = cancel_launch w w.launching_inline
  step w (release i) = begin_destroy w (pick i w.claimed)
  step w (finish_release i) = finish_destroy w (pick i w.destroying)
  step w (finish_discard i) = discard w (pick i w.discarding)
  step w closes = close_pool w
  step w (resizes n) = record w { pool = set_max_sessions k w.pool n }
  step w (replenish is_alive now) = replenish_from w w.task is_alive now
  step w wake = wake_from w w.task
  step w (created_warm r) = create_from w w.task r
  step w (parked now) = park_from w w.task now

  unfoldable pub run : World k.Sem S → List (Event S) → World k.Sem S
  run w [] = w
  run w (e ∷ es) = run (step w e) es
