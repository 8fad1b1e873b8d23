-- ===== src/Pool/Losses.antt =====
-- What resizes under load and dropped launches do to the slots.
use browserserve.Common.{
  ℕ, suc, ◌+◌, ◌-◌, ◌≤◌, ◌<◌, max, List, [], ◌∷◌, ◌≡◌, sym, subst, arith, inl, inr,
}
use browserserve.Pool.Semaphore.{Semaphore, SemaphoreLaws}
use browserserve.Pool.State.{PoolOptions}
use browserserve.Pool.World.{World, Task, culling, Event, cancel, resizes, replenish, start}
use browserserve.Pool.Steps.{step, run, replenish_from}
use browserserve.Pool.Slots.{
  held, slots, step-Keeps, AllShrinkFree, step-slots, run-balanced, run-slots,
}

module _ (k : Semaphore) (laws : SemaphoreLaws k) {S : Type 0} where
  step-covered :
      (w : World k.Sem S) (e : Event S)
      → w.pool.max_sessions ≤ slots k w
      → (step k w e).pool.max_sessions ≤ slots k (step k w e)
  step-covered w e covered = elim (step-Keeps k laws w e) [
    | inl kept ↦ omega arith
    | inr (n, at) ↦
        subst (λ v. (step k w v).pool.max_sessions ≤ slots k (step k w v)) (sym at) (resized n)
  ]
    where
      resized : (n : ℕ) → (step k w (resizes n)).pool.max_sessions ≤ slots k (step k w (resizes n))
      resized n =
          unfold step in
          ground (
            arith,
            laws.available-add_permits w.pool.semaphore (max n 1 - w.pool.max_sessions),
            laws.available-forget_permits w.pool.semaphore (w.pool.max_sessions - max n 1),
          )

  run-covered_from :
      (w : World k.Sem S) (es : List (Event S))
      → w.pool.max_sessions ≤ slots k w
      → (run k w es).pool.max_sessions ≤ slots k (run k w es)
  unfolding run
  run-covered_from w [] covered = covered
  run-covered_from w (e ∷ es) covered = run-covered_from (step k w e) es (step-covered w e covered)

  -- In any interleaving, resizes under load included, no slot is lost but by dropped launches: the
  -- free permits, the slots held and those lost that way cover the ceiling.
  run-covered :
      (o : PoolOptions) (es : List (Event S))
      → (run k (start k o) es).pool.max_sessions ≤ slots k (run k (start k o) es)
  unfolding start
  run-covered o es =
      run-covered_from (start k o) es (ground (arith, laws.available-with_permits o.max_sessions))

  step-cancelled : (w : World k.Sem S) (e : Event S) → w.cancelled ≤ (step k w e).cancelled
  unfolding step
  step-cancelled w (replenish is_alive now) = replenished w.task
    where
      replenished : (t : Task S) → w.cancelled ≤ (replenish_from k w t is_alive now).cancelled
      replenished (culling []) = ground arith
      replenished _ = ground arith
  step-cancelled w _ = ground arith

  run-cancelled : (w : World k.Sem S) (es : List (Event S)) → w.cancelled ≤ (run k w es).cancelled
  unfolding run
  run-cancelled w [] = omega arith
  run-cancelled w (e ∷ es) = omega (arith, step-cancelled w e, run-cancelled (step k w e) es)

  cancel-counts :
      (w : World k.Sem S) (n : ℕ) → w.launching_inline ≡ suc n → 0 < (step k w cancel).cancelled
  unfolding step
  cancel-counts w n e = ground arith

  -- A claim that is dropped during its inline launch takes its slot with it: from then on the slots
  -- in use and the free ones together stay below the ceiling, in any interleaving in which no resize,
  -- before or after, has to forget more permits than are free.
  pub cancel-loses_slot :
      (o : PoolOptions) (es fs : List (Event S)) (n : ℕ)
      → AllShrinkFree k laws (start k o) es
      → (run k (start k o) es).launching_inline ≡ suc n
      → AllShrinkFree k laws (step k (run k (start k o) es) cancel) fs
      → k.available_permits (run k (run k (start k o) es) (cancel ∷ fs)).pool.semaphore
          + held k (run k (run k (start k o) es) (cancel ∷ fs))
        < (run k (run k (start k o) es) (cancel ∷ fs)).pool.max_sessions
  unfolding run
  cancel-loses_slot o es fs n free launching later =
      let w = run k (start k o) es in
      let balanced =
        run-balanced k laws (step k w cancel) fs
          (step-slots k laws w cancel (run-slots k laws o es free) tt) later in
      omega (arith, balanced, cancel-counts w n launching, run-cancelled (step k w cancel) fs)
