-- ===== src/Pool/Closing.antt =====
-- pool.rs: `close`, and the sessions that it does not drain.
use browserserve.Common.{
  ℕ, zero, suc, ◌-◌, ◌≤◌, max, Bool, true, false, Option, none, some, List, [], ◌∷◌, ◌≡◌, refl, ◌≢◌,
  arith, inl, inr, Option-cases,
}
use browserserve.Pool.Semaphore.{
  Semaphore, SemaphoreLaws, TryAcquire, closed, no_permits, permit, Tried,
}
use browserserve.Pool.State.{Warm, stats}
use browserserve.Pool.World.{
  World, Place, parks, stopped, Event, try_slot, join, get_slot, look, launched, release,
  finish_release, closes, resizes, replenish, parked, pick,
}
use browserserve.Pool.Steps.{step, run, take_permit, serve_place, look_warm, hand_out}
use browserserve.Pool.Tally.{length-pick}
use browserserve.Pool.Slots.{held}

module _ (k : Semaphore) (laws : SemaphoreLaws k) {S : Type 0} where
  abbrev pub Closed : World k.Sem S → Type 0
  Closed w = k.is_closed w.pool.semaphore ≡ true

  take_permit-Closed :
      (w : World k.Sem S) (t : TryAcquire k.Sem)
      → Tried k w.pool.semaphore t
      → Closed w
      → (take_permit k w t ≡ w)
  unfolding take_permit
  take_permit-Closed w closed h c = refl
  take_permit-Closed w no_permits h c = ground arith
  take_permit-Closed w (permit s) h c = ground arith

  serve_place-Closed :
      (w : World k.Sem S) (o : Option (Place × List Place)) (t : TryAcquire k.Sem)
      → Tried k w.pool.semaphore t
      → Closed w
      → (serve_place k w o t ≡ w)
  unfolding serve_place
  serve_place-Closed w (some (p, rest)) (permit s) h c = ground arith
  serve_place-Closed w none t h c = refl
  serve_place-Closed w (some (p, rest)) t h c = refl

  -- On a closed pool no task gets a new slot, and it stays closed.
  abbrev pub Winds : World k.Sem S → World k.Sem S → Type 0
  Winds w v = Closed v × (held k v ≤ held k w)

  step-Winds : (w : World k.Sem S) (e : Event S) → Closed w → Winds w (step k w e)
  unfolding step
  step-Winds w try_slot c =
      rw (take_permit-Closed w _ (laws.try_acquire-Tried w.pool.semaphore) c) (ground arith)
  step-Winds w (get_slot i) c =
      rw (serve_place-Closed w (pick i w.line) _ (laws.try_acquire-Tried w.pool.semaphore) c)
        (ground arith)
  step-Winds w (launched r) c = handed w.launching_inline refl
    where
      handed : (n : ℕ) → w.launching_inline ≡ n → Winds w (hand_out k w n r)
      handed zero e = ground arith
      handed (suc n) e = ground (arith, laws.is_closed-add_permits w.pool.semaphore 1)
  step-Winds w (look alive) c = looked w.slotted refl
    where
      looked : (n : ℕ) → w.slotted ≡ n → Winds w (look_warm k w alive n)
      looked zero e = ground arith
      looked (suc n) e = ground arith
  step-Winds w (release i) c = elim (Option-cases (pick i w.claimed)) [
    | inl missing ↦ rw missing (ground arith)
    | inr ((s, rest), found) ↦ rw found (ground (arith, length-pick i w.claimed s rest found))
  ]
  step-Winds w (finish_release i) c = elim (Option-cases (pick i w.destroying)) [
    | inl missing ↦ rw missing (ground arith)
    | inr ((s, rest), found) ↦ rw found (
        ground (
          arith,
          length-pick i w.destroying s rest found,
          laws.is_closed-add_permits w.pool.semaphore 1,
        ))
  ]
  step-Winds w closes c = ground (arith, laws.is_closed-close w.pool.semaphore)
  step-Winds w (resizes n) c = ground (
    arith,
    laws.is_closed-add_permits w.pool.semaphore (max n 1 - w.pool.max_sessions),
    laws.is_closed-forget_permits w.pool.semaphore (w.pool.max_sessions - max n 1),
  )
  step-Winds w _ c = ground arith

  run-Winds : (w : World k.Sem S) (es : List (Event S)) → Closed w → Winds w (run k w es)
  unfolding run
  run-Winds w [] c = (c, omega arith)
  run-Winds w (e ∷ es) c =
      let first = step-Winds w e c in
      let rest = run-Winds (step k w e) es first.0 in (rest.0, omega arith)

  -- From the call of `close` on, in any interleaving, the pool stays closed, no claim gets a slot
  -- (the claims that hold one only become fewer), and `stats` reports that it does not accept.
  pub close-Winds :
      (w : World k.Sem S) (es : List (Event S))
      → Closed (run k w (closes ∷ es))
        × (held k (run k w (closes ∷ es)) ≤ held k w)
        × ((stats k (run k w (closes ∷ es)).pool).accepting ≡ false)
  unfolding run step stats
  close-Winds w es =
      let rest = run-Winds (step k w closes) es (laws.is_closed-close w.pool.semaphore) in
      (rest.0, omega arith, ground arith)

  -- No second `close`, which would drain again.
  abbrev pub NoCloses : List (Event S) → Type 0
  NoCloses [] = Unit {0}
  NoCloses (e ∷ es) = (e ≢ closes) × NoCloses es

  -- The replenisher has left, and no claimer is about to look for a warm session.
  record Abandoned (ws : List (Warm S)) (w : World k.Sem S) : Type 0 where
    shut : Closed w
    task_is : w.task ≡ stopped
    none_looks : w.slotted ≡ 0
    warm_is : w.pool.warm ≡ ws

  step-Abandoned :
      (ws : List (Warm S)) (w : World k.Sem S) (e : Event S)
      → e ≢ closes
      → Abandoned ws w
      → Abandoned ws (step k w e)
  unfolding step
  step-Abandoned ws w try_slot n a =
      rw (take_permit-Closed w _ (laws.try_acquire-Tried w.pool.semaphore) a.shut) a
  step-Abandoned ws w (get_slot i) n a =
      rw (serve_place-Closed w (pick i w.line) _ (laws.try_acquire-Tried w.pool.semaphore) a.shut) a
  step-Abandoned ws w closes n a = absurd (n refl)
  step-Abandoned ws w (launched r) n a =
      ground (arith, laws.is_closed-add_permits w.pool.semaphore 1)
  step-Abandoned ws w (finish_release i) n a =
      ground (arith, laws.is_closed-add_permits w.pool.semaphore 1)
  step-Abandoned ws w (resizes m) n a = ground (
    arith,
    laws.is_closed-add_permits w.pool.semaphore (max m 1 - w.pool.max_sessions),
    laws.is_closed-forget_permits w.pool.semaphore (w.pool.max_sessions - max m 1),
  )
  step-Abandoned ws w (look alive) n a = ground arith
  step-Abandoned ws w (join) n a = ground arith
  step-Abandoned ws w _ n a = ground arith

  run-Abandoned :
      (ws : List (Warm S)) (w : World k.Sem S) (es : List (Event S))
      → NoCloses es
      → Abandoned ws w
      → Abandoned ws (run k w es)
  unfolding run
  run-Abandoned ws w [] n a = a
  run-Abandoned ws w (e ∷ es) n a =
      run-Abandoned ws (step k w e) es n.1 (step-Abandoned ws w e n.0 a)

  -- `close` between the replenisher's test of `is_closed` and its `push_back` strands the new
  -- session: with no claimer about to look, it stays in the warm list of the closed pool, through
  -- any events that follow but another `close`, which would drain the list again.
  pub close_strands :
      (w : World k.Sem S) (s : S) (now later : ℕ) (is_alive : S → Bool) (es : List (Event S))
      → w.task ≡ parks s
      → w.slotted ≡ 0
      → NoCloses es
      → (run k w (closes ∷ parked now ∷ replenish is_alive later ∷ es)).pool.warm
        ≡ record { session = s; ready_at = now } ∷ []
  unfolding run
  close_strands w s now later is_alive es at none_looks n =
      (run-Abandoned _ _ es n stranded).warm_is
    where
      stranded :
          Abandoned
            (record { session = s; ready_at = now } ∷ [])
            (step k (step k (step k w closes) (parked now)) (replenish is_alive later))
      stranded = unfold step in ground (arith, laws.is_closed-close w.pool.semaphore)
