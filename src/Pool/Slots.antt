-- ===== src/Pool/Slots.antt =====
-- pool.rs: session slots, as permits of the semaphore and as claims that hold them.
use browserserve.Common.{
  ℕ, zero, suc, ◌+◌, ◌-◌, ◌≤◌, max, Bool, true, Option, none, some, List, [], ◌∷◌, length, ◌≡◌,
  refl, sym, subst, ◌∙◌, ◌⊎◌, arith, inl, inr, Option-cases,
}
use browserserve.Pool.Semaphore.{
  Semaphore, SemaphoreLaws, TryAcquire, closed, no_permits, permit, Tried,
}
use browserserve.Pool.State.{PoolOptions, stats}
use browserserve.Pool.World.{
  World, Place, Task, culling, Event, try_slot, join, test_bound, get_slot, leave, look, dedicate,
  launched, cancel, release, finish_release, finish_discard, closes, resizes, replenish, wake,
  created_warm, parked, pick, start,
}
use browserserve.Pool.Steps.{
  step, run, take_permit, enter_line, serve_place, look_warm, hand_out, begin_destroy,
  finish_destroy, replenish_from,
}
use browserserve.Pool.Tally.{length-pick}

module _ (k : Semaphore) {S : Type 0} where
  -- Slots that claims hold: before a session, with one, and until its destruction is over.
  abbrev pub held : World k.Sem S → ℕ
  held w = w.slotted + w.launching_inline + length w.claimed + length w.destroying

  -- Slots in use, those lost to dropped launches among them, and free ones.
  abbrev pub slots : World k.Sem S → ℕ
  slots w = k.available_permits w.pool.semaphore + held w + w.cancelled

module _ (k : Semaphore) (laws : SemaphoreLaws k) {S : Type 0} where
  -- A piece that moves slots about and loses none.
  abbrev pub Keeps : World k.Sem S → World k.Sem S → Type 0
  Keeps w v = (slots k v ≡ slots k w) × (v.pool.max_sessions ≡ w.pool.max_sessions)

  take_permit-Keeps :
      (w : World k.Sem S) (t : TryAcquire k.Sem)
      → Tried k w.pool.semaphore t
      → Keeps w (take_permit k w t)
  unfolding take_permit
  take_permit-Keeps w closed h = ground arith
  take_permit-Keeps w no_permits h = ground arith
  take_permit-Keeps w (permit s) h = ground arith

  serve_place-Keeps :
      (w : World k.Sem S) (o : Option (Place × List Place)) (t : TryAcquire k.Sem)
      → Tried k w.pool.semaphore t
      → Keeps w (serve_place k w o t)
  unfolding serve_place
  serve_place-Keeps w (some (p, rest)) (permit s) h = ground arith
  serve_place-Keeps w none t h = ground arith
  serve_place-Keeps w (some (p, rest)) t h = ground arith

  begin_destroy-Keeps : (w : World k.Sem S) (i : ℕ) → Keeps w (begin_destroy k w (pick i w.claimed))
  unfolding begin_destroy
  begin_destroy-Keeps w i = elim (Option-cases (pick i w.claimed)) [
    | inl missing ↦ rw missing (ground arith)
    | inr ((s, rest), found) ↦ rw found (ground (arith, length-pick i w.claimed s rest found))
  ]

  finish_destroy-Keeps :
      (w : World k.Sem S) (i : ℕ) → Keeps w (finish_destroy k w (pick i w.destroying))
  unfolding finish_destroy
  finish_destroy-Keeps w i = elim (Option-cases (pick i w.destroying)) [
    | inl missing ↦ rw missing (ground arith)
    | inr ((s, rest), found) ↦ rw found (
        ground (
          arith,
          length-pick i w.destroying s rest found,
          laws.available-add_permits w.pool.semaphore 1,
        ))
  ]

  hand_out-Keeps :
      (w : World k.Sem S) (n : ℕ) (r : Option S)
      → w.launching_inline ≡ n
      → Keeps w (hand_out k w n r)
  unfolding hand_out
  hand_out-Keeps w zero r e = ground arith
  hand_out-Keeps w (suc n) none e = ground (arith, laws.available-add_permits w.pool.semaphore 1)
  hand_out-Keeps w (suc n) (some s) e = ground arith

  look_warm-Keeps :
      (w : World k.Sem S) (alive : Bool) (n : ℕ) → w.slotted ≡ n → Keeps w (look_warm k w alive n)
  unfolding look_warm
  look_warm-Keeps w alive zero e = ground arith
  look_warm-Keeps w alive (suc n) e = ground arith

  replenish-Keeps :
      (w : World k.Sem S) (t : Task S) (is_alive : S → Bool) (now : ℕ)
      → Keeps w (replenish_from k w t is_alive now)
  unfolding replenish_from
  replenish-Keeps w (culling []) is_alive now = ground arith
  replenish-Keeps w _ is_alive now = ground arith

  -- Every event but a resize, whatever task it names.
  pub step-Keeps :
      (w : World k.Sem S) (e : Event S) → Keeps w (step k w e) ⊎ ((n : ℕ) × (e ≡ resizes n))
  unfolding step
  step-Keeps w try_slot = inl (take_permit-Keeps w _ (laws.try_acquire-Tried w.pool.semaphore))
  step-Keeps w join = inl (enter w.refused)
    where
      enter : (n : ℕ) → Keeps w (enter_line k w n)
      enter zero = ground arith
      enter (suc n) = ground arith
  step-Keeps w (test_bound i) = inl (ground arith)
  step-Keeps w (get_slot i) =
      inl (serve_place-Keeps w (pick i w.line) _ (laws.try_acquire-Tried w.pool.semaphore))
  step-Keeps w (leave i) = inl (ground arith)
  step-Keeps w (look alive) = inl (look_warm-Keeps w alive w.slotted refl)
  step-Keeps w dedicate = inl (ground arith)
  step-Keeps w (launched r) = inl (hand_out-Keeps w w.launching_inline r refl)
  step-Keeps w cancel = inl (ground arith)
  step-Keeps w (release i) = inl (begin_destroy-Keeps w i)
  step-Keeps w (finish_release i) = inl (finish_destroy-Keeps w i)
  step-Keeps w (finish_discard i) = inl (ground arith)
  step-Keeps w closes = inl (ground (arith, laws.available-close w.pool.semaphore))
  step-Keeps w (resizes n) = inr (n, refl)
  step-Keeps w (replenish is_alive now) = inl (replenish-Keeps w w.task is_alive now)
  step-Keeps w wake = inl (ground arith)
  step-Keeps w (created_warm r) = inl (ground arith)
  step-Keeps w (parked now) = inl (ground arith)

  -- A resize finds free all the permits that it is to forget.
  abbrev pub ShrinksFree : World k.Sem S → Event S → Type 0
  ShrinksFree w (resizes n) = w.pool.max_sessions - max n 1 ≤ k.available_permits w.pool.semaphore
  ShrinksFree w _ = Unit {0}

  abbrev pub AllShrinkFree : World k.Sem S → List (Event S) → Type 0
  AllShrinkFree w [] = Unit {0}
  AllShrinkFree w (e ∷ es) = ShrinksFree w e × AllShrinkFree (step k w e) es

  resize-slots :
      (w : World k.Sem S) (n : ℕ)
      → slots k w ≡ w.pool.max_sessions
      → ShrinksFree w (resizes n)
      → slots k (step k w (resizes n)) ≡ (step k w (resizes n)).pool.max_sessions
  unfolding step
  resize-slots w n e free = ground (
    arith,
    laws.available-add_permits w.pool.semaphore (max n 1 - w.pool.max_sessions),
    laws.available-forget_permits w.pool.semaphore (w.pool.max_sessions - max n 1),
  )

  pub step-slots :
      (w : World k.Sem S) (e : Event S)
      → slots k w ≡ w.pool.max_sessions
      → ShrinksFree w e
      → slots k (step k w e) ≡ (step k w e).pool.max_sessions
  step-slots w e balanced free = elim (step-Keeps w e) [
    | inl kept ↦ kept.0 ∙ balanced ∙ sym kept.1
    | inr (n, at) ↦
        subst (λ v. slots k (step k w v) ≡ (step k w v).pool.max_sessions) (sym at)
          (resize-slots w n balanced (subst (ShrinksFree w) at free))
  ]

  pub run-balanced :
      (w : World k.Sem S) (es : List (Event S))
      → slots k w ≡ w.pool.max_sessions
      → AllShrinkFree w es
      → slots k (run k w es) ≡ (run k w es).pool.max_sessions
  unfolding run
  run-balanced w [] balanced free = balanced
  run-balanced w (e ∷ es) balanced free =
      run-balanced (step k w e) es (step-slots w e balanced free.0) free.1

  -- In any interleaving the free permits, the slots that claims hold and those lost to claims
  -- dropped during their launch add up to the ceiling, so the claims never exceed it; as long as
  -- a resize never has to forget more permits than are free.
  pub run-slots :
      (o : PoolOptions) (es : List (Event S))
      → AllShrinkFree (start k o) es
      → k.available_permits (run k (start k o) es).pool.semaphore
          + held k (run k (start k o) es)
          + (run k (start k o) es).cancelled
        ≡ (run k (start k o) es).pool.max_sessions
  unfolding start
  run-slots o es =
      run-balanced (start k o) es (ground (arith, laws.available-with_permits o.max_sessions))

  -- While the pool accepts claims, `stats` reports as running just the slots that claims hold,
  -- those of dropped launches among them; in any interleaving, as in `run-slots`.
  run-running :
      (o : PoolOptions) (es : List (Event S))
      → AllShrinkFree (start k o) es
      → (stats k (run k (start k o) es).pool).accepting ≡ true
      → (stats k (run k (start k o) es).pool).running
        ≡ held k (run k (start k o) es) + (run k (start k o) es).cancelled
  unfolding stats
  run-running o es free accepts = ground (arith, run-slots o es free)
