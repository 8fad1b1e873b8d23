-- ===== src/Pool/Sessions.antt =====
-- pool.rs: where each session is, under any interleaving.
use browserserve.Common.{
  ℕ, ◌+◌, Bool, List, [], ◌∷◌, ◌++◌, ◌≡◌, refl, arith, inl, inr, Option-cases,
}
use browserserve.Pool.Semaphore.{Semaphore}
use browserserve.Pool.State.{PoolOptions, Warm, sessions, cull_from}
use browserserve.Pool.World.{
  World, Task, top, culling, parks, discards, Event, release, finish_release, finish_discard,
  closes, replenish, parked, pick, start,
}
use browserserve.Pool.Steps.{step, run, replenish_from, park_from}
use browserserve.Pool.Tally.{tally, tally-append, tally-pick}

module _ {S : Type 0} (p : S → Bool) where
  abbrev pub in_task : Task S → ℕ
  in_task (culling ss) = tally p ss
  in_task (parks s) = tally p (s ∷ [])
  in_task (discards s) = tally p (s ∷ [])
  in_task _ = 0

  sessions-append :
      (ws : List (Warm S)) (w : Warm S)
      → tally p (sessions (ws ++ w ∷ [])) ≡ tally p (sessions ws) + tally p (w.session ∷ [])
  sessions-append [] w = omega arith
  sessions-append (x ∷ ws) w = omega (arith, sessions-append ws w)

  cull_from-tally :
      (o : PoolOptions) (is_alive : S → Bool) (now kept : ℕ) (ws : List (Warm S))
      → tally p (sessions (cull_from o is_alive now kept ws).kept)
          + tally p (cull_from o is_alive now kept ws).removed
        ≡ tally p (sessions ws)
  unfolding cull_from
  cull_from-tally o is_alive now kept [] = refl
  cull_from-tally o is_alive now kept (w ∷ ws) =
      ground (
        arith,
        cull_from-tally o is_alive now kept ws,
        cull_from-tally o is_alive now (kept + 1) ws,
      )

  module _ (k : Semaphore) where
    -- The sessions that pass the test, wherever they stand.
    abbrev pub placed : World k.Sem S → ℕ
    placed w =
        tally p (sessions w.pool.warm)
        + tally p w.claimed
        + tally p w.destroying
        + tally p w.discarding
        + tally p w.destroyed
        + in_task w.task

    abbrev pub Accounted : World k.Sem S → Type 0
    Accounted w = placed w ≡ tally p w.created

    replenish-Accounted :
        (w : World k.Sem S) (t : Task S) (is_alive : S → Bool) (now : ℕ)
        → w.task ≡ t
        → Accounted w
        → Accounted (replenish_from k w t is_alive now)
    unfolding replenish_from
    replenish-Accounted w top is_alive now e a =
        ground (arith, cull_from-tally w.pool.options is_alive now 0 w.pool.warm)
    replenish-Accounted w (culling []) is_alive now e a = ground arith
    replenish-Accounted w _ is_alive now e a = ground arith

    park-Accounted :
        (w : World k.Sem S) (t : Task S) (now : ℕ)
        → w.task ≡ t
        → Accounted w
        → Accounted (park_from k w t now)
    unfolding park_from
    park-Accounted w (parks s) now e a =
        ground (arith, sessions-append w.pool.warm (record { session = s; ready_at = now }))
    park-Accounted w _ now e a = ground arith

    take-Accounted : (w : World k.Sem S) (e : Event S) → Accounted w → Accounted (step k w e)
    unfolding step
    take-Accounted w (release i) a = elim (Option-cases (pick i w.claimed)) [
      | inl missing ↦ rw missing a
      | inr ((s, rest), found) ↦ rw found (ground (arith, tally-pick p i w.claimed s rest found))
    ]
    take-Accounted w (finish_release i) a = elim (Option-cases (pick i w.destroying)) [
      | inl missing ↦ rw missing a
      | inr ((s, rest), found) ↦ rw found (ground (arith, tally-pick p i w.destroying s rest found))
    ]
    take-Accounted w (finish_discard i) a = elim (Option-cases (pick i w.discarding)) [
      | inl missing ↦ rw missing a
      | inr ((s, rest), found) ↦ rw found (ground (arith, tally-pick p i w.discarding s rest found))
    ]
    take-Accounted w closes a = ground (arith, tally-append p (sessions w.pool.warm) w.discarding)
    take-Accounted w (replenish is_alive now) a = replenish-Accounted w w.task is_alive now refl a
    take-Accounted w (parked now) a = park-Accounted w w.task now refl a
    take-Accounted w _ a = ground arith

    run-Accounted : (w : World k.Sem S) (es : List (Event S)) → Accounted w → Accounted (run k w es)
    unfolding run
    run-Accounted w [] a = a
    run-Accounted w (e ∷ es) a = run-Accounted (step k w e) es (take-Accounted w e a)

    -- In any interleaving every session that the factory created stands in exactly one place, as
    -- often as it was created: warm, claimed, being destroyed for a claim or in the background,
    -- in the hands of the replenisher, or destroyed. (The test picks out any set of sessions.)
    pub run-placed :
        (o : PoolOptions) (es : List (Event S))
        → placed (run k (start k o) es) ≡ tally p (run k (start k o) es).created
    unfolding start
    run-placed o es = run-Accounted (start k o) es refl
