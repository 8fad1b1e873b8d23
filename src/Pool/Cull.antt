-- ===== src/Pool/Cull.antt =====
-- What `cull_warm` keeps, and when the replenisher launches.
use browserserve.Common.{
  ℕ, ◌+◌, ◌-◌, ◌≤◌, ◌<◌, min, Bool, true, not, ◌&&◌, List, [], ◌∷◌, length, ◌≡◌, refl, ◌↔◌,
  length-append, arith, leb, ltb,
}
use browserserve.Pool.Semaphore.{Semaphore}
use browserserve.Pool.State.{Inner, PoolOptions, Warm, cull_warm, wanted, park, cull_from, expires}
use browserserve.Pool.Tally.{tally}

module _ {S : Type 0} (o : PoolOptions) (is_alive : S → Bool) (now : ℕ) where
  abbrev age : Warm S → ℕ
  age w = now - w.ready_at

  -- Alive and below the age limit.
  abbrev pub fit : Warm S → Bool
  fit w = is_alive w.session && ltb (age w) o.warm_max_age

  -- Fit, and idle for so long that only `min_ready` of them may stay.
  abbrev pub idle_long : Warm S → Bool
  idle_long w = leb o.warm_idle (age w)

  abbrev pub AllFit : List (Warm S) → Type 0
  AllFit [] = Unit {0}
  AllFit (w ∷ ws) = (fit w ≡ true) × AllFit ws

  cull_from-AllFit :
      (kept : ℕ) (ws : List (Warm S)) → AllFit (cull_from o is_alive now kept ws).kept
  unfolding cull_from expires
  cull_from-AllFit kept [] = tt
  cull_from-AllFit kept (w ∷ ws) =
      ground (arith, cull_from-AllFit kept ws, cull_from-AllFit (kept + 1) ws)

  -- Enough fit sessions are kept to have `min_ready`, if there are so many.
  cull_from-enough :
      (kept : ℕ) (ws : List (Warm S))
      → min (kept + tally fit ws) o.min_ready
        ≤ kept + length (cull_from o is_alive now kept ws).kept
  unfolding cull_from expires
  cull_from-enough kept [] = omega arith
  cull_from-enough kept (w ∷ ws) =
      ground (arith, cull_from-enough kept ws, cull_from-enough (kept + 1) ws)

  -- Long-idle sessions stay only up to `min_ready`.
  cull_from-idle :
      (kept : ℕ) (ws : List (Warm S))
      → tally idle_long (cull_from o is_alive now kept ws).kept ≤ o.min_ready - kept
  unfolding cull_from expires
  cull_from-idle kept [] = omega arith
  cull_from-idle kept (w ∷ ws) =
      ground (arith, cull_from-idle kept ws, cull_from-idle (kept + 1) ws)

  -- Fit sessions that were not idle for long are all kept.
  cull_from-fresh :
      (kept : ℕ) (ws : List (Warm S))
      → tally (λ w. fit w && not (idle_long w)) (cull_from o is_alive now kept ws).kept
        ≡ tally (λ w. fit w && not (idle_long w)) ws
  unfolding cull_from expires
  cull_from-fresh kept [] = refl
  cull_from-fresh kept (w ∷ ws) =
      ground (arith, cull_from-fresh kept ws, cull_from-fresh (kept + 1) ws)

module _ (k : Semaphore) {S : Type 0} where
  -- `cull_warm` keeps only sessions that are alive and below the age limit; it keeps all of those
  -- that were not idle for long, at most `min_ready` of the long idle ones, and `min_ready` in
  -- all if so many are fit.
  cull_warm_lem :
      (p : Inner k.Sem S) (is_alive : S → Bool) (now : ℕ)
      → let o = p.options in
        let kept = (cull_warm k p is_alive now).0.warm in
        AllFit o is_alive now kept
        × (tally (λ w. fit o is_alive now w && not (idle_long o is_alive now w)) kept
            ≡ tally (λ w. fit o is_alive now w && not (idle_long o is_alive now w)) p.warm)
        × (tally (idle_long o is_alive now) kept ≤ o.min_ready)
        × (min (tally (fit o is_alive now) p.warm) o.min_ready ≤ length kept)
  unfolding cull_warm
  cull_warm_lem p is_alive now = (
    cull_from-AllFit p.options is_alive now 0 p.warm,
    cull_from-fresh p.options is_alive now 0 p.warm,
    omega (arith, cull_from-idle p.options is_alive now 0 p.warm),
    omega (arith, cull_from-enough p.options is_alive now 0 p.warm),
  )

  -- The replenisher launches exactly when warm and launching sessions are fewer than `min_ready`
  -- and, with the slots in use, fewer than the ceiling.
  wanted_pos :
      (p : Inner k.Sem S)
      → (0 < wanted k p) ↔ (
          (length p.warm + p.launching < p.options.min_ready)
          × ((p.max_sessions - k.available_permits p.semaphore) + length p.warm + p.launching
              < p.max_sessions))
  unfolding wanted
  wanted_pos p = ground arith

  -- Each session that is parked lowers the number wanted by one, so the launches end.
  pub wanted-park :
      (p : Inner k.Sem S) (s : S) (now : ℕ) → wanted k (park k p s now) ≡ wanted k p - 1
  unfolding wanted park
  wanted-park p s now =
      ground (arith, length-append p.warm (record { session = s; ready_at = now } ∷ []))
