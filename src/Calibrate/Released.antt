-- ===== src/Calibrate/Released.antt =====
-- calibrate.rs: the sessions that a calibration creates, and its ceiling.
use browserserve.Common.{
  ℕ, zero, suc, ◌+◌, ◌≤◌, ◌<◌, Bool, true, false, ◌&&◌, Option, none, some, List, [], ◌∷◌, ◌++◌,
  length, length-append, ◌==◌, ◌≡◌, refl, ap, ◌∙◌, arith, ◌⊎◌, inl, inr,
}
use browserserve.Capacity.{HostLimits, SessionFootprint}
use browserserve.Capacity.Bounds.{derive_ceiling_lem}
use browserserve.Calibrate.{
  ramp_cap, is_cap, count_where, to_u32_or_max, crossed_memory_line, Host, Log, Ramp, destroy_one,
  destroy_all, before_ramp, on_created, spawn_recording_session, is_recording, count_recording,
  on_spawned, ramp, conclude, calibrate,
}
use browserserve.Factory.Held.{if_both}

count_where-append :
    {S : Type 0} (test : S → Bool) (xs ys : List S)
    → count_where test (xs ++ ys) ≡ count_where test xs + count_where test ys
unfolding count_where
count_where-append test [] ys = omega arith
count_where-append test (x ∷ xs) ys = ground (arith, count_where-append test xs ys)

count_where-length-le :
    {S : Type 0} (test : S → Bool) (xs : List S) → count_where test xs ≤ length xs
unfolding count_where
count_where-length-le test [] = omega arith
count_where-length-le test (x ∷ xs) = ground (arith, count_where-length-le test xs)

module _ {S : Type 0} where
  -- A launch gives a session that is in the log of created ones, or leaves no session behind.
  abbrev Spawned : Log S → Option S × Log S → Type 0
  Spawned log (some s, after) =
      (after.created ≡ log.created ++ (s ∷ [])) × (after.destroyed ≡ log.destroyed)
  Spawned log (none, after) =
      ((test : S → Bool)
        → count_where test after.created + count_where test log.destroyed
          ≡ count_where test log.created + count_where test after.destroyed)
      × (length after.created ≤ suc (length log.created))

  -- Between two steps: m sessions are held, and none was lost.
  record Running (m : ℕ) (r : Ramp S) : Type 0 where
    created_held : r.log.created ≡ r.held
    none_destroyed : r.log.destroyed ≡ []
    how_many : length r.held ≡ m

  -- After the ramp: each created session is held or destroyed, and all are held after the last step.
  record Ended (total : ℕ) (r : Ramp S) : Type 0 where
    balanced :
        (test : S → Bool)
        → count_where test r.log.created
          ≡ count_where test r.held + count_where test r.log.destroyed
    few : length r.log.created ≤ total
    few_held : length r.held ≤ total
    full : (is_cap r.stop ≡ false) ⊎ ((r.log.created ≡ r.held) × (length r.held ≡ total))

  destroy_one-Spawned :
      (s : S) (log : Log S)
      → Spawned log (none, destroy_one s (record log { created = log.created ++ (s ∷ []) }))
  unfolding destroy_one
  destroy_one-Spawned s log = (
    λ test. ground (
      arith,
      count_where-append test log.created (s ∷ []),
      count_where-append test log.destroyed (s ∷ []),
    ),
    omega (arith, length-append log.created (s ∷ [])),
  )

  Running-Ended : (m total : ℕ) (r : Ramp S) → Running m r → m ≡ total → Ended total r
  unfolding count_where
  Running-Ended m total r h same = record {
    balanced = λ test. rw (h.created_held, h.none_destroyed) (omega arith);
    few = omega (arith, ap length h.created_held, h.how_many, same);
    few_held = omega (arith, h.how_many, same);
    full = inr (h.created_held, h.how_many ∙ same);
  }

module _ {S : Type 0} (y : Host S) where
  on_created-Spawned : (o : Option S) (log : Log S) → Spawned log (on_created y o log)
  on_created-Spawned none log = (λ test. omega arith, omega arith)
  on_created-Spawned (some s) log =
      if_both (Spawned log) (y.has_pipe s) _ _
        (if_both (Spawned log) (y.sets_up s) _ _ (refl, refl) (destroy_one-Spawned s log))
        (destroy_one-Spawned s log)

to_u32_or_max-le : (n : ℕ) → to_u32_or_max n ≤ n
to_u32_or_max-le n = ground arith

module _ {S : Type 0} (y : Host S) (limits : HostLimits) where
  on_spawned-Ended :
      (m total n : ℕ) (r : Ramp S) (o : Option S × Log S) (more : Ramp S → Ramp S)
      → Running m r
      → Spawned r.log o
      → m < total
      → ((settled : Ramp S) → Running (suc m) settled → Ended total (more settled))
      → Ended total (on_spawned y limits n r o more)
  unfolding count_where
  on_spawned-Ended m total n r (none, after) more h (same, few) low k = record {
    balanced = λ test. ground (
      arith,
      same test,
      ap (count_where test) h.created_held,
      ap (count_where test) h.none_destroyed,
    );
    few = omega (arith, few, ap length h.created_held, h.how_many, low);
    few_held = omega (arith, h.how_many, low);
    full = inl refl;
  }
  on_spawned-Ended m total n r (some s, after) more h (created, destroyed) low k =
      if_both (Ended total) (crossed_memory_line limits.mem_ceiling_bytes (y.used n)) _ _
        (record {
          balanced = (Running-Ended (suc m) (suc m) _ (settled none) refl).balanced;
          few = omega (arith, (Running-Ended (suc m) (suc m) _ (settled none) refl).few, low);
          few_held =
              omega (arith, (Running-Ended (suc m) (suc m) _ (settled none) refl).few_held, low);
          full = inl refl;
        })
        (k _ (settled _))
    where
      settled :
          (footprint : Option SessionFootprint)
          → Running
              (suc m)
              (record r { held = r.held ++ (s ∷ []); footprint = footprint; log = after })
      settled footprint = record {
        created_held = created ∙ ap (λ held. held ++ (s ∷ [])) h.created_held;
        none_destroyed = destroyed ∙ h.none_destroyed;
        how_many = omega (arith, length-append r.held (s ∷ []), h.how_many);
      }

  ramp-Ended :
      (k m total n : ℕ) (r : Ramp S)
      → Running m r
      → m + k ≡ total
      → Ended total (ramp y limits k n r)
  unfolding ramp spawn_recording_session
  ramp-Ended zero m total n r h same = Running-Ended m total r h (omega (arith, same))
  ramp-Ended (suc k) m total n r h same =
      on_spawned-Ended m total n r _ _ h (on_created-Spawned y (y.create n) r.log)
        (omega (arith, same))
        (λ settled g. ramp-Ended k (suc m) total (suc n) settled g (omega (arith, same)))

module _ {S : Type 0} where
  created-destroy_all : (held : List S) (log : Log S) → (destroy_all held log).created ≡ log.created
  unfolding destroy_all destroy_one
  created-destroy_all [] log = refl
  created-destroy_all (s ∷ ss) log = created-destroy_all ss (destroy_one s log)

  count_where-destroy_all :
      (test : S → Bool) (held : List S) (log : Log S)
      → count_where test (destroy_all held log).destroyed
        ≡ count_where test log.destroyed + count_where test held
  unfolding destroy_all destroy_one count_where
  count_where-destroy_all test [] log = omega arith
  count_where-destroy_all test (s ∷ ss) log = ground (
    arith,
    count_where-destroy_all test ss (destroy_one s log),
    count_where-append test log.destroyed (s ∷ []),
  )

module _ {S : Type 0} (y : Host S) (limits : HostLimits) where
  whole_ramp-Ended : Ended ramp_cap (ramp y limits ramp_cap 1 before_ramp)
  whole_ramp-Ended =
      ramp-Ended y limits ramp_cap 0 ramp_cap 1 before_ramp
        (record { created_held = refl; none_destroyed = refl; how_many = refl }) refl

  -- Calibration launches at most twelve sessions, one at a time, and destroys every one of them
  -- exactly as often as it was created, wherever the ramp stops: at a launch that fails or does not
  -- record, at the memory line, or at its cap.
  pub calibrate-balanced :
      (test : S → Bool)
      → (count_where test (calibrate y limits).1.destroyed
          ≡ count_where test (calibrate y limits).1.created)
        × (length (calibrate y limits).1.created ≤ ramp_cap)
  unfolding calibrate
  calibrate-balanced test =
      let r = ramp y limits ramp_cap 1 before_ramp in
      (
        ground (
          arith,
          count_where-destroy_all test r.held r.log,
          ap (count_where test) (created-destroy_all r.held r.log),
          whole_ramp-Ended.balanced test,
        ),
        omega (arith, ap length (created-destroy_all r.held r.log), whole_ramp-Ended.few),
      )

  conclude-extrapolates :
      (r : Ramp S)
      → Ended ramp_cap r
      → ramp_cap < (conclude y limits r).0.max_sessions
      → (r.log.created ≡ r.held) × (count_where (is_recording y) r.held ≡ ramp_cap)
  unfolding count_recording
  conclude-extrapolates r h big =
      let sustained = count_recording y r.held in
      let clean_cap = is_cap r.stop && (sustained == to_u32_or_max (length r.held)) in
      let ceiling = derive_ceiling_lem sustained clean_cap r.footprint limits in
      elim ceiling.2 [
        | inl (clean, above) ↦ clean_ramp clean h.full
        | inr (edge, exact, label) ↦ absurd (
            omega (
              arith,
              big,
              exact,
              h.few_held,
              count_where-length-le (is_recording y) r.held,
              to_u32_or_max-le (count_where (is_recording y) r.held),
            ))
      ]
    where
      clean_ramp :
          is_cap r.stop && (count_recording y r.held == to_u32_or_max (length r.held)) ≡ true
          → (is_cap r.stop ≡ false) ⊎ ((r.log.created ≡ r.held) × (length r.held ≡ ramp_cap))
          → (r.log.created ≡ r.held) × (count_where (is_recording y) r.held ≡ ramp_cap)
      clean_ramp clean (inl early) = absurd (ground (arith, clean, early))
      clean_ramp clean (inr (created, twelve)) =
          (created, ground (arith, clean, twelve, count_where-length-le (is_recording y) r.held))

  -- A ceiling above the twelve sessions that calibration tries is given only when it launched all
  -- twelve, none of them failed, and each was still recording under the load of all the others.
  pub calibrate-extrapolates :
      ramp_cap < (calibrate y limits).0.max_sessions
      → (length (calibrate y limits).1.created ≡ ramp_cap)
        × (count_where (is_recording y) (calibrate y limits).1.created ≡ ramp_cap)
  unfolding calibrate
  calibrate-extrapolates big =
      let r = ramp y limits ramp_cap 1 before_ramp in
      let (created, recording) = conclude-extrapolates r whole_ramp-Ended big in
      let same = created-destroy_all r.held r.log ∙ created in
      (
        omega (
          arith,
          ap length same,
          whole_ramp-Ended.few_held,
          recording,
          count_where-length-le (is_recording y) r.held,
        ),
        ap (count_where (is_recording y)) same ∙ recording,
      )
