-- ===== src/Pool/Queue.antt =====
-- The bounded queue of `acquire_slot`, under any interleaving of its counter's updates.
use browserserve.Common.{
  ℕ, zero, suc, ◌≤◌, ◌<◌, true, not, ◌||◌, some, List, [], ◌∷◌, length, ◌≡◌, refl, arith, inl, inr,
  Option-cases, leb,
}
use browserserve.Pool.World.{Place, pick, admit}
use browserserve.Pool.Tally.{tally, length-pick}

-- Each claimer read a count above the number of those that joined before it and are still there.
abbrev pub Ranked : List Place → Type 0
Ranked [] = Unit {0}
Ranked (p ∷ ps) = (length ps < p.queued) × Ranked ps

-- Whoever waits read a count within the bound.
abbrev pub Bounded : ℕ → List Place → Type 0
Bounded m [] = Unit {0}
Bounded m (p ∷ ps) = ((not p.waits || leb p.queued m) ≡ true) × Bounded m ps

abbrev pub waiters : List Place → ℕ
waiters = tally (λ p. p.waits)

tally-le_length : (ps : List Place) → waiters ps ≤ length ps
tally-le_length [] = omega arith
tally-le_length (p ∷ ps) = ground (arith, tally-le_length ps)

pub waiters-le : (m : ℕ) (ps : List Place) → Ranked ps → Bounded m ps → waiters ps ≤ m
waiters-le m [] r b = omega arith
waiters-le m (p ∷ ps) r b = ground (arith, tally-le_length ps, waiters-le m ps r.1 b.1)

pub pick-Ranked :
    (i : ℕ) (ps : List Place) (p : Place) (rest : List Place)
    → pick i ps ≡ some (p, rest)
    → Ranked ps
    → Ranked rest
unfolding pick
pick-Ranked i [] p rest e r = ground arith
pick-Ranked zero (q ∷ qs) p rest e r = ground arith
pick-Ranked (suc i) (q ∷ qs) p rest e r = elim (Option-cases (pick i qs)) [
  | inl missing ↦ ground arith
  | inr ((z, zs), found) ↦
      ground (arith, pick-Ranked i qs z zs found r.1, length-pick i qs z zs found)
]

pub pick-Bounded :
    (m i : ℕ) (ps : List Place) (p : Place) (rest : List Place)
    → pick i ps ≡ some (p, rest)
    → Bounded m ps
    → Bounded m rest
unfolding pick
pick-Bounded m i [] p rest e r = ground arith
pick-Bounded m zero (q ∷ qs) p rest e r = ground arith
pick-Bounded m (suc i) (q ∷ qs) p rest e r = elim (Option-cases (pick i qs)) [
  | inl missing ↦ ground arith
  | inr ((z, zs), found) ↦ ground (arith, pick-Bounded m i qs z zs found r.1)
]

pub length-admit : (i : ℕ) (ps : List Place) → length (admit i ps) ≡ length ps
length-admit i [] = refl
length-admit zero (p ∷ ps) = refl
length-admit (suc i) (p ∷ ps) = omega (arith, length-admit i ps)

pub admit-Ranked : (i : ℕ) (ps : List Place) → Ranked ps → Ranked (admit i ps)
admit-Ranked i [] r = tt
admit-Ranked zero (p ∷ ps) r = r
admit-Ranked (suc i) (p ∷ ps) r = (omega (arith, length-admit i ps), admit-Ranked i ps r.1)

pub admit-Bounded :
    (m i : ℕ) (ps : List Place) (p : Place) (rest : List Place)
    → pick i ps ≡ some (p, rest)
    → p.queued ≤ m
    → Bounded m ps
    → Bounded m (admit i ps)
unfolding pick
admit-Bounded m i [] p rest e h b = tt
admit-Bounded m zero (q ∷ qs) p rest e h b = ground arith
admit-Bounded m (suc i) (q ∷ qs) p rest e h b = elim (Option-cases (pick i qs)) [
  | inl missing ↦ ground arith
  | inr ((z, zs), found) ↦ ground (arith, admit-Bounded m i qs z zs found)
]
