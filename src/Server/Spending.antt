-- ===== src/Server/Spending.antt =====
-- server/single_use.rs: who gets the guard.
use browserserve.Common.{
  ℕ, zero, suc, ◌+◌, Bool, true, false, List, [], ◌∷◌, ◌≡◌, refl, arith, Bool-cases, ◌⊎◌, inl, inr,
}
use browserserve.Server.SingleUse.{
  fresh, try_spend, drop_guard, Process, Event, spends, drops, step, run, start,
}

-- How many guards a flag stands for.
abbrev pub count : Bool → ℕ
count true = 1
count false = 0

pub record SpendInv (p : Process) : Type 0 where
  pub spent_once : p.given ≡ count p.single_use.spent
  pub over : p.given ≡ p.alive + count p.single_use.finished

zero_or_suc : (n : ℕ) → (n ≡ 0) ⊎ ((m : ℕ) × (n ≡ suc m))
zero_or_suc zero = inl refl
zero_or_suc (suc m) = inr (m, refl)

step-SpendInv : (p : Process) (e : Event) → SpendInv p → SpendInv (step p e)
unfolding step try_spend drop_guard
step-SpendInv p spends h = elim (Bool-cases p.single_use.spent) [
  | inl old ↦ rw old (record { spent_once = ground arith; over = ground arith })
  | inr new ↦ rw new (record { spent_once = ground arith; over = ground arith })
]
step-SpendInv p drops h = elim (zero_or_suc p.alive) [
  | inl nobody ↦ rw nobody (record { spent_once = ground arith; over = ground arith })
  | inr (n, holder) ↦ rw holder (record { spent_once = ground arith; over = ground arith })
]

run-SpendInv : (p : Process) (es : List Event) → SpendInv p → SpendInv (run p es)
unfolding run
run-SpendInv p [] h = h
run-SpendInv p (e ∷ es) h = run-SpendInv (step p e) es (step-SpendInv p e h)

-- In any order of calls and drops, the guards given out are one if the use is spent and none
-- otherwise, and the session counts as finished exactly when the guard was given out and dropped.
run-spent :
    (es : List Event)
    → let p = run start es in
      (p.given ≡ count p.single_use.spent) × (p.given ≡ p.alive + count p.single_use.finished)
unfolding fresh
run-spent es =
    let h = run-SpendInv start es (record { spent_once = refl; over = refl }) in
    (h.spent_once, h.over)
