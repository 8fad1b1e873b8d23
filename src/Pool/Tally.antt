-- ===== src/Pool/Tally.antt =====
-- Counting the entries of a list that pass a test, and what `pick` does to the count.
use browserserve.Common.{
  ℕ, zero, suc, ◌+◌, Bool, some, List, [], ◌∷◌, ◌++◌, length, ◌≡◌, inl, inr, arith, if◌then◌else◌,
  Option-cases,
}
use browserserve.Pool.World.{pick}

-- A session is counted once for each place where it stands.
abbrev pub tally {ℓ} : {A : Type ℓ} → (A → Bool) → List A → ℕ
tally p [] = 0
tally p (x ∷ xs) = (if p x then 1 else 0) + tally p xs

pub tally-append {ℓ} :
    {A : Type ℓ} (p : A → Bool) (xs ys : List A) → tally p (xs ++ ys) ≡ tally p xs + tally p ys
tally-append p [] ys = omega arith
tally-append p (x ∷ xs) ys = omega (arith, tally-append p xs ys)

pub tally-pick {ℓ} :
    {A : Type ℓ} (p : A → Bool) (i : ℕ) (xs : List A) (x : A) (rest : List A)
    → pick i xs ≡ some (x, rest)
    → tally p xs ≡ (if p x then 1 else 0) + tally p rest
unfolding pick
tally-pick p i [] x rest e = ground arith
tally-pick p zero (y ∷ ys) x rest e = ground arith
tally-pick p (suc i) (y ∷ ys) x rest e = elim (Option-cases (pick i ys)) [
  | inl missing ↦ ground arith
  | inr ((z, zs), found) ↦ ground (arith, tally-pick p i ys z zs found)
]

pub length-pick {ℓ} :
    {A : Type ℓ} (i : ℕ) (xs : List A) (x : A) (rest : List A)
    → pick i xs ≡ some (x, rest)
    → length xs ≡ suc (length rest)
unfolding pick
length-pick i [] x rest e = ground arith
length-pick zero (y ∷ ys) x rest e = ground arith
length-pick (suc i) (y ∷ ys) x rest e = elim (Option-cases (pick i ys)) [
  | inl missing ↦ ground arith
  | inr ((z, zs), found) ↦ ground (arith, length-pick i ys z zs found)
]
