-- ===== src/Common/Map.antt =====
-- Boolean equality as an interface, and `HashMap` as a list of keys with values, one for a key.
use Prim.Native.Nat.{ℕ, suc, ◌≤◌}
use mathlib.Core.Path.{◌≡◌, refl}
use mathlib.Core.Logic.{◌↔◌}
use mathlib.Core.Bool.{Bool, true}
use mathlib.Core.Option.{Option, none, some}
use mathlib.Core.List.{List, [], ◌∷◌}
use native.Mathlib.Omega.{arith}
use browserserve.Common.Tests.{if◌then◌else◌, ◌==◌, ==_iff}
use browserserve.Common.Lists.{length}

pub record Eq {ℓ} (A : Type ℓ) : Type ℓ where
  pub same : A → A → Bool
  pub same_iff : (x y : A) → (same x y ≡ true) ↔ (x ≡ y)

-- What becomes of a value under a test.
abbrev pub keep : {V : Type 0} → (V → Bool) → Option V → Option V
keep p none = none
keep p (some v) = if p v then some v else none

module _ {K V : Type 0} ⦃e : Eq K⦄ where
  unfoldable pub lookup : K → List (K × V) → Option V
  lookup k [] = none
  lookup k ((j, v) ∷ m) = if e.same j k then some v else lookup k m

  unfoldable pub insert : K → V → List (K × V) → List (K × V)
  insert k v [] = (k, v) ∷ []
  insert k v ((j, w) ∷ m) = if e.same j k then (j, v) ∷ m else (j, w) ∷ insert k v m

  unfoldable pub remove : K → List (K × V) → List (K × V)
  remove k [] = []
  remove k ((j, w) ∷ m) = if e.same j k then remove k m else (j, w) ∷ remove k m

  unfoldable pub retain_values : (V → Bool) → List (K × V) → List (K × V)
  retain_values p [] = []
  retain_values p ((j, w) ∷ m) = if p w then (j, w) ∷ retain_values p m else retain_values p m

  -- No key stands twice.
  abbrev pub Unique : List (K × V) → Type 0
  Unique [] = Unit {0}
  Unique ((k, v) ∷ m) = (lookup k m ≡ none) × Unique m

  pub lookup-insert :
      (written read : K) (new : V) (map : List (K × V))
      → lookup read (insert written new map)
        ≡ (if e.same written read then some new else lookup read map)
  unfolding insert lookup
  lookup-insert written read new [] = refl
  lookup-insert written read new ((key, old) ∷ rest) = ground (
    arith,
    lookup-insert written read new rest,
    e.same_iff written read,
    e.same_iff key written,
    e.same_iff key read,
  )

  pub lookup-remove :
      (k j : K) (m : List (K × V))
      → lookup j (remove k m) ≡ (if e.same k j then none else lookup j m)
  unfolding lookup remove
  lookup-remove k j [] = ground arith
  lookup-remove k j ((i, w) ∷ m) =
      ground (arith, e.same_iff k j, e.same_iff i k, e.same_iff i j, lookup-remove k j m)

  pub lookup-retain_values :
      (p : V → Bool) (k : K) (m : List (K × V))
      → Unique m
      → lookup k (retain_values p m) ≡ keep p (lookup k m)
  unfolding lookup retain_values
  lookup-retain_values p k [] u = refl
  lookup-retain_values p k ((i, w) ∷ m) u =
      ground (arith, e.same_iff i k, lookup-retain_values p k m u.1, lookup-retain_values p i m u.1)

  pub insert-Unique : (k : K) (v : V) (m : List (K × V)) → Unique m → Unique (insert k v m)
  unfolding insert lookup
  insert-Unique k v [] u = (refl, tt)
  insert-Unique k v ((i, w) ∷ m) u =
      ground (arith, e.same_iff i k, e.same_iff k i, lookup-insert k i v m, insert-Unique k v m u.1)

  pub remove-Unique : (k : K) (m : List (K × V)) → Unique m → Unique (remove k m)
  unfolding remove
  remove-Unique k [] u = tt
  remove-Unique k ((i, w) ∷ m) u =
      ground (arith, e.same_iff k i, e.same_iff i k, lookup-remove k i m, remove-Unique k m u.1)

  pub retain_values-Unique :
      (p : V → Bool) (m : List (K × V)) → Unique m → Unique (retain_values p m)
  unfolding retain_values
  retain_values-Unique p [] u = tt
  retain_values-Unique p ((i, w) ∷ m) u =
      ground (arith, lookup-retain_values p i m u.1, retain_values-Unique p m u.1)

  pub length-insert-le : (k : K) (v : V) (m : List (K × V)) → length (insert k v m) ≤ suc (length m)
  unfolding insert
  length-insert-le k v [] = omega arith
  length-insert-le k v ((i, w) ∷ m) = ground (arith, length-insert-le k v m)

  -- A write to a key that is there.
  pub length-insert_old :
      (k : K) (v w : V) (m : List (K × V)) → lookup k m ≡ some w → length (insert k v m) ≡ length m
  unfolding insert lookup
  length-insert_old k v w [] h = ground arith
  length-insert_old k v w ((i, x) ∷ m) h = ground (arith, length-insert_old k v w m)

  pub length-remove-le : (k : K) (m : List (K × V)) → length (remove k m) ≤ length m
  unfolding remove
  length-remove-le k [] = omega arith
  length-remove-le k ((i, w) ∷ m) = ground (arith, length-remove-le k m)

  pub length-retain_values-le :
      (p : V → Bool) (m : List (K × V)) → length (retain_values p m) ≤ length m
  unfolding retain_values
  length-retain_values-le p [] = omega arith
  length-retain_values-le p ((i, w) ∷ m) = ground (arith, length-retain_values-le p m)

instance abbrev pub nat_eq : Eq ℕ
nat_eq = record { same = ◌==◌; same_iff = ==_iff }
