-- ===== src/Common/Split.antt =====
-- Laws of the text functions: what they do to a text whose bytes all pass a test.
use Prim.Native.Nat.{ℕ, zero, suc, ◌/◌}
use mathlib.Core.Path.{◌≡◌, refl}
use mathlib.Core.Logic.{inl, inr}
use mathlib.Core.Bool.{Bool, true, false}
use mathlib.Core.Option.{none, some}
use mathlib.Core.List.{[], ◌∷◌, ◌++◌}
use native.Mathlib.Omega.{arith}
use browserserve.Common.Tests.{ltb, ◌==◌, ==_refl, Bool-cases}
use browserserve.Common.Lists.{any, all}
use browserserve.Common.Text.{
  Bytes, is_digit, is_space, split_once, rsplit_once, cut_space, trim_start, trim_end, trim,
  lowercase,
}
use browserserve.Common.Decimal.{digits_onto, decimal}

pub all-append :
    (p : ℕ → Bool) (a b : Bytes) → all p a ≡ true → all p b ≡ true → all p (a ++ b) ≡ true
all-append p [] b h k = k
all-append p (x ∷ a) b h k = ground (arith, all-append p a b)

pub all_weaken :
    (p q : ℕ → Bool) (s : Bytes)
    → ((c : ℕ) → p c ≡ true → q c ≡ true)
    → all p s ≡ true
    → all q s ≡ true
all_weaken p q [] f h = refl
all_weaken p q (c ∷ cs) f h = ground (arith, f c, all_weaken p q cs f)

-- A test that none of the bytes passes.
pub any_none :
    (p q : ℕ → Bool) (s : Bytes)
    → ((c : ℕ) → p c ≡ true → q c ≡ false)
    → all p s ≡ true
    → any q s ≡ false
any_none p q [] f h = refl
any_none p q (c ∷ cs) f h = ground (arith, f c, any_none p q cs f)

trim_start_id : (s : Bytes) → any is_space s ≡ false → trim_start s ≡ s
unfolding trim_start
trim_start_id [] h = refl
trim_start_id (c ∷ cs) h = ground arith

trim_end_id : (s : Bytes) → any is_space s ≡ false → trim_end s ≡ s
unfolding trim_end
trim_end_id [] h = refl
trim_end_id (c ∷ []) h = ground arith
trim_end_id (c ∷ d ∷ cs) h = rw (trim_end_id (d ∷ cs) (ground arith), cut_space)

pub trim_id : (s : Bytes) → any is_space s ≡ false → trim s ≡ s
unfolding trim
trim_id s h = rw (trim_start_id s h) (trim_end_id s h)

pub split_once-append :
    (c : ℕ) (a b : Bytes) → any (λ x. x == c) a ≡ false → split_once c (a ++ (c ∷ b)) ≡ some (a, b)
unfolding split_once
split_once-append c [] b h = rw (==_refl c)
split_once-append c (x ∷ a) b h = ground (arith, split_once-append c a b)

pub rsplit_once-none : (c : ℕ) (s : Bytes) → any (λ x. x == c) s ≡ false → rsplit_once c s ≡ none
unfolding rsplit_once
rsplit_once-none c [] h = refl
rsplit_once-none c (x ∷ s) h = ground (arith, rsplit_once-none c s)

pub rsplit_once-append :
    (c : ℕ) (a b : Bytes) → any (λ x. x == c) b ≡ false → rsplit_once c (a ++ (c ∷ b)) ≡ some (a, b)
unfolding rsplit_once
rsplit_once-append c [] b h = rw (rsplit_once-none c b h, ==_refl c)
rsplit_once-append c (x ∷ a) b h = rw (rsplit_once-append c a b h)

all-digits_onto :
    (f n : ℕ) (rest : Bytes) → all is_digit rest ≡ true → all is_digit (digits_onto f n rest) ≡ true
unfolding digits_onto
all-digits_onto zero n rest h = h
all-digits_onto (suc f) n rest h = elim (Bool-cases (ltb n 10)) [
  | inl last ↦ rw last (ground arith)
  | inr more ↦ rw more (all-digits_onto f (n / 10) _ (ground arith))
]

pub all-decimal : (n : ℕ) → all is_digit (decimal n) ≡ true
unfolding decimal
all-decimal n = all-digits_onto 20 n [] refl

pub lowercase_twice : (s : Bytes) → lowercase (lowercase s) ≡ lowercase s
unfolding lowercase
lowercase_twice [] = refl
lowercase_twice (c ∷ cs) = ground (arith, lowercase_twice cs)
