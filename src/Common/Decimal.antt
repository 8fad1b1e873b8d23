-- ===== src/Common/Decimal.antt =====
-- Decimal numbers: `Display` and `parse` of unsigned integers.
use Prim.Native.Nat.{ℕ, zero, suc, ◌+◌, ◌-◌, ◌*◌, ◌/◌, ◌%◌, ◌^◌, ◌<◌}
use mathlib.Core.Path.{◌≡◌, ◌∙◌}
use mathlib.Core.Logic.{inl, inr}
use mathlib.Core.Bool.{true, ◌&&◌}
use mathlib.Core.Option.{Option, none, some}
use mathlib.Core.List.{[], ◌∷◌}
use native.Mathlib.Omega.{arith}
use native.Mathlib.Nat.{pow-suc}
use browserserve.Common.Tests.{ltb, ◌==◌, if◌then◌else◌, Bool-cases}
use browserserve.Common.Text.{Bytes, is_digit}

-- The digits read so far are worth `acc`; a value of `bound` or more is an error.
unfoldable pub parse_digits : ℕ → ℕ → Bytes → Option ℕ
parse_digits bound acc [] = some acc
parse_digits bound acc (c ∷ cs) =
    let next = acc * 10 + (c - b'0') in
    let rest = parse_digits bound next cs in if is_digit c && ltb next bound then rest else none

unfoldable pub parse_unsigned : ℕ → Bytes → Option ℕ
unfolding parse_digits
parse_unsigned bound [] = none
parse_unsigned bound (c ∷ []) = if c == b'+' then none else parse_digits bound 0 (c ∷ [])
parse_unsigned bound (c ∷ d ∷ cs) =
    if c == b'+' then parse_digits bound 0 (d ∷ cs) else parse_digits bound 0 (c ∷ d ∷ cs)

-- The digits of `n` in front of `rest`, with one round of fuel for each digit.
unfoldable pub digits_onto : ℕ → ℕ → Bytes → Bytes
digits_onto zero n rest = rest
digits_onto (suc f) n rest =
    let more = digits_onto f (n / 10) ((b'0' + n % 10) ∷ rest) in
    if ltb n 10 then (b'0' + n) ∷ rest else more

-- At most 20 digits: every 64-bit number.
unfoldable pub decimal : ℕ → Bytes
unfolding digits_onto
decimal n = digits_onto 20 n []

abbrev StartsDigit : Bytes → Type 0
StartsDigit [] = ⊥
StartsDigit (c ∷ cs) = is_digit c ≡ true

digits_onto-StartsDigit :
    (f n : ℕ) (rest : Bytes) → StartsDigit rest → StartsDigit (digits_onto f n rest)
unfolding digits_onto
digits_onto-StartsDigit zero n rest h = h
digits_onto-StartsDigit (suc f) n rest h = elim (Bool-cases (ltb n 10)) [
  | inl last ↦ rw last (ground arith)
  | inr more ↦ rw more (digits_onto-StartsDigit f (n / 10) _ (ground arith))
]

decimal-StartsDigit : (n : ℕ) → StartsDigit (decimal n)
unfolding decimal digits_onto
decimal-StartsDigit n = elim (Bool-cases (ltb n 10)) [
  | inl last ↦ rw last (ground arith)
  | inr more ↦ rw more (digits_onto-StartsDigit 19 (n / 10) _ (ground arith))
]

parse_digits-digits_onto :
    (bound f n : ℕ) (rest : Bytes)
    → n < bound
    → n < 10 ^ f
    → parse_digits bound 0 (digits_onto f n rest) ≡ parse_digits bound n rest
unfolding parse_digits digits_onto
parse_digits-digits_onto bound zero n rest h k = ground arith
parse_digits-digits_onto bound (suc f) n rest h k = elim (Bool-cases (ltb n 10)) [
  | inl last ↦ rw last (ground arith)
  | inr more ↦ rw more (
      parse_digits-digits_onto bound f (n / 10) _ (omega arith) (omega (arith, rw pow-suc at k))
      ∙ ground arith)
]

parse_unsigned-StartsDigit :
    (bound : ℕ) (s : Bytes) → StartsDigit s → parse_unsigned bound s ≡ parse_digits bound 0 s
unfolding parse_unsigned
parse_unsigned-StartsDigit bound [] h = absurd h
parse_unsigned-StartsDigit bound (c ∷ []) h = ground arith
parse_unsigned-StartsDigit bound (c ∷ d ∷ cs) h = ground arith

-- A number is read back from its own digits.
pub parse_unsigned-decimal :
    (bound n : ℕ) → n < bound → n < 10 ^ 20 → parse_unsigned bound (decimal n) ≡ some n
parse_unsigned-decimal bound n h k =
    parse_unsigned-StartsDigit bound (decimal n) (decimal-StartsDigit n)
    ∙ unfold decimal parse_digits in parse_digits-digits_onto bound 20 n [] h k

parse_digits-lt :
    (bound acc n : ℕ) (s : Bytes) → acc < bound → parse_digits bound acc s ≡ some n → n < bound
unfolding parse_digits
parse_digits-lt bound acc n [] h e = ground arith
parse_digits-lt bound acc n (c ∷ cs) h e =
    ground (arith, parse_digits-lt bound (acc * 10 + (c - b'0')) n cs)

pub parse_unsigned-lt :
    (bound n : ℕ) (s : Bytes) → 0 < bound → parse_unsigned bound s ≡ some n → n < bound
unfolding parse_unsigned
parse_unsigned-lt bound n [] h e = ground arith
parse_unsigned-lt bound n (c ∷ []) h e = ground (arith, parse_digits-lt bound 0 n (c ∷ []))
parse_unsigned-lt bound n (c ∷ d ∷ cs) h e =
    ground (arith, parse_digits-lt bound 0 n (d ∷ cs), parse_digits-lt bound 0 n (c ∷ d ∷ cs))
