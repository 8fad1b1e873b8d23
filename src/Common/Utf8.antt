-- ===== src/Common/Utf8.antt =====
-- `String::from_utf8` and `char::is_control`, on bytes.
use Prim.Native.Nat.{ℕ}
use mathlib.Core.Bool.{Bool, true, false, ◌&&◌, ◌||◌}
use mathlib.Core.Option.{Option, none, some}
use mathlib.Core.List.{List, [], ◌∷◌}
use browserserve.Common.Tests.{ltb, leb, ◌==◌, if◌then◌else◌}
use browserserve.Common.Text.{Bytes}

abbrev pub in_range : ℕ → ℕ → ℕ → Bool
in_range lo hi b = leb lo b && leb b hi

abbrev tail_byte : ℕ × ℕ
tail_byte = (0x80, 0xbf)

-- The ranges of the bytes that follow a lead byte; `none` for a byte that leads nothing.
unfoldable pub continuation : ℕ → Option (List (ℕ × ℕ))
continuation b =
    if ltb b 0x80
    then some []
    else if in_range 0xc2 0xdf b
    then some (tail_byte ∷ [])
    else if b == 0xe0
    then some ((0xa0, 0xbf) ∷ tail_byte ∷ [])
    else if b == 0xed
    then some ((0x80, 0x9f) ∷ tail_byte ∷ [])
    else if in_range 0xe1 0xef b
    then some (tail_byte ∷ tail_byte ∷ [])
    else if b == 0xf0
    then some ((0x90, 0xbf) ∷ tail_byte ∷ tail_byte ∷ [])
    else if in_range 0xf1 0xf3 b
    then some (tail_byte ∷ tail_byte ∷ tail_byte ∷ [])
    else if b == 0xf4
    then some ((0x80, 0x8f) ∷ tail_byte ∷ tail_byte ∷ [])
    else none

-- The bytes continue a text of which these ranges are still owed.
unfoldable pub utf8_from : List (ℕ × ℕ) → Bytes → Bool
unfolding continuation
utf8_from [] [] = true
utf8_from (r ∷ rs) [] = false
utf8_from [] (b ∷ bs) = elim (continuation b) [ none ↦ false | some rs ↦ utf8_from rs bs ]
utf8_from ((lo, hi) ∷ rs) (b ∷ bs) = in_range lo hi b && utf8_from rs bs

unfoldable pub is_utf8 : Bytes → Bool
unfolding utf8_from
is_utf8 = utf8_from []

-- `chars().any(char::is_control)` of a valid text: U+0000 to U+001F, U+007F, and U+0080 to U+009F,
-- which are the byte 0xC2 and one below 0xA0.
unfoldable pub has_control : Bytes → Bool
has_control [] = false
has_control (b ∷ []) = ltb b 32 || b == 127
has_control (b ∷ c ∷ bs) =
    (ltb b 32 || (b == 127 || (b == 0xc2 && ltb c 0xa0))) || has_control (c ∷ bs)
