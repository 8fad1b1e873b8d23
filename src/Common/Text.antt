-- ===== src/Common/Text.antt =====
-- Texts as their bytes, and what the source uses of `str`. `trim` strips ASCII white space.
use Prim.Native.Nat.{ℕ, ◌+◌}
use Prim.Native.Char.{code}
use Prim.Native.String.{String}
use mathlib.Core.Bool.{Bool, true, false, ◌&&◌, ◌||◌}
use mathlib.Core.Option.{Option, none, some}
use mathlib.Core.List.{List, [], ◌∷◌}
use browserserve.Common.Tests.{leb, ◌==◌, if◌then◌else◌}
use browserserve.Common.Lists.{any}

abbrev pub Bytes : Type 0
Bytes = List ℕ

-- The bytes of an ASCII literal.
abbrev pub codes : String → Bytes
codes String.[] = []
codes (String.◌∷◌ c s) = code c ∷ codes s

unfoldable pub equal : Bytes → Bytes → Bool
equal [] [] = true
equal (x ∷ a) (y ∷ b) = x == y && equal a b
equal _ _ = false

abbrev pub is_digit : ℕ → Bool
is_digit c = leb b'0' c && leb c b'9'

abbrev pub is_upper : ℕ → Bool
is_upper c = leb b'A' c && leb c b'Z'

abbrev pub is_lower : ℕ → Bool
is_lower c = leb b'a' c && leb c b'z'

-- `to_ascii_lowercase`
abbrev pub to_lower : ℕ → ℕ
to_lower c = if is_upper c then c + 32 else c

unfoldable pub lowercase : Bytes → Bytes
lowercase [] = []
lowercase (c ∷ cs) = to_lower c ∷ lowercase cs

unfoldable pub eq_ignore_case : Bytes → Bytes → Bool
eq_ignore_case [] [] = true
eq_ignore_case (x ∷ a) (y ∷ b) = to_lower x == to_lower y && eq_ignore_case a b
eq_ignore_case _ _ = false

unfoldable pub strip_prefix : Bytes → Bytes → Option Bytes
strip_prefix [] s = some s
strip_prefix (p ∷ ps) [] = none
strip_prefix (p ∷ ps) (c ∷ cs) = if c == p then strip_prefix ps cs else none

abbrev pub contains : ℕ → Bytes → Bool
contains c = any (λ x. x == c)

abbrev first_cons : ℕ → Option (Bytes × Bytes) → Option (Bytes × Bytes)
first_cons c none = none
first_cons c (some (a, b)) = some (c ∷ a, b)

-- At the first occurrence of the byte.
unfoldable pub split_once : ℕ → Bytes → Option (Bytes × Bytes)
split_once c [] = none
split_once c (x ∷ xs) = if x == c then some ([], xs) else first_cons x (split_once c xs)

abbrev else_here : ℕ → ℕ → Bytes → Option (Bytes × Bytes) → Option (Bytes × Bytes)
else_here c x xs none = if x == c then some ([], xs) else none
else_here c x xs (some (a, b)) = some (x ∷ a, b)

-- At the last occurrence of the byte.
unfoldable pub rsplit_once : ℕ → Bytes → Option (Bytes × Bytes)
rsplit_once c [] = none
rsplit_once c (x ∷ xs) = else_here c x xs (rsplit_once c xs)

abbrev pub is_space : ℕ → Bool
is_space c = c == 32 || (leb 9 c && leb c 13)

unfoldable pub trim_start : Bytes → Bytes
trim_start [] = []
trim_start (c ∷ cs) = if is_space c then trim_start cs else c ∷ cs

-- A space in front of nothing goes.
unfoldable pub cut_space : ℕ → Bytes → Bytes
cut_space c [] = if is_space c then [] else c ∷ []
cut_space c (d ∷ ds) = c ∷ d ∷ ds

unfoldable pub trim_end : Bytes → Bytes
unfolding cut_space
trim_end [] = []
trim_end (c ∷ cs) = cut_space c (trim_end cs)

unfoldable pub trim : Bytes → Bytes
unfolding trim_start trim_end
trim s = trim_end (trim_start s)
