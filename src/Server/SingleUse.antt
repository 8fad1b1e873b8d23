-- ===== src/Server/SingleUse.antt =====
-- server/single_use.rs: the one session of the process, and its end.
use browserserve.Common.{ℕ, zero, suc, Bool, true, false, List, [], ◌∷◌}

pub record SingleUse : Type 0 where
  pub spent : Bool
  pub finished : Bool

unfoldable pub fresh : SingleUse
fresh = record { spent = false; finished = false }

-- The exchange of `false` for `true`: whether it gave a guard.
unfoldable pub try_spend : SingleUse → Bool × SingleUse
try_spend u = elim (u.spent) [ false ↦ (true, record u { spent = true }) | true ↦ (false, u) ]

-- The drop of `SpentGuard`.
unfoldable pub drop_guard : SingleUse → SingleUse
drop_guard u = record u { finished = true }

-- The process with the guards given out so far and those alive.
pub record Process : Type 0 where
  pub single_use : SingleUse
  pub given : ℕ
  pub alive : ℕ

pub data Event : Type 0 where
  spends drops : Event

abbrev take_guard : Process → Bool × SingleUse → Process
take_guard p (true, u) = record { single_use = u; given = suc p.given; alive = suc p.alive }
take_guard p (false, u) = record p { single_use = u }

abbrev let_go : Process → ℕ → Process
let_go p zero = p
let_go p (suc n) = record p { single_use = drop_guard p.single_use; alive = n }

unfoldable pub step : Process → Event → Process
step p spends = take_guard p (try_spend p.single_use)
step p drops = let_go p p.alive

unfoldable pub run : Process → List Event → Process
run p [] = p
run p (e ∷ es) = run (step p e) es

abbrev pub start : Process
start = record { single_use = fresh; given = 0; alive = 0 }
