-- ===== src/Pool/World.antt =====
-- pool.rs at work: the pool, the tasks that use it, and the replenisher, one atomic piece at a
-- time. An event names the task that runs next and what the factory answers; an event that no
-- task can take changes nothing. `run` is any interleaving, as a list of events.
use browserserve.Common.{ℕ, zero, suc, Bool, true, Option, none, some, List, [], ◌∷◌}
use browserserve.Pool.Semaphore.{Semaphore}
use browserserve.Pool.State.{Inner, PoolOptions, new, retry_backoff_start}

-- A claimer inside `acquire_slot` that holds a `CounterGuard`: the value that it read, and
-- whether it has passed the test of the queue bound.
pub record Place : Type 0 where
  pub queued : ℕ
  pub waits : Bool

-- Where the replenisher stands: at the top of its loop, destroying what it culled, waiting for
-- work, launching, asleep after a failed launch, about to park a session, or finished.
pub data Task (S : Type 0) : Type 0 where
  top : Task S
  culling : List S → Task S
  idle : Task S
  launches : Task S
  backs_off : Task S
  parks : S → Task S
  discards : S → Task S
  stopped : Task S

pub record World (Sem S : Type 0) : Type 0 where
  pub pool : Inner Sem S
  -- claimers that were refused a permit and have not joined the queue yet
  pub refused : ℕ
  -- the queue, newest first
  pub line : List Place
  -- claimers that hold a slot and no session yet: before and during an inline launch
  pub slotted : ℕ
  pub launching_inline : ℕ
  -- claims dropped during their inline launch
  pub cancelled : ℕ
  pub claimed : List S
  pub destroying : List S
  -- background destroys that owe no slot
  pub discarding : List S
  pub destroyed : List S
  pub task : Task S
  pub backoff : ℕ
  -- every session that the factory has created
  pub created : List S

pub data Event (S : Type 0) : Type 0 where
  try_slot : Event S
  join : Event S
  test_bound : ℕ → Event S
  get_slot : ℕ → Event S
  leave : ℕ → Event S
  look : Bool → Event S
  dedicate : Event S
  launched : Option S → Event S
  cancel : Event S
  release : ℕ → Event S
  finish_release : ℕ → Event S
  finish_discard : ℕ → Event S
  closes : Event S
  resizes : ℕ → Event S
  replenish : (S → Bool) → ℕ → Event S
  wake : Event S
  created_warm : Option S → Event S
  parked : ℕ → Event S

abbrev keep_head {ℓ} : {A : Type ℓ} → A → Option (A × List A) → Option (A × List A)
keep_head x none = none
keep_head x (some (y, ys)) = some (y, x ∷ ys)

-- The element at an index and the others.
unfoldable pub pick {ℓ} : {A : Type ℓ} → ℕ → List A → Option (A × List A)
pick i [] = none
pick zero (x ∷ xs) = some (x, xs)
pick (suc i) (x ∷ xs) = keep_head x (pick i xs)

-- Entry `i` passes the test of the bound.
abbrev pub admit : ℕ → List Place → List Place
admit i [] = []
admit zero (p ∷ ps) = record p { waits = true } ∷ ps
admit (suc i) (p ∷ ps) = p ∷ admit i ps

module _ (k : Semaphore) {S : Type 0} where
  unfoldable pub start : PoolOptions → World k.Sem S
  unfolding new
  start o = record {
    pool = new k o;
    refused = 0;
    line = [];
    slotted = 0;
    launching_inline = 0;
    cancelled = 0;
    claimed = [];
    destroying = [];
    discarding = [];
    destroyed = [];
    task = top;
    backoff = retry_backoff_start;
    created = [];
  }
