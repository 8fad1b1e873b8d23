-- ===== src/Pool/State.antt =====
-- The state of pool.rs (`PoolOptions`, `Warm`, `Inner`, `PoolStats`) and the pieces of its methods
-- that run between two awaits or locks. Counters are usize and wrap; times are milliseconds.
-- The write that `is_alive` may make to its session's handle is not modelled.
use browserserve.Common.{
  ℕ, ◌+◌, ◌*◌, ◌-◌, ◌%◌, ◌^◌, min, max, Bool, true, false, not, ◌&&◌, ◌||◌, Option, none, some,
  List, [], ◌∷◌, ◌++◌, map, length, ltb, leb, if◌then◌else◌,
}
use browserserve.Pool.Semaphore.{Semaphore}

abbrev pub usize_mod : ℕ
usize_mod = 2 ^ 64

pub record PoolOptions : Type 0 where
  pub min_ready : ℕ
  pub max_sessions : ℕ
  pub max_queue : ℕ
  pub queue_timeout : ℕ
  pub warm_idle : ℕ
  pub warm_max_age : ℕ

pub data ClaimError : Type 0 where
  queue_full : ℕ → ClaimError
  queue_timeout : ℕ → ClaimError
  closed : ClaimError
  launch : List ℕ → ClaimError

pub record Warm (S : Type 0) : Type 0 where
  pub session : S
  pub ready_at : ℕ

-- `Inner`. The options' own `max_sessions` only seeds the field here. `notified` is the stored
-- permit of `replenish`.
pub record Inner (Sem S : Type 0) : Type 0 where
  pub options : PoolOptions
  pub semaphore : Sem
  pub max_sessions : ℕ
  pub warm : List (Warm S)
  pub waiting : ℕ
  pub launching : ℕ
  pub notified : Bool

pub record PoolStats : Type 0 where
  pub running : ℕ
  pub queued : ℕ
  pub warm : ℕ
  pub max_sessions : ℕ
  pub max_queue : ℕ
  pub accepting : Bool

abbrev pub sessions : {S : Type 0} → List (Warm S) → List S
sessions = map (λ w. w.session)

-- What `cull_warm` keeps and what it removes.
pub record Culled (S : Type 0) : Type 0 where
  pub kept : List (Warm S)
  pub removed : List S

-- `dead || too_old || excess_idle` for an entry of this age; `kept` is `kept.len()`.
unfoldable pub expires : PoolOptions → Bool → ℕ → ℕ → Bool
expires o alive age kept =
    not alive || (leb o.warm_max_age age || (leb o.min_ready kept && leb o.warm_idle age))

module _ {S : Type 0} where
  -- An entry is kept or removed, in front of what the rest of the loop yields.
  abbrev pub sort_entry : Bool → Warm S → Culled S → Culled S
  sort_entry gone w c =
      if gone then record c { removed = w.session ∷ c.removed } else record c { kept = w ∷ c.kept }

  -- The loop of `cull_warm`. `duration_since` saturates at 0, as `-` does here.
  unfoldable pub cull_from : PoolOptions → (S → Bool) → ℕ → ℕ → List (Warm S) → Culled S
  cull_from o is_alive now kept [] = record { kept = []; removed = [] }
  cull_from o is_alive now kept (w ∷ ws) =
      let gone = expires o (is_alive w.session) (now - w.ready_at) kept in
      sort_entry gone w (cull_from o is_alive now (if gone then kept else kept + 1) ws)

-- The permits after `set_max_sessions` has swapped the ceiling.
resize : (k : Semaphore) → k.Sem → ℕ → ℕ → k.Sem
resize k s previous target =
    if ltb previous target
    then k.add_permits s (target - previous)
    else if ltb target previous
    then k.forget_permits s (previous - target)
    else s

module _ (k : Semaphore) {S : Type 0} where
  open k use {
    Sem, with_permits, available_permits, is_closed, try_acquire, add_permits,
    close as close_semaphore,
  }

  -- `Pool::new`, without the replenisher that it spawns.
  unfoldable pub new : PoolOptions → Inner Sem S
  new o = record {
    options = o;
    semaphore = with_permits o.max_sessions;
    max_sessions = o.max_sessions;
    warm = [];
    waiting = 0;
    launching = 0;
    notified = false;
  }

  -- `waiting.fetch_add(1) + 1`: the new state and `queued`.
  unfoldable pub join_queue : Inner Sem S → Inner Sem S × ℕ
  join_queue p = (record p { waiting = (p.waiting + 1) % usize_mod }, (p.waiting + 1) % usize_mod)

  -- `queued > options.max_queue`
  unfoldable pub queue_is_full : Inner Sem S → ℕ → Bool
  queue_is_full p queued = ltb p.options.max_queue queued

  -- The drop of `CounterGuard`.
  unfoldable pub leave_queue : Inner Sem S → Inner Sem S
  leave_queue p = record p { waiting = (p.waiting + usize_mod - 1) % usize_mod }

  -- One round of the loop in `claim`: the session at the front and what `is_alive` says of it.
  -- `none` breaks the loop; both ways notify the replenisher.
  pop_front : Inner Sem S → List (Warm S) → Option (Warm S) × Inner Sem S
  pop_front p [] = (none, record p { notified = true })
  pop_front p (w ∷ ws) = (some w, record p { warm = ws; notified = true })

  unfoldable pub pop_warm : Inner Sem S → Option (Warm S) × Inner Sem S
  unfolding pop_front
  pop_warm p = pop_front p p.warm

  -- A slot goes back: the error branch of `hand_out`.
  unfoldable pub give_back : Inner Sem S → Inner Sem S
  give_back p = record p { semaphore = add_permits p.semaphore 1 }

  -- `destroy_session`, after the factory has destroyed the session.
  unfoldable pub destroy_session : Inner Sem S → Inner Sem S
  destroy_session p = record p { semaphore = add_permits p.semaphore 1; notified = true }

  -- `close`, and the drained sessions, which are destroyed in the background.
  unfoldable pub close : Inner Sem S → Inner Sem S × List S
  close p = (
    record p { semaphore = close_semaphore p.semaphore; warm = []; notified = true },
    sessions p.warm,
  )

  unfoldable pub stats : Inner Sem S → PoolStats
  stats p = record {
    running =
        if not (is_closed p.semaphore) then p.max_sessions - available_permits p.semaphore else 0;
    queued = min p.waiting p.options.max_queue;
    warm = length p.warm;
    max_sessions = p.max_sessions;
    max_queue = p.options.max_queue;
    accepting = not (is_closed p.semaphore);
  }

  unfoldable pub set_max_sessions : Inner Sem S → ℕ → Inner Sem S
  unfolding resize
  set_max_sessions p target = record p {
    max_sessions = max target 1;
    semaphore = resize k p.semaphore p.max_sessions (max target 1);
  }

  -- `cull_warm` up to its awaits; the removed sessions are destroyed after it.
  unfoldable pub cull_warm : Inner Sem S → (S → Bool) → ℕ → Inner Sem S × List S
  unfolding cull_from
  cull_warm p is_alive now =
      let culled = cull_from p.options is_alive now 0 p.warm in
      (record p { warm = culled.kept }, culled.removed)

  -- How many sessions the replenisher wants to launch.
  unfoldable pub wanted : Inner Sem S → ℕ
  wanted p =
      let active = p.max_sessions - available_permits p.semaphore in
      let headroom = p.max_sessions - (active + length p.warm + p.launching) in
      min (p.options.min_ready - (length p.warm + p.launching)) headroom

  -- `launching.fetch_add(1)` and `launching.fetch_sub(1)`
  unfoldable pub begin_launch : Inner Sem S → Inner Sem S
  begin_launch p = record p { launching = (p.launching + 1) % usize_mod }

  unfoldable pub end_launch : Inner Sem S → Inner Sem S
  end_launch p = record p { launching = (p.launching + usize_mod - 1) % usize_mod }

  -- `push_back` of a session that is ready now.
  unfoldable pub park : Inner Sem S → S → ℕ → Inner Sem S
  park p s now = record p { warm = p.warm ++ record { session = s; ready_at = now } ∷ [] }

abbrev pub retry_backoff_start : ℕ
retry_backoff_start = 200

-- `(backoff * 2).min(10 s)`
unfoldable pub next_backoff : ℕ → ℕ
next_backoff backoff = min (backoff * 2) 10000

-- The wait for work: `warm_idle.min(10 s)`.
unfoldable pub idle_tick : PoolOptions → ℕ
idle_tick o = min o.warm_idle 10000
