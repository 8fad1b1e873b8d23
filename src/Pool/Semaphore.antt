-- ===== src/Pool/Semaphore.antt =====
-- `tokio::sync::Semaphore`, which pool.rs only calls: its operations and their documented laws.
use browserserve.Common.{ℕ, suc, ◌+◌, ◌-◌, Bool, true, false, ◌≡◌}

-- What `try_acquire` answers. The permits that pool.rs gets it forgets, so none returns by itself.
pub data TryAcquire (Sem : Type 0) : Type 0 where
  closed : TryAcquire Sem
  no_permits : TryAcquire Sem
  permit : Sem → TryAcquire Sem

pub record Semaphore : Type 1 where
  pub Sem : Type 0
  pub with_permits : ℕ → Sem
  pub available_permits : Sem → ℕ
  pub is_closed : Sem → Bool
  pub try_acquire : Sem → TryAcquire Sem
  pub add_permits : Sem → ℕ → Sem
  pub forget_permits : Sem → ℕ → Sem
  pub close : Sem → Sem

-- The outcome of `try_acquire` by the state of the semaphore.
abbrev pub Tried : (k : Semaphore) → k.Sem → TryAcquire k.Sem → Type 0
Tried k s closed = k.is_closed s ≡ true
Tried k s no_permits = (k.is_closed s ≡ false) × (k.available_permits s ≡ 0)
Tried k s (permit t) =
    (k.is_closed s ≡ false)
    × (k.is_closed t ≡ false)
    × (k.available_permits s ≡ suc (k.available_permits t))

pub record SemaphoreLaws (k : Semaphore) : Type 0 where
  pub available-with_permits : (n : ℕ) → k.available_permits (k.with_permits n) ≡ n
  pub is_closed-with_permits : (n : ℕ) → k.is_closed (k.with_permits n) ≡ false
  pub try_acquire-Tried : (s : k.Sem) → Tried k s (k.try_acquire s)
  pub available-add_permits :
      (s : k.Sem) (n : ℕ) → k.available_permits (k.add_permits s n) ≡ k.available_permits s + n
  pub is_closed-add_permits : (s : k.Sem) (n : ℕ) → k.is_closed (k.add_permits s n) ≡ k.is_closed s
  pub available-forget_permits :
      (s : k.Sem) (n : ℕ) → k.available_permits (k.forget_permits s n) ≡ k.available_permits s - n
  pub is_closed-forget_permits :
      (s : k.Sem) (n : ℕ) → k.is_closed (k.forget_permits s n) ≡ k.is_closed s
  pub available-close : (s : k.Sem) → k.available_permits (k.close s) ≡ k.available_permits s
  pub is_closed-close : (s : k.Sem) → k.is_closed (k.close s) ≡ true
