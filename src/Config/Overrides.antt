-- ===== src/Config/Overrides.antt =====
-- config.rs: where the numbers of an accepted configuration come from.
use browserserve.Common.{ℕ, ◌^◌, Option, ◌≡◌, refl, sym, subst, ◌∙◌, Bool, true, false}
use browserserve.Common.Result.{ok, >>=-eq-ok, ok_injective}
use browserserve.Common.Text.{Bytes, codes}
use browserserve.Config.Settings.{RuntimeConfig, PoolConfig, Loaded}
use browserserve.Config.Loading.{
  Env, read_number, read_base, apply_values, apply_switches, one_session, read_port, read_token,
  validate, load, read_sessions,
}
use browserserve.Config.Chosen.{
  Chosen, ChosenSessions, IsCeiling, read_number-Chosen, read_sessions-ChosenSessions,
}

-- Of the configuration before the environment and the one after it.
pub record IsOverridden {F : Type 0} (env : Env) (base c : RuntimeConfig F) : Type 0 where
  pub min_ready :
      Chosen env (codes "BROWSERSERVE_MIN_READY") (2 ^ 32) base.pool.min_ready c.pool.min_ready
  pub max_queue :
      Chosen env (codes "BROWSERSERVE_MAX_QUEUE") (2 ^ 32) base.pool.max_queue c.pool.max_queue
  pub queue_timeout :
      Chosen env
        (codes "BROWSERSERVE_QUEUE_TIMEOUT_MS")
        (2 ^ 64)
        base.pool.queue_timeout_ms
        c.pool.queue_timeout_ms
  pub idle_timeout :
      Chosen env
        (codes "BROWSERSERVE_IDLE_TIMEOUT_MS")
        (2 ^ 64)
        base.session.idle_timeout_ms
        c.session.idle_timeout_ms
  pub resume_window :
      Chosen env
        (codes "BROWSERSERVE_RESUME_WINDOW_MS")
        (2 ^ 64)
        base.session.resume_window_ms
        c.session.resume_window_ms
  pub memory_max :
      Chosen env
        (codes "BROWSERSERVE_MEMORY_MAX_MB")
        (2 ^ 64)
        base.session.memory_max_mb
        c.session.memory_max_mb
  pub cpu_percent :
      Chosen env
        (codes "BROWSERSERVE_CPU_PERCENT")
        (2 ^ 32)
        base.session.cpu_percent
        c.session.cpu_percent
  pub pids_max :
      Chosen env (codes "BROWSERSERVE_PIDS_MAX") (2 ^ 32) base.session.pids_max c.session.pids_max
  pub kill_grace : c.session.kill_grace_ms ≡ base.session.kill_grace_ms
  pub tmpfs_size : c.session.tmpfs_size_mb ≡ base.session.tmpfs_size_mb
  pub warm_idle : c.pool.warm_idle_ms ≡ base.pool.warm_idle_ms
  pub warm_max_age : c.pool.warm_max_age_ms ≡ base.pool.warm_max_age_ms
  pub launch_timeout : c.chrome.launch_timeout_ms ≡ base.chrome.launch_timeout_ms
  pub max_frame : c.chrome.max_frame_bytes ≡ base.chrome.max_frame_bytes
  pub pressure : c.pressure ≡ base.pressure

apply_values-IsOverridden :
    {F : Type 0} (env : Env) (base c : RuntimeConfig F)
    → apply_values env base ≡ ok c
    → IsOverridden env base c × ChosenSessions env base.pool.max_sessions c.pool.max_sessions
unfolding apply_values
apply_values-IsOverridden env base c h =
    let (a1, e1, h1) =
      >>=-eq-ok (read_number env (codes "BROWSERSERVE_MIN_READY") (2 ^ 32) base.pool.min_ready) _ c
        h in
    let (a2, e2, h2) =
      >>=-eq-ok
        (read_number env (codes "BROWSERSERVE_IDLE_TIMEOUT_MS") (2 ^ 64)
          base.session.idle_timeout_ms)
        _ c h1 in
    let (a3, e3, h3) =
      >>=-eq-ok
        (read_number env (codes "BROWSERSERVE_RESUME_WINDOW_MS") (2 ^ 64)
          base.session.resume_window_ms)
        _ c h2 in
    let (a4, e4, h4) =
      >>=-eq-ok
        (read_number env (codes "BROWSERSERVE_MEMORY_MAX_MB") (2 ^ 64) base.session.memory_max_mb) _
        c h3 in
    let (a5, e5, h5) =
      >>=-eq-ok
        (read_number env (codes "BROWSERSERVE_CPU_PERCENT") (2 ^ 32) base.session.cpu_percent) _ c
        h4 in
    let (a6, e6, h6) =
      >>=-eq-ok (read_number env (codes "BROWSERSERVE_PIDS_MAX") (2 ^ 32) base.session.pids_max) _ c
        h5 in
    let (a7, e7, h7) = >>=-eq-ok (read_sessions env base.pool.max_sessions) _ c h6 in
    let (a8, e8, h8) =
      >>=-eq-ok (read_number env (codes "BROWSERSERVE_MAX_QUEUE") (2 ^ 32) base.pool.max_queue) _ c
        h7 in
    let (a9, e9, h9) =
      >>=-eq-ok
        (read_number env (codes "BROWSERSERVE_QUEUE_TIMEOUT_MS") (2 ^ 64)
          base.pool.queue_timeout_ms)
        _ c h8 in
    subst
      (λ c. IsOverridden env base c × ChosenSessions env base.pool.max_sessions c.pool.max_sessions)
      (ok_injective _ c h9)
      (
        (record {
          min_ready = read_number-Chosen _ _ _ _ _ e1;
          max_queue = read_number-Chosen _ _ _ _ _ e8;
          queue_timeout = read_number-Chosen _ _ _ _ _ e9;
          idle_timeout = read_number-Chosen _ _ _ _ _ e2;
          resume_window = read_number-Chosen _ _ _ _ _ e3;
          memory_max = read_number-Chosen _ _ _ _ _ e4;
          cpu_percent = read_number-Chosen _ _ _ _ _ e5;
          pids_max = read_number-Chosen _ _ _ _ _ e6;
          kill_grace = refl;
          tmpfs_size = refl;
          warm_idle = refl;
          warm_max_age = refl;
          launch_timeout = refl;
          max_frame = refl;
          pressure = refl;
        }),
        read_sessions-ChosenSessions _ _ _ e7,
      )

module _ (p : PoolConfig) where
  one_session-min_ready : (b : Bool) → (one_session p b).min_ready ≡ p.min_ready
  one_session-min_ready true = refl
  one_session-min_ready false = refl

  one_session-max_queue : (b : Bool) → (one_session p b).max_queue ≡ p.max_queue
  one_session-max_queue true = refl
  one_session-max_queue false = refl

  one_session-warm_idle : (b : Bool) → (one_session p b).warm_idle_ms ≡ p.warm_idle_ms
  one_session-warm_idle true = refl
  one_session-warm_idle false = refl

  one_session-warm_max_age : (b : Bool) → (one_session p b).warm_max_age_ms ≡ p.warm_max_age_ms
  one_session-warm_max_age true = refl
  one_session-warm_max_age false = refl

  one_session-IsCeiling :
      (b : Bool) (env : Env) (old : Option ℕ)
      → ChosenSessions env old p.max_sessions
      → IsCeiling env b old (one_session p b).max_sessions
  one_session-IsCeiling true env old h = refl
  one_session-IsCeiling false env old h = h

  one_session-queue_timeout : (b : Bool) → (one_session p b).queue_timeout_ms ≡ p.queue_timeout_ms
  one_session-queue_timeout true = refl
  one_session-queue_timeout false = refl

apply_switches-IsOverridden :
    {F : Type 0} (env : Env) (base c : RuntimeConfig F)
    → IsOverridden env base c
    → IsOverridden env base (apply_switches env c)
unfolding apply_switches
apply_switches-IsOverridden env base c o = record {
  min_ready = subst (Chosen env _ _ _) (sym (one_session-min_ready _ _)) o.min_ready;
  max_queue = subst (Chosen env _ _ _) (sym (one_session-max_queue _ _)) o.max_queue;
  queue_timeout = subst (Chosen env _ _ _) (sym (one_session-queue_timeout _ _)) o.queue_timeout;
  idle_timeout = o.idle_timeout;
  resume_window = o.resume_window;
  memory_max = o.memory_max;
  cpu_percent = o.cpu_percent;
  pids_max = o.pids_max;
  kill_grace = o.kill_grace;
  tmpfs_size = o.tmpfs_size;
  warm_idle = one_session-warm_idle _ _ ∙ o.warm_idle;
  warm_max_age = one_session-warm_max_age _ _ ∙ o.warm_max_age;
  launch_timeout = o.launch_timeout;
  max_frame = o.max_frame;
  pressure = o.pressure;
}

apply_switches-IsCeiling :
    {F : Type 0} (env : Env) (c : RuntimeConfig F) (old : Option ℕ)
    → ChosenSessions env old c.pool.max_sessions
    → IsCeiling env
        (apply_switches env c).session.single_use
        old
        (apply_switches env c).pool.max_sessions
unfolding apply_switches
apply_switches-IsCeiling env c old h = one_session-IsCeiling _ _ env old h

-- In an accepted configuration the warm minimum, the queue's bound and timeout, the idle timeout,
-- the resume window and the session's limits on memory, CPU and processes are each the number of
-- the environment variable, white space around it stripped, when that is set, and what the file or
-- the default gives when it is not. So is the ceiling of sessions, except that it is 1 in single use.
-- The grace period, the size of the tmpfs, the ages of warm sessions, the launch timeout, the frame
-- bound and the pressure limits never come from the environment.
pub load-IsOverridden :
    {F : Type 0} (f95 : F) (is_percent : F → Bool) (from_yaml : Bytes → Option (RuntimeConfig F))
    (text : Option Bytes) (env : Env) (base : RuntimeConfig F) (l : Loaded F)
    → read_base f95 from_yaml text ≡ ok base
    → load f95 is_percent from_yaml text env ≡ ok l
    → IsOverridden env base l.config
      × IsCeiling env l.config.session.single_use base.pool.max_sessions l.config.pool.max_sessions
unfolding load
load-IsOverridden f95 is_percent from_yaml text env base l b h =
    let (values, is_values, h2) = >>=-eq-ok (apply_values env base) _ l (rw b at h) in
    let (port, _, h3) = >>=-eq-ok (read_port env) _ l h2 in
    let (token, _, h4) = >>=-eq-ok (read_token env) _ l h3 in
    let (tt, _, h5) = >>=-eq-ok (validate is_percent (apply_switches env values)) _ l h4 in
    let (overridden, sessions) = apply_values-IsOverridden env base values is_values in
    subst
      (λ k.
        IsOverridden env base k.config
        × IsCeiling env k.config.session.single_use base.pool.max_sessions
            k.config.pool.max_sessions)
      (ok_injective _ l h5)
      (
        apply_switches-IsOverridden env base values overridden,
        apply_switches-IsCeiling env values base.pool.max_sessions sessions,
      )
