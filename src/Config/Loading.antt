-- ===== src/Config/Loading.antt =====
-- config.rs: `load`, step by step as it reads the environment, and `validate`.
use browserserve.Common.{
  ℕ, ◌^◌, Bool, true, false, not, ◌&&◌, ◌||◌, Option, none, some, is_empty, ◌==◌, if◌then◌else◌,
}
use browserserve.Common.Result.{Result, ok, err, ok_or, ◌>>=◌}
use browserserve.Common.Text.{Bytes, codes, equal, lowercase, trim}
use browserserve.Common.Decimal.{parse_unsigned}
use browserserve.Config.Settings.{
  not_a_number, no_sessions, empty_token, bad_cpu_percent, bad_memory_percent, no_kill_grace,
  no_frame, contradictory_sandbox, ConfigError, yaml, bad_port, invalid, PoolConfig, RuntimeConfig,
  default_config, Loaded,
}

-- `env.get`
abbrev pub Env : Type 0
Env = Bytes → Option Bytes

unfoldable pub is_truthy : Bytes → Bool
is_truthy value =
    let word = lowercase (trim value) in
    equal word (codes "1")
    || (equal word (codes "true") || (equal word (codes "yes") || equal word (codes "on")))

-- A number from the environment, trimmed, in place of the one so far.
abbrev pub parse_or : Bytes → ℕ → ℕ → Option Bytes → Result ConfigError ℕ
parse_or key bound old none = ok old
parse_or key bound old (some value) =
    ok_or (parse_unsigned bound (trim value)) (invalid (not_a_number key))

unfoldable pub read_number : Env → Bytes → ℕ → ℕ → Result ConfigError ℕ
read_number env key bound old = parse_or key bound old (env key)

abbrev pub not_zero : ℕ → Result ConfigError (Option ℕ)
not_zero n = if n == 0 then err (invalid no_sessions) else ok (some n)

abbrev pub parse_sessions : Option ℕ → Option Bytes → Result ConfigError (Option ℕ)
parse_sessions old none = ok old
parse_sessions old (some value) = do
  n ←
      ok_or (parse_unsigned (2 ^ 32) (trim value))
        (invalid (not_a_number (codes "BROWSERSERVE_MAX_SESSIONS")))
  not_zero n

unfoldable pub read_sessions : Env → Option ℕ → Result ConfigError (Option ℕ)
read_sessions env old = parse_sessions old (env (codes "BROWSERSERVE_MAX_SESSIONS"))

abbrev pub switched : Bool → Option Bytes → Bool
switched old none = old
switched old (some value) = is_truthy value

unfoldable pub switch : Env → Bytes → Bool → Bool
switch env key old = switched old (env key)

abbrev pub or_else : {A : Type 0} → Option A → A → A
or_else none a = a
or_else (some b) a = b

abbrev pub path_or : Option Bytes → Option Bytes → Option Bytes
path_or none old = old
path_or (some path) old = some path

abbrev pub port_or : Option Bytes → Result ConfigError ℕ
port_or none = ok 9222
port_or (some value) = ok_or (parse_unsigned (2 ^ 16) value) (bad_port value)

unfoldable pub read_port : Env → Result ConfigError ℕ
read_port env = port_or (env (codes "PORT"))

abbrev pub not_blank : Option Bytes → Result ConfigError (Option Bytes)
not_blank none = ok none
not_blank (some token) =
    if is_empty (trim token) then err (invalid empty_token) else ok (some token)

unfoldable pub read_token : Env → Result ConfigError (Option Bytes)
read_token env = not_blank (env (codes "BROWSERSERVE_TOKEN"))

unfoldable pub read_base :
    {F : Type 0}
    → F
    → (Bytes → Option (RuntimeConfig F))
    → Option Bytes
    → Result ConfigError (RuntimeConfig F)
read_base f95 from_yaml none = ok (default_config f95)
read_base f95 from_yaml (some text) =
    if is_empty (trim text) then ok (default_config f95) else ok_or (from_yaml text) yaml

-- The two paths and the numbers, in the order in which `load` reads them.
unfoldable pub apply_values :
    {F : Type 0} → Env → RuntimeConfig F → Result ConfigError (RuntimeConfig F)
apply_values env c = do
  min_ready ← read_number env (codes "BROWSERSERVE_MIN_READY") (2 ^ 32) c.pool.min_ready
  idle ← read_number env (codes "BROWSERSERVE_IDLE_TIMEOUT_MS") (2 ^ 64) c.session.idle_timeout_ms
  resume ←
      read_number env (codes "BROWSERSERVE_RESUME_WINDOW_MS") (2 ^ 64) c.session.resume_window_ms
  memory ← read_number env (codes "BROWSERSERVE_MEMORY_MAX_MB") (2 ^ 64) c.session.memory_max_mb
  cpu ← read_number env (codes "BROWSERSERVE_CPU_PERCENT") (2 ^ 32) c.session.cpu_percent
  pids ← read_number env (codes "BROWSERSERVE_PIDS_MAX") (2 ^ 32) c.session.pids_max
  max_sessions ← read_sessions env c.pool.max_sessions
  max_queue ← read_number env (codes "BROWSERSERVE_MAX_QUEUE") (2 ^ 32) c.pool.max_queue
  timeout ← read_number env (codes "BROWSERSERVE_QUEUE_TIMEOUT_MS") (2 ^ 64) c.pool.queue_timeout_ms
  ok (record c {
    pool = record (c.pool) {
      min_ready = min_ready;
      max_sessions = max_sessions;
      max_queue = max_queue;
      queue_timeout_ms = timeout;
    };
    session = record (c.session) {
      idle_timeout_ms = idle;
      resume_window_ms = resume;
      memory_max_mb = memory;
      cpu_percent = cpu;
      pids_max = pids;
    };
    chrome = record (c.chrome) {
      executable_path = path_or (env (codes "BROWSERSERVE_CHROME_PATH")) c.chrome.executable_path;
    };
    data_dir = or_else (env (codes "BROWSERSERVE_DATA_DIR")) c.data_dir;
  })

-- What single-use implies.
abbrev pub one_session : PoolConfig → Bool → PoolConfig
one_session p true = record p { max_sessions = some 1; calibrate = false }
one_session p false = p

unfoldable pub apply_switches : {F : Type 0} → Env → RuntimeConfig F → RuntimeConfig F
apply_switches env c =
    let single_use = switch env (codes "BROWSERSERVE_SINGLE_USE") c.session.single_use in
    record c {
      chrome = record (c.chrome) {
        require_sandbox =
            switch env (codes "BROWSERSERVE_REQUIRE_SANDBOX") c.chrome.require_sandbox;
        no_sandbox = switch env (codes "BROWSERSERVE_NO_SANDBOX") c.chrome.no_sandbox;
        stealth = switch env (codes "BROWSERSERVE_STEALTH") c.chrome.stealth;
      };
      proxy = record {
        enabled = switch env (codes "BROWSERSERVE_PROXY") c.proxy.enabled;
        allow_private_upstream =
            switch env (codes "BROWSERSERVE_PROXY_ALLOW_PRIVATE") c.proxy.allow_private_upstream;
      };
      session = record (c.session) { single_use = single_use };
      pool =
          one_session
            (record (c.pool) {
              calibrate = switch env (codes "BROWSERSERVE_CALIBRATE") c.pool.calibrate;
            })
            single_use;
    }

abbrev pub is_no_sessions : Option ℕ → Bool
is_no_sessions none = false
is_no_sessions (some n) = n == 0

unfoldable pub validate :
    {F : Type 0} → (F → Bool) → RuntimeConfig F → Result ConfigError (Unit {0})
validate is_percent c =
    if is_no_sessions c.pool.max_sessions
    then err (invalid no_sessions)
    else if not (is_percent c.pressure.max_cpu_percent)
    then err (invalid bad_cpu_percent)
    else if not (is_percent c.pressure.max_memory_percent)
    then err (invalid bad_memory_percent)
    else if c.session.kill_grace_ms == 0
    then err (invalid no_kill_grace)
    else if c.chrome.max_frame_bytes == 0
    then err (invalid no_frame)
    else if c.chrome.require_sandbox && c.chrome.no_sandbox
    then err (invalid contradictory_sandbox)
    else ok tt

unfoldable pub load :
    {F : Type 0}
    → F
    → (F → Bool)
    → (Bytes → Option (RuntimeConfig F))
    → Option Bytes
    → Env
    → Result ConfigError (Loaded F)
load f95 is_percent from_yaml text env = do
  base ← read_base f95 from_yaml text
  values ← apply_values env base
  port ← read_port env
  token ← read_token env
  valid ← validate is_percent (apply_switches env values)
  ok (record {
    config = apply_switches env values;
    serve = record {
      port = port;
      host = or_else (env (codes "HOST")) (codes "0.0.0.0");
      token = token;
    };
  })
