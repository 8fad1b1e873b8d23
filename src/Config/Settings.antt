-- ===== src/Config/Settings.antt =====
-- config.rs: the sections of the configuration with their defaults, and the errors.
use browserserve.Common.{ℕ, ◌*◌, Bool, true, false, Option, none, List, []}
use browserserve.Common.Text.{Bytes, codes}

-- Why a configuration is refused; `not_a_number` names the variable.
pub data Reason : Type 0 where
  not_a_number : Bytes → Reason
  no_sessions empty_token bad_cpu_percent bad_memory_percent no_kill_grace no_frame : Reason
  contradictory_sandbox : Reason

pub data ConfigError : Type 0 where
  yaml : ConfigError
  unreadable : Bytes → ConfigError
  bad_port : Bytes → ConfigError
  invalid : Reason → ConfigError

pub record PoolConfig : Type 0 where
  pub min_ready : ℕ
  pub calibrate : Bool
  pub max_sessions : Option ℕ
  pub max_queue : ℕ
  pub queue_timeout_ms : ℕ
  pub warm_idle_ms : ℕ
  pub warm_max_age_ms : ℕ

abbrev pub default_pool : PoolConfig
default_pool = record {
  min_ready = 1;
  calibrate = true;
  max_sessions = none;
  max_queue = 10;
  queue_timeout_ms = 30_000;
  warm_idle_ms = 300_000;
  warm_max_age_ms = 3_600_000;
}

pub record SessionConfig : Type 0 where
  pub idle_timeout_ms : ℕ
  pub memory_max_mb : ℕ
  pub cpu_percent : ℕ
  pub pids_max : ℕ
  pub tmpfs_size_mb : ℕ
  pub kill_grace_ms : ℕ
  pub single_use : Bool
  pub resume_window_ms : ℕ

abbrev pub default_session : SessionConfig
default_session = record {
  idle_timeout_ms = 0;
  memory_max_mb = 0;
  cpu_percent = 0;
  pids_max = 0;
  tmpfs_size_mb = 512;
  kill_grace_ms = 5_000;
  single_use = false;
  resume_window_ms = 0;
}

pub record PressureConfig (F : Type 0) : Type 0 where
  pub max_cpu_percent : F
  pub max_memory_percent : F

-- Both are `95.0`.
abbrev pub default_pressure : {F : Type 0} → F → PressureConfig F
default_pressure f95 = record { max_cpu_percent = f95; max_memory_percent = f95 }

pub record ProxyConfig : Type 0 where
  pub enabled : Bool
  pub allow_private_upstream : Bool

abbrev pub default_proxy : ProxyConfig
default_proxy = record { enabled = true; allow_private_upstream = false }

pub data Transport : Type 0 where
  pipe port : Transport

pub record ChromeConfig : Type 0 where
  pub executable_path : Option Bytes
  pub transport : Transport
  pub no_sandbox : Bool
  pub require_sandbox : Bool
  pub stealth : Bool
  pub extra_flags : List Bytes
  pub launch_timeout_ms : ℕ
  pub max_frame_bytes : ℕ

abbrev pub default_chrome : ChromeConfig
default_chrome = record {
  executable_path = none;
  transport = pipe;
  no_sandbox = false;
  require_sandbox = false;
  stealth = true;
  extra_flags = [];
  launch_timeout_ms = 30_000;
  max_frame_bytes = 256 * 1024 * 1024;
}

pub record RuntimeConfig (F : Type 0) : Type 0 where
  pub pool : PoolConfig
  pub session : SessionConfig
  pub pressure : PressureConfig F
  pub chrome : ChromeConfig
  pub proxy : ProxyConfig
  pub data_dir : Bytes
  pub drain_timeout_ms : ℕ
  pub external_address : Option Bytes

abbrev pub default_config : {F : Type 0} → F → RuntimeConfig F
default_config f95 = record {
  pool = default_pool;
  session = default_session;
  pressure = default_pressure f95;
  chrome = default_chrome;
  proxy = default_proxy;
  data_dir = codes ".browserserve";
  drain_timeout_ms = 30_000;
  external_address = none;
}

pub record ServeSettings : Type 0 where
  pub port : ℕ
  pub host : Bytes
  pub token : Option Bytes

pub record Loaded (F : Type 0) : Type 0 where
  pub config : RuntimeConfig F
  pub serve : ServeSettings
