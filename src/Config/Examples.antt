-- ===== src/Config/Examples.antt =====
-- Tests of the configuration, with the theorems at concrete environments.
use browserserve.Common.{
  ℕ, ◌^◌, ◌<◌, Bool, true, false, ◌&&◌, leb, if◌then◌else◌, Option, none, some, List, [], ◌∷◌, ◌≡◌,
  refl,
}
use browserserve.Common.Result.{ok, err}
use browserserve.Common.Text.{Bytes, codes, equal, lowercase, trim, trim_start, trim_end, cut_space}
use browserserve.Common.Decimal.{parse_unsigned, parse_digits}
use browserserve.Config.Settings.{
  invalid, contradictory_sandbox, RuntimeConfig, default_config, Loaded,
}
use browserserve.Config.Loading.{
  Env, is_truthy, read_number, read_sessions, switch, read_port, read_token, read_base,
  apply_values, apply_switches, validate, load,
}
use browserserve.Config.Validity.{IsValid, IsSingleSession, IsToken, load-IsValid}
use browserserve.Config.Chosen.{IsCeiling}
use browserserve.Config.Overrides.{IsOverridden, load-IsOverridden}

abbrev setting : List (Bytes × Bytes) → Env
setting [] key = none
setting ((name, value) ∷ more) key = if equal name key then some value else setting more key

abbrev percent : ℕ → Bool
percent n = leb 1 n && leb n 100

-- A file that sets one field.
abbrev file : Bytes → Option (RuntimeConfig ℕ)
file text = some (record (default_config 95) { drain_timeout_ms = 7 })

abbrev single : Env
single = setting (
    (codes "BROWSERSERVE_MAX_QUEUE", codes " 3 ")
    ∷ (codes "BROWSERSERVE_SINGLE_USE", codes "On")
    ∷ (codes "PORT", codes "80")
    ∷ (codes "BROWSERSERVE_TOKEN", codes "k")
    ∷ [])

abbrev from_file : RuntimeConfig ℕ
from_file = record (default_config 95) { drain_timeout_ms = 7 }

abbrev accepted : Loaded ℕ
accepted = record {
  config = record from_file {
    pool = record (from_file.pool) { max_queue = 3; max_sessions = some 1; calibrate = false };
    session = record (from_file.session) { single_use = true };
  };
  serve = record { port = 80; host = codes "0.0.0.0"; token = some (codes "k") };
}

load-accepted : load 95 percent file (some (codes "x")) single ≡ ok accepted
unfolding load is_truthy read_number read_sessions switch read_port read_token read_base
    apply_values apply_switches validate equal lowercase trim trim_start trim_end cut_space
    parse_unsigned parse_digits
load-accepted = refl

contradictory_settings :
    load 95 percent file none (
      setting (
        (codes "BROWSERSERVE_NO_SANDBOX", codes "1")
        ∷ (codes "BROWSERSERVE_REQUIRE_SANDBOX", codes "yes")
        ∷ []))
    ≡ err (invalid contradictory_sandbox)
unfolding load is_truthy read_number read_sessions switch read_port read_token read_base
    apply_values apply_switches validate equal lowercase trim trim_start trim_end cut_space
    parse_unsigned parse_digits
contradictory_settings = refl

load-IsValid_example :
    IsValid percent accepted.config
    × IsSingleSession accepted.config
    × (accepted.serve.port < 2 ^ 16)
    × IsToken accepted.serve.token
load-IsValid_example = load-IsValid 95 percent file (some (codes "x")) single accepted load-accepted

read_base-file : read_base 95 file (some (codes "x")) ≡ ok from_file
unfolding read_base trim trim_start trim_end cut_space
read_base-file = refl

load-IsOverridden_example :
    IsOverridden single from_file accepted.config
    × IsCeiling single accepted.config.session.single_use from_file.pool.max_sessions
        accepted.config.pool.max_sessions
load-IsOverridden_example =
    load-IsOverridden 95 percent file (some (codes "x")) single from_file accepted read_base-file
      load-accepted
