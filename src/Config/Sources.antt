-- ===== src/Config/Sources.antt =====
-- config.rs: `load_from_env`, over what the file system answers.
use browserserve.Common.{Bool, Option, none, some, if◌then◌else◌}
use browserserve.Common.Result.{Result, ok, ok_or, ◌>>=◌}
use browserserve.Common.Text.{Bytes, codes}
use browserserve.Config.Settings.{ConfigError, unreadable, RuntimeConfig, Loaded}
use browserserve.Config.Loading.{Env, load}

abbrev pub first_of : Option Bytes → Option Bytes → Option Bytes
first_of none later = later
first_of (some path) later = some path

-- The explicit path, `BROWSERSERVE_CONFIG`, then the default file when it exists.
unfoldable pub config_path : (Bytes → Bool) → Env → Option Bytes → Option Bytes
config_path exists env explicit_path = first_of explicit_path (
    first_of (env (codes "BROWSERSERVE_CONFIG"))
      (if exists (codes "browserserve.yml") then some (codes "browserserve.yml") else none))

unfoldable pub read_config :
    (Bytes → Option Bytes) → Option Bytes → Result ConfigError (Option Bytes)
read_config read_to_string none = ok none
read_config read_to_string (some path) = do
  text ← ok_or (read_to_string path) (unreadable path)
  ok (some text)

unfoldable pub load_from_env :
    {F : Type 0}
    → F
    → (F → Bool)
    → (Bytes → Option (RuntimeConfig F))
    → (Bytes → Bool)
    → (Bytes → Option Bytes)
    → Env
    → Option Bytes
    → Result ConfigError (Loaded F)
load_from_env f95 is_percent from_yaml exists read_to_string env explicit_path = do
  text ← read_config read_to_string (config_path exists env explicit_path)
  load f95 is_percent from_yaml text env
