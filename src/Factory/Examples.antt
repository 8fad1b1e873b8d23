-- ===== src/Factory/Examples.antt =====
-- Concrete creations of sessions, with the theorems at them.
use browserserve.Common.{ℕ, true, false, leb, ◌==◌, none, some, [], ◌∷◌, if◌then◌else◌, ◌≡◌, refl}
use browserserve.Common.Result.{ok, err}
use browserserve.Common.Text.{codes, equal, lowercase, trim, trim_start, trim_end, cut_space}
use browserserve.Config.Settings.{RuntimeConfig, default_config, Loaded}
use browserserve.Config.Loading.{
  Env, is_truthy, read_number, read_sessions, switch, read_port, read_token, read_base,
  apply_values, apply_switches, validate, load,
}
use browserserve.Factory.{
  sandbox_failure, cgroup_enter_failure, Options, new, System, launch, launch_browser, prepare_leaf,
  launch_session, destroy_cgroup, create, options_of, creates, factory_run,
}
use browserserve.Factory.Held.{Holds, create-Holds}
use browserserve.Factory.Sandboxed.{NoneUnsandboxed, load-AllSandboxed}

-- The first launch cannot enter its leaf, and the second is blocked by the sandbox.
abbrev troubled : System
troubled = record {
  launch = λ n.
      if n == 0
      then err cgroup_enter_failure
      else if n == 1
      then err sandbox_failure
      else ok (codes "v");
  leaf = λ n. true;
}

abbrev options : Options
options = record {
  config_no_sandbox = false;
  require_sandbox = false;
  extra_flags = [];
  has_cgroup_base = true;
}

create_unlucky : (create troubled options none true true (new options)).1.browsers ≡ 1
unfolding create launch_session prepare_leaf launch_browser launch destroy_cgroup
create_unlucky = refl

create-Holds_example : Holds (new options) (create troubled options none true true (new options))
create-Holds_example = create-Holds troubled options none true true (new options)

abbrev strict : Env
strict key = if equal key (codes "BROWSERSERVE_REQUIRE_SANDBOX") then some (codes "1") else none

abbrev defaults : RuntimeConfig ℕ
defaults = default_config 95

abbrev required : Loaded ℕ
required = record {
  config = record defaults { chrome = record (defaults.chrome) { require_sandbox = true } };
  serve = record { port = 9222; host = codes "0.0.0.0"; token = none };
}

load-required : load 95 (λ n. leb n 100) (λ text. none) none strict ≡ ok required
unfolding load is_truthy read_number read_sessions switch read_port read_token read_base
    apply_values apply_switches validate equal lowercase trim trim_start trim_end cut_space
load-required = refl

load-AllSandboxed_example :
    NoneUnsandboxed
      (codes "/d")
      false
      (factory_run troubled
        (options_of required.config.chrome [] true)
        (new (options_of required.config.chrome [] true))
        (creates none true true
          ∷ creates (some (codes "http://127.0.0.1:9")) true true
          ∷ [])).launches
load-AllSandboxed_example =
    load-AllSandboxed 95 (λ n. leb n 100) (λ text. none) none strict required troubled [] true
      (creates none true true ∷ creates (some (codes "http://127.0.0.1:9")) true true ∷ [])
      (codes "/d") false load-required refl refl
