-- ===== src/Factory.antt =====
-- factory.rs: how a session's directory, its cgroup leaf and its browser are acquired and given
-- back. What the system answers is a parameter: of the n-th launch, of the n-th leaf, and of the
-- provisioning and the seeding of a directory. A teardown counts as done when it is asked for; the source only logs
-- one that fails.
pub mod Held
pub mod Sandboxed
mod Examples
use browserserve.Common.{
  ℕ, suc, ◌-◌, Bool, true, false, not, ◌&&◌, Option, none, some, List, [], ◌∷◌, ◌++◌, length,
  if◌then◌else◌,
}
use browserserve.Common.Result.{Result, ok, err}
use browserserve.Common.Text.{Bytes, codes}
use browserserve.Config.Settings.{ChromeConfig}

-- The failures that the factory tells apart.
pub data LaunchError : Type 0 where
  sandbox_failure cgroup_enter_failure other_failure : LaunchError

-- Of `LaunchSpec`, what differs between two launches of one factory.
pub record LaunchSpec : Type 0 where
  pub in_leaf : Bool
  pub no_sandbox : Bool
  pub extra_flags : List Bytes

pub record Options : Type 0 where
  pub config_no_sandbox : Bool
  pub require_sandbox : Bool
  pub extra_flags : List Bytes
  pub has_cgroup_base : Bool

-- The flags of `FactoryInner` that launches set, how often a leaf was asked for, every launch in its
-- order, and how many directories, leaves and browsers were acquired and not given to a teardown.
pub record Factory : Type 0 where
  pub sandbox_disabled : Bool
  pub sandbox_blocked : Bool
  pub leaf_enter_blocked : Bool
  pub leaf_seq : ℕ
  pub version : Option Bytes
  pub launches : List LaunchSpec
  pub dirs : ℕ
  pub leaves : ℕ
  pub browsers : ℕ

-- `proxied`: whether the session holds a relay.
pub record ChromeSession : Type 0 where
  pub has_leaf : Bool
  pub proxied : Bool

abbrev pub new : Options → Factory
new o = record {
  sandbox_disabled = o.config_no_sandbox;
  sandbox_blocked = false;
  leaf_enter_blocked = false;
  leaf_seq = 0;
  version = none;
  launches = [];
  dirs = 0;
  leaves = 0;
  browsers = 0;
}

-- What the system answers.
pub record System : Type 0 where
  pub launch : ℕ → Result LaunchError Bytes
  pub leaf : ℕ → Bool

abbrev pub Launched : Type 0
Launched = Result LaunchError Bytes × Factory

-- A launch that fails leaves no browser.
abbrev pub launched : Result LaunchError Bytes → Factory → Launched
launched (ok version) f = (ok version, record f { browsers = suc f.browsers })
launched (err e) f = (err e, f)

abbrev pub launch_spec : Bool → List Bytes → Factory → LaunchSpec
launch_spec leaf flags f = record {
  in_leaf = leaf;
  no_sandbox = f.sandbox_disabled;
  extra_flags = flags;
}

abbrev pub made_leaf : Bool → Factory → Bool × Factory
made_leaf true f = (true, record f { leaves = suc f.leaves })
made_leaf false f = (false, f)

unfoldable pub destroy_cgroup : Bool → Factory → Factory
destroy_cgroup false f = f
destroy_cgroup true f = record f { leaves = f.leaves - 1 }

unfoldable pub teardown_dirs : Factory → Factory
teardown_dirs f = record f { dirs = f.dirs - 1 }

abbrev pub finish : Bool → Bool → Launched → Result LaunchError ChromeSession × Factory
finish proxied leaf (ok version, f) =
    (ok (record { has_leaf = leaf; proxied = proxied }), record f { version = some version })
finish proxied leaf (err e, f) = (err e, teardown_dirs (destroy_cgroup leaf f))

-- `session_proxy_flags`
abbrev pub session_proxy_flags : Bytes → List Bytes
session_proxy_flags proxy_server =
    (codes "--proxy-server=" ++ proxy_server)
    ∷ codes "--proxy-bypass-list=<-loopback>"
    ∷ codes "--force-webrtc-ip-handling-policy=disable_non_proxied_udp"
    ∷ []

abbrev pub is_some : Option Bytes → Bool
is_some none = false
is_some (some b) = true

unfoldable pub destroy : ChromeSession → Factory → Factory
destroy s f =
    let killed = destroy_cgroup s.has_leaf f in
    teardown_dirs (record killed { browsers = killed.browsers - 1 })

unfoldable pub sandbox_required_but_unavailable : Options → Factory → Bool
sandbox_required_but_unavailable o f = o.require_sandbox && f.sandbox_blocked

abbrev pub session_flags : Options → Option Bytes → List Bytes
session_flags o none = o.extra_flags
session_flags o (some proxy_server) = o.extra_flags ++ session_proxy_flags proxy_server

module _ (y : System) where
  unfoldable pub launch : LaunchSpec → Factory → Launched
  launch spec f =
      launched (y.launch (length f.launches)) (record f { launches = f.launches ++ (spec ∷ []) })

  -- After a launch that the sandbox failed: an error when the sandbox is required, or one more
  -- launch without it.
  abbrev pub on_blocked : Bool → Bool → List Bytes → Factory → Launched
  on_blocked true leaf flags f = (err sandbox_failure, record f { sandbox_blocked = true })
  on_blocked false leaf flags f =
      let disabled = record f { sandbox_blocked = true; sandbox_disabled = true } in
      launch (launch_spec leaf flags disabled) disabled

  -- After a first launch, which was sandboxed or not.
  abbrev pub fall_back : Bool → Bool → Bool → List Bytes → Launched → Launched
  fall_back required sandboxed leaf flags (ok version, f) = (ok version, f)
  fall_back required true leaf flags (err sandbox_failure, f) = on_blocked required leaf flags f
  fall_back required sandboxed leaf flags (err e, f) = (err e, f)

module _ (y : System) (o : Options) where
  unfoldable pub launch_browser : Bool → List Bytes → Factory → Launched
  launch_browser leaf flags f =
      fall_back y o.require_sandbox (not f.sandbox_disabled) leaf flags
        (launch y (launch_spec leaf flags f) f)

  unfoldable pub prepare_leaf : Factory → Bool × Factory
  prepare_leaf f =
      if f.leaf_enter_blocked
      then (false, f)
      else if o.has_cgroup_base
      then made_leaf (y.leaf f.leaf_seq) (record f { leaf_seq = suc f.leaf_seq })
      else (false, f)

  -- Whether the leaf is still held, and the outcome.
  abbrev pub retry_outside : Bool → List Bytes → Launched → Bool × Launched
  retry_outside true flags (err cgroup_enter_failure, f) = (
    false,
    launch_browser false flags (destroy_cgroup true (record f { leaf_enter_blocked = true })),
  )
  retry_outside leaf flags m = (leaf, m)

  unfoldable pub launch_session :
      Option Bytes → Factory → Result LaunchError ChromeSession × Factory
  launch_session relay f =
      let prepared = prepare_leaf f in
      let flags = session_flags o relay in
      let first = launch_browser prepared.0 flags prepared.1 in
      let tried = retry_outside prepared.0 flags first in finish (is_some relay) tried.0 tried.1

  -- With what the provisioning and, for a seeded session, the extraction gave.
  unfoldable pub create :
      Option Bytes → Bool → Bool → Factory → Result LaunchError ChromeSession × Factory
  create relay provisioned seeded f =
      let with_dirs = record f { dirs = suc f.dirs } in
      if provisioned
      then (if seeded
          then launch_session relay with_dirs
          else (err other_failure, teardown_dirs with_dirs))
      else (err other_failure, f)

-- What `ChromeFactory::new` takes over from the configuration, with the flags and the cgroup base
-- that it finds.
abbrev pub options_of : ChromeConfig → List Bytes → Bool → Options
options_of c flags has_base = record {
  config_no_sandbox = c.no_sandbox;
  require_sandbox = c.require_sandbox;
  extra_flags = flags;
  has_cgroup_base = has_base;
}

pub data FactoryEvent : Type 0 where
  creates : Option Bytes → Bool → Bool → FactoryEvent
  destroys : ChromeSession → FactoryEvent

module _ (y : System) (o : Options) where
  unfoldable pub factory_run : Factory → List FactoryEvent → Factory
  factory_run f [] = f
  factory_run f (creates relay provisioned seeded ∷ es) =
      factory_run (create y o relay provisioned seeded f).1 es
  factory_run f (destroys s ∷ es) = factory_run (destroy s f) es
