-- ===== src/Factory/Sandboxed.antt =====
-- factory.rs: the sandbox of the browsers that it launches.
use browserserve.Common.{
  none, some, Bool, true, false, ◌&&◌, Option, List, [], ◌∷◌, ◌++◌, ◌≡◌, refl, sym, subst, arith,
}
use browserserve.Common.Result.{Result, ok, err}
use browserserve.Common.Text.{Bytes, equal}
use browserserve.Config.Settings.{RuntimeConfig, Loaded}
use browserserve.Config.Loading.{Env, load}
use browserserve.Config.Validity.{load-IsValid}
use browserserve.Chrome.Flags.{build_flags}
use browserserve.Chrome.Flags.Sandbox.{IsClean, append-IsClean, build_flags-IsClean}
use browserserve.Factory.Held.{if_both}
use browserserve.Factory.{
  LaunchError, sandbox_failure, cgroup_enter_failure, other_failure, LaunchSpec, Options, Factory,
  new, ChromeSession, System, Launched, launched, launch, launch_spec, fall_back, launch_browser,
  made_leaf, prepare_leaf, destroy_cgroup, teardown_dirs, retry_outside, finish, session_flags,
  session_proxy_flags, launch_session, create, destroy, options_of, FactoryEvent, creates, destroys,
  factory_run,
}

abbrev pub AllSandboxed : List LaunchSpec → Type 0
AllSandboxed [] = Unit {0}
AllSandboxed (s ∷ ss) = (s.no_sandbox ≡ false) × IsClean s.extra_flags × AllSandboxed ss

-- The sandbox is on, and was on at every launch.
pub record IsSandboxed (f : Factory) : Type 0 where
  pub enabled : f.sandbox_disabled ≡ false
  pub launches : AllSandboxed f.launches

AllSandboxed-append :
    (ss : List LaunchSpec) (s : LaunchSpec)
    → AllSandboxed ss
    → s.no_sandbox ≡ false
    → IsClean s.extra_flags
    → AllSandboxed (ss ++ (s ∷ []))
AllSandboxed-append [] s h k c = (k, c, tt)
AllSandboxed-append (t ∷ ss) s h k c = (h.0, h.1, AllSandboxed-append ss s h.2 k c)

launched-IsSandboxed :
    (r : Result LaunchError Bytes) (f : Factory) → IsSandboxed f → IsSandboxed (launched r f).1
launched-IsSandboxed (ok version) f h = record { enabled = h.enabled; launches = h.launches }
launched-IsSandboxed (err e) f h = h

destroy_cgroup-IsSandboxed :
    (leaf : Bool) (f : Factory) → IsSandboxed f → IsSandboxed (destroy_cgroup leaf f)
unfolding destroy_cgroup
destroy_cgroup-IsSandboxed true f h = record { enabled = h.enabled; launches = h.launches }
destroy_cgroup-IsSandboxed false f h = h

module _ (y : System) where
  launch-IsSandboxed :
      (leaf : Bool) (flags : List Bytes) (f : Factory)
      → IsClean flags
      → IsSandboxed f
      → IsSandboxed (launch y (launch_spec leaf flags f) f).1
  unfolding launch
  launch-IsSandboxed leaf flags f c h = launched-IsSandboxed _ _ (record {
    enabled = h.enabled;
    launches = AllSandboxed-append f.launches _ h.launches h.enabled c;
  })

  fall_back-IsSandboxed :
      (required sandboxed leaf : Bool) (flags : List Bytes) (m : Launched)
      → required ≡ true
      → IsSandboxed m.1
      → IsSandboxed (fall_back y required sandboxed leaf flags m).1
  fall_back-IsSandboxed required sandboxed leaf flags (ok version, g) r h = h
  fall_back-IsSandboxed true true leaf flags (err sandbox_failure, g) r h = record {
    enabled = h.enabled;
    launches = h.launches;
  }
  fall_back-IsSandboxed false true leaf flags (err sandbox_failure, g) r h =
      absurd (ground (arith, r))
  fall_back-IsSandboxed required false leaf flags (err sandbox_failure, g) r h = h
  fall_back-IsSandboxed required true leaf flags (err cgroup_enter_failure, g) r h = h
  fall_back-IsSandboxed required false leaf flags (err cgroup_enter_failure, g) r h = h
  fall_back-IsSandboxed required true leaf flags (err other_failure, g) r h = h
  fall_back-IsSandboxed required false leaf flags (err other_failure, g) r h = h

module _ (y : System) (o : Options) where
  made_leaf-IsSandboxed : (b : Bool) (f : Factory) → IsSandboxed f → IsSandboxed (made_leaf b f).1
  made_leaf-IsSandboxed true f h = record { enabled = h.enabled; launches = h.launches }
  made_leaf-IsSandboxed false f h = h

  prepare_leaf-IsSandboxed : (f : Factory) → IsSandboxed f → IsSandboxed (prepare_leaf y o f).1
  unfolding prepare_leaf
  prepare_leaf-IsSandboxed f h =
      if_both {A = Bool × Factory} (λ m. IsSandboxed m.1) f.leaf_enter_blocked _ _ h
        (if_both {A = Bool × Factory} (λ m. IsSandboxed m.1) o.has_cgroup_base _ _
          (made_leaf-IsSandboxed _ _ (record { enabled = h.enabled; launches = h.launches })) h)

  session_flags-IsClean :
      (relay : Option Bytes) → IsClean o.extra_flags → IsClean (session_flags o relay)
  unfolding equal
  session_flags-IsClean none clean = clean
  session_flags-IsClean (some server) clean =
      append-IsClean o.extra_flags (session_proxy_flags server) clean refl

  module _ (required : o.require_sandbox ≡ true) where
    launch_browser-IsSandboxed :
        (leaf : Bool) (flags : List Bytes) (f : Factory)
        → IsClean flags
        → IsSandboxed f
        → IsSandboxed (launch_browser y o leaf flags f).1
    unfolding launch_browser
    launch_browser-IsSandboxed leaf flags f c h =
        fall_back-IsSandboxed y o.require_sandbox _ leaf flags _ required
          (launch-IsSandboxed y leaf flags f c h)

    retry_outside-IsSandboxed :
        (leaf : Bool) (flags : List Bytes) (m : Launched)
        → IsClean flags
        → IsSandboxed m.1
        → IsSandboxed (retry_outside y o leaf flags m).1.1
    retry_outside-IsSandboxed true flags (err cgroup_enter_failure, f) c h =
        launch_browser-IsSandboxed false flags _ c (
          destroy_cgroup-IsSandboxed true _ (record { enabled = h.enabled; launches = h.launches }))
    retry_outside-IsSandboxed true flags (ok version, f) c h = h
    retry_outside-IsSandboxed true flags (err sandbox_failure, f) c h = h
    retry_outside-IsSandboxed true flags (err other_failure, f) c h = h
    retry_outside-IsSandboxed false flags m c h = h

    finish-IsSandboxed :
        (proxied leaf : Bool) (m : Launched)
        → IsSandboxed m.1
        → IsSandboxed (finish proxied leaf m).1
    unfolding teardown_dirs
    finish-IsSandboxed proxied leaf (ok version, f) h = record {
      enabled = h.enabled;
      launches = h.launches;
    }
    finish-IsSandboxed proxied leaf (err e, f) h =
        let kept = destroy_cgroup-IsSandboxed leaf f h in
        record { enabled = kept.enabled; launches = kept.launches }

    destroy-IsSandboxed :
        (s : ChromeSession) (f : Factory) → IsSandboxed f → IsSandboxed (destroy s f)
    unfolding destroy teardown_dirs
    destroy-IsSandboxed s f h =
        let kept = destroy_cgroup-IsSandboxed s.has_leaf f h in
        record { enabled = kept.enabled; launches = kept.launches }

    create-IsSandboxed :
        IsClean o.extra_flags
        → (relay : Option Bytes) (provisioned seeded : Bool) (f : Factory) → IsSandboxed f
        → IsSandboxed (create y o relay provisioned seeded f).1
    unfolding create teardown_dirs launch_session
    create-IsSandboxed clean relay false seeded f h = h
    create-IsSandboxed clean relay true false f h = record {
      enabled = h.enabled;
      launches = h.launches;
    }
    create-IsSandboxed clean relay true true f h = finish-IsSandboxed _ _ _ (
        retry_outside-IsSandboxed _ _ _ (session_flags-IsClean relay clean) (
          launch_browser-IsSandboxed _ _ _ (session_flags-IsClean relay clean)
            (prepare_leaf-IsSandboxed _ (record { enabled = h.enabled; launches = h.launches }))))

    factory_run-IsSandboxed :
        IsClean o.extra_flags
        → (f : Factory) (es : List FactoryEvent) → IsSandboxed f
        → IsSandboxed (factory_run y o f es)
    unfolding factory_run
    factory_run-IsSandboxed clean f [] h = h
    factory_run-IsSandboxed clean f (creates relay provisioned seeded ∷ es) h =
        factory_run-IsSandboxed clean (create y o relay provisioned seeded f).1 es
          (create-IsSandboxed clean relay provisioned seeded f h)
    factory_run-IsSandboxed clean f (destroys s ∷ es) h =
        factory_run-IsSandboxed clean (destroy s f) es (destroy-IsSandboxed s f h)

and-left : (a b : Bool) → (a && b) ≡ false → a ≡ true → b ≡ false
and-left true b h k = h
and-left false b h k = cc

-- The command line of each launch is without `--no-sandbox`.
abbrev pub NoneUnsandboxed : Bytes → Bool → List LaunchSpec → Type 0
NoneUnsandboxed dir shm [] = Unit {0}
NoneUnsandboxed dir shm (s ∷ ss) =
    IsClean (
      build_flags (record {
        user_data_dir = dir;
        no_sandbox = s.no_sandbox;
        disable_dev_shm = shm;
        extra = s.extra_flags;
      }))
    × NoneUnsandboxed dir shm ss

AllSandboxed-NoneUnsandboxed :
    (dir : Bytes) (shm : Bool) (ss : List LaunchSpec) → AllSandboxed ss → NoneUnsandboxed dir shm ss
AllSandboxed-NoneUnsandboxed dir shm [] h = tt
AllSandboxed-NoneUnsandboxed dir shm (s ∷ ss) h = (
  subst
      (λ b. IsClean (
        build_flags (record {
          user_data_dir = dir;
          no_sandbox = b;
          disable_dev_shm = shm;
          extra = s.extra_flags;
        })))
      (sym h.0) (build_flags-IsClean dir shm s.extra_flags h.1),
  AllSandboxed-NoneUnsandboxed dir shm ss h.2,
)

-- When the configuration that `load` accepted requires the sandbox, and `--no-sandbox` is not itself
-- among the factory's extra flags, it is on the command line of no browser that is launched,
-- whatever sessions are created and destroyed and however their launches fail.
pub load-AllSandboxed :
    {F : Type 0} (f95 : F) (is_percent : F → Bool) (from_yaml : Bytes → Option (RuntimeConfig F))
    (text : Option Bytes) (env : Env) (l : Loaded F) (y : System) (flags : List Bytes)
    (has_base : Bool) (es : List FactoryEvent) (dir : Bytes) (shm : Bool)
    → load f95 is_percent from_yaml text env ≡ ok l
    → l.config.chrome.require_sandbox ≡ true
    → IsClean flags
    → NoneUnsandboxed dir shm
        (factory_run y
          (options_of l.config.chrome flags has_base)
          (new (options_of l.config.chrome flags has_base))
          es).launches
load-AllSandboxed f95 is_percent from_yaml text env l y flags has_base es dir shm accepted required
      clean =
    let (valid, _, _, _) = load-IsValid f95 is_percent from_yaml text env l accepted in
    AllSandboxed-NoneUnsandboxed dir shm _
      (factory_run-IsSandboxed y (options_of l.config.chrome flags has_base) required clean
        (new (options_of l.config.chrome flags has_base)) es
        (record { enabled = and-left _ _ valid.sandbox required; launches = tt })).launches
