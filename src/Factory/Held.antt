-- ===== src/Factory/Held.antt =====
-- factory.rs: what sessions hold.
use browserserve.Common.{
  ℕ, suc, ◌+◌, Bool, true, false, Option, some, List, if◌then◌else◌, ◌≡◌, arith,
}
use browserserve.Common.Result.{Result, ok, err}
use browserserve.Common.Text.{Bytes}
use browserserve.Factory.{
  LaunchError, sandbox_failure, cgroup_enter_failure, other_failure, LaunchSpec, Options, Factory,
  ChromeSession, System, Launched, launched, launch, on_blocked, fall_back, launch_browser,
  made_leaf, prepare_leaf, destroy_cgroup, teardown_dirs, retry_outside, finish, session_flags,
  launch_session, create, destroy,
}

abbrev pub one_if : Bool → ℕ
one_if true = 1
one_if false = 0

-- That `g` holds these many more directories, leaves and browsers than `f`.
pub record Adds (f g : Factory) (dirs leaves browsers : ℕ) : Type 0 where
  pub dirs_held : g.dirs ≡ f.dirs + dirs
  pub leaves_held : g.leaves ≡ f.leaves + leaves
  pub browsers_held : g.browsers ≡ f.browsers + browsers

-- A browser when the launch succeeded, and nothing else.
abbrev AddsBrowser : Factory → Launched → Type 0
AddsBrowser f (ok version, g) = Adds f g 0 0 1
AddsBrowser f (err e, g) = Adds f g 0 0 0

launched-AddsBrowser :
    (r : Result LaunchError Bytes) (f g : Factory) → Adds f g 0 0 0 → AddsBrowser f (launched r g)
launched-AddsBrowser (ok version) f g h = record {
  dirs_held = h.dirs_held;
  leaves_held = h.leaves_held;
  browsers_held = omega (arith, h.browsers_held);
}
launched-AddsBrowser (err e) f g h = h

pub if_both :
    {A : Type 0} (Q : A → Type 0) (b : Bool) (x y : A) → Q x → Q y → Q (if b then x else y)
if_both Q true x y p q = p
if_both Q false x y p q = q

module _ (y : System) where
  launch-AddsBrowser :
      (spec : LaunchSpec) (f g : Factory) → Adds f g 0 0 0 → AddsBrowser f (launch y spec g)
  unfolding launch
  launch-AddsBrowser spec f g h = launched-AddsBrowser _ f _ (record {
    dirs_held = h.dirs_held;
    leaves_held = h.leaves_held;
    browsers_held = h.browsers_held;
  })

  on_blocked-AddsBrowser :
      (required leaf : Bool) (flags : List Bytes) (f g : Factory)
      → Adds f g 0 0 0
      → AddsBrowser f (on_blocked y required leaf flags g)
  on_blocked-AddsBrowser true leaf flags f g h = record {
    dirs_held = h.dirs_held;
    leaves_held = h.leaves_held;
    browsers_held = h.browsers_held;
  }
  on_blocked-AddsBrowser false leaf flags f g h = launch-AddsBrowser _ f _ (record {
    dirs_held = h.dirs_held;
    leaves_held = h.leaves_held;
    browsers_held = h.browsers_held;
  })

  fall_back-AddsBrowser :
      (required sandboxed leaf : Bool) (flags : List Bytes) (f : Factory) (m : Launched)
      → AddsBrowser f m
      → AddsBrowser f (fall_back y required sandboxed leaf flags m)
  fall_back-AddsBrowser required sandboxed leaf flags f (ok version, g) h = h
  fall_back-AddsBrowser required true leaf flags f (err sandbox_failure, g) h =
      on_blocked-AddsBrowser required leaf flags f g h
  fall_back-AddsBrowser required false leaf flags f (err sandbox_failure, g) h = h
  fall_back-AddsBrowser required true leaf flags f (err cgroup_enter_failure, g) h = h
  fall_back-AddsBrowser required false leaf flags f (err cgroup_enter_failure, g) h = h
  fall_back-AddsBrowser required true leaf flags f (err other_failure, g) h = h
  fall_back-AddsBrowser required false leaf flags f (err other_failure, g) h = h

module _ (y : System) (o : Options) where
  launch_browser-AddsBrowser :
      (leaf : Bool) (flags : List Bytes) (f g : Factory)
      → Adds f g 0 0 0
      → AddsBrowser f (launch_browser y o leaf flags g)
  unfolding launch_browser
  launch_browser-AddsBrowser leaf flags f g h =
      fall_back-AddsBrowser y o.require_sandbox _ leaf flags f _ (launch-AddsBrowser y _ f g h)

  -- The leaf that it made, if any.
  made_leaf-Adds :
      (b : Bool) (f g : Factory)
      → Adds f g 0 0 0
      → Adds f (made_leaf b g).1 0 (one_if (made_leaf b g).0) 0
  made_leaf-Adds true f g h = record {
    dirs_held = h.dirs_held;
    leaves_held = omega (arith, h.leaves_held);
    browsers_held = h.browsers_held;
  }
  made_leaf-Adds false f g h = h

  prepare_leaf-Adds :
      (f : Factory) → Adds f (prepare_leaf y o f).1 0 (one_if (prepare_leaf y o f).0) 0
  unfolding prepare_leaf
  prepare_leaf-Adds f = if_both Made f.leaf_enter_blocked _ _ kept (
      if_both Made o.has_cgroup_base _ _
        (made_leaf-Adds (y.leaf f.leaf_seq) f _ (record {
          dirs_held = omega arith;
          leaves_held = omega arith;
          browsers_held = omega arith;
        }))
        kept)
    where
      Made : Bool × Factory → Type 0
      Made m = Adds f m.1 0 (one_if m.0) 0

      kept : Adds f f 0 0 0
      kept = record {
        dirs_held = omega arith;
        leaves_held = omega arith;
        browsers_held = omega arith;
      }

  -- The browser of a launch, and the leaf that is still held.
  abbrev AddsLaunch : Factory → Bool → Launched → Type 0
  AddsLaunch f leaf (ok version, g) = Adds f g 0 (one_if leaf) 1
  AddsLaunch f leaf (err e, g) = Adds f g 0 (one_if leaf) 0

  joined : (f g h : Factory) (a b : ℕ) → Adds f g 0 a 0 → Adds g h 0 0 b → Adds f h 0 a b
  joined f g h a b p q = record {
    dirs_held = omega (arith, p.dirs_held, q.dirs_held);
    leaves_held = omega (arith, p.leaves_held, q.leaves_held);
    browsers_held = omega (arith, p.browsers_held, q.browsers_held);
  }

  without_leaf :
      (f g h : Factory)
      → Adds f g 0 1 0
      → Adds g h 0 0 0
      → Adds f (destroy_cgroup true (record h { leaf_enter_blocked = true })) 0 0 0
  unfolding destroy_cgroup
  without_leaf f g h p q = record {
    dirs_held = omega (arith, p.dirs_held, q.dirs_held);
    leaves_held = omega (arith, p.leaves_held, q.leaves_held);
    browsers_held = omega (arith, p.browsers_held, q.browsers_held);
  }

  no_leaf : (f : Factory) (m : Launched) → AddsBrowser f m → AddsLaunch f false m
  no_leaf f (ok version, g) h = h
  no_leaf f (err e, g) h = h

  retry_outside-AddsLaunch :
      (leaf : Bool) (flags : List Bytes) (f g : Factory) (m : Launched)
      → Adds f g 0 (one_if leaf) 0
      → AddsBrowser g m
      → AddsLaunch f (retry_outside y o leaf flags m).0 (retry_outside y o leaf flags m).1
  retry_outside-AddsLaunch true flags f g (err cgroup_enter_failure, h) p q =
      no_leaf f _ (launch_browser-AddsBrowser false flags f _ (without_leaf f g h p q))
  retry_outside-AddsLaunch true flags f g (ok version, h) p q = joined f g h 1 1 p q
  retry_outside-AddsLaunch false flags f g (ok version, h) p q = joined f g h 0 1 p q
  retry_outside-AddsLaunch false flags f g (err cgroup_enter_failure, h) p q = joined f g h 0 0 p q
  retry_outside-AddsLaunch true flags f g (err sandbox_failure, h) p q = joined f g h 1 0 p q
  retry_outside-AddsLaunch false flags f g (err sandbox_failure, h) p q = joined f g h 0 0 p q
  retry_outside-AddsLaunch true flags f g (err other_failure, h) p q = joined f g h 1 0 p q
  retry_outside-AddsLaunch false flags f g (err other_failure, h) p q = joined f g h 0 0 p q

-- A session holds one directory, one browser and the leaf that it has, until it is destroyed; a
-- failure holds nothing.
abbrev pub Holds : Factory → Result LaunchError ChromeSession × Factory → Type 0
Holds f (ok s, g) = Adds f g 1 (one_if s.has_leaf) 1 × Adds f (destroy s g) 0 0 0
Holds f (err e, g) = Adds f g 0 0 0

destroyed :
    (leaf proxied : Bool) (f g : Factory)
    → Adds f g 1 (one_if leaf) 1
    → Adds f (destroy (record { has_leaf = leaf; proxied = proxied }) g) 0 0 0
unfolding destroy destroy_cgroup teardown_dirs
destroyed true proxied f g h = record {
  dirs_held = omega (arith, h.dirs_held);
  leaves_held = omega (arith, h.leaves_held);
  browsers_held = omega (arith, h.browsers_held);
}
destroyed false proxied f g h = record {
  dirs_held = omega (arith, h.dirs_held);
  leaves_held = omega (arith, h.leaves_held);
  browsers_held = omega (arith, h.browsers_held);
}

module _ (y : System) (o : Options) where
  finish-Holds :
      (proxied leaf : Bool) (f : Factory) (m : Launched)
      → AddsLaunch y o (record f { dirs = suc f.dirs }) leaf m
      → Holds f (finish proxied leaf m)
  unfolding destroy_cgroup teardown_dirs
  finish-Holds proxied leaf f (ok version, g) h = (held, destroyed leaf proxied f _ held)
    where
      held : Adds f (record g { version = some version }) 1 (one_if leaf) 1
      held = record {
        dirs_held = omega (arith, h.dirs_held);
        leaves_held = h.leaves_held;
        browsers_held = h.browsers_held;
      }
  finish-Holds proxied true f (err e, g) h = record {
    dirs_held = omega (arith, h.dirs_held);
    leaves_held = omega (arith, h.leaves_held);
    browsers_held = h.browsers_held;
  }
  finish-Holds proxied false f (err e, g) h = record {
    dirs_held = omega (arith, h.dirs_held);
    leaves_held = h.leaves_held;
    browsers_held = h.browsers_held;
  }

  launch_session-Holds :
      (relay : Option Bytes) (f : Factory)
      → Holds f (launch_session y o relay (record f { dirs = suc f.dirs }))
  unfolding launch_session
  launch_session-Holds relay f =
      let with_dirs = record f { dirs = suc f.dirs } in
      let prepared = prepare_leaf y o with_dirs in
      finish-Holds _ _ f _ (
        retry_outside-AddsLaunch y o prepared.0 (session_flags o relay) with_dirs prepared.1 _
          (prepare_leaf-Adds y o with_dirs)
          (launch_browser-AddsBrowser y o prepared.0 (session_flags o relay) prepared.1 prepared.1
            (record {
              dirs_held = omega arith;
              leaves_held = omega arith;
              browsers_held = omega arith;
            })))

  -- A session that is created, proxied or seeded or neither, holds one directory, one browser and its
  -- cgroup leaf if it has one, whatever the launches answered and however often one was repeated; a
  -- creation that fails, at any step, has given all that it acquired to a teardown, and destroying
  -- the session gives all that it held to one. What a failed provisioning leaves on the disk, and
  -- what a failed teardown does, are not counted.
  pub create-Holds :
      (relay : Option Bytes) (provisioned seeded : Bool) (f : Factory)
      → Holds f (create y o relay provisioned seeded f)
  unfolding create teardown_dirs
  create-Holds relay false seeded f = record {
    dirs_held = omega arith;
    leaves_held = omega arith;
    browsers_held = omega arith;
  }
  create-Holds relay true false f = record {
    dirs_held = omega arith;
    leaves_held = omega arith;
    browsers_held = omega arith;
  }
  create-Holds relay true true f = launch_session-Holds relay f
