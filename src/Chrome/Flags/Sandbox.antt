-- ===== src/Chrome/Flags/Sandbox.antt =====
-- chrome/flags.rs: `--no-sandbox` on the command line.
use browserserve.Common.{Bool, true, false, not, List, [], ◌∷◌, ◌++◌, retain, ◌≡◌, refl, ◌∙◌, arith}
use browserserve.Common.Text.{Bytes, codes, equal, strip_prefix}
use browserserve.Chrome.Flags.{
  default_flags, starts_with, Mergeable, disable_features, enable_features, disable_blink_features,
  prefix_of, is_mergeable, has, as_switch, merged, merge_feature_switches, flag_if, build_flags,
}
use browserserve.Chrome.Flags.Values.{has-append}

abbrev pub no_sandbox_flag : Bytes
no_sandbox_flag = codes "--no-sandbox"

-- None of the flags is `--no-sandbox`.
abbrev pub IsClean : List Bytes → Type 0
IsClean flags = has no_sandbox_flag flags ≡ false

pub append-IsClean : (a b : List Bytes) → IsClean a → IsClean b → IsClean (a ++ b)
append-IsClean a b h k = has-append no_sandbox_flag a b ∙ rw (h, k) refl

retain-IsClean : (p : Bytes → Bool) (flags : List Bytes) → IsClean flags → IsClean (retain p flags)
retain-IsClean p [] h = refl
retain-IsClean p (flag ∷ flags) h = ground (arith, h, retain-IsClean p flags)

as_switch-IsClean : (m : Mergeable) (values : List Bytes) → IsClean (as_switch (prefix_of m) values)
unfolding equal
as_switch-IsClean m [] = refl
as_switch-IsClean disable_features (v ∷ vs) = refl
as_switch-IsClean enable_features (v ∷ vs) = refl
as_switch-IsClean disable_blink_features (v ∷ vs) = refl

default-IsClean : IsClean (retain (λ flag. not (is_mergeable flag)) default_flags)
unfolding equal is_mergeable starts_with strip_prefix
default-IsClean = refl

merged-IsClean : (extra : List Bytes) → IsClean (merge_feature_switches extra).0
unfolding merge_feature_switches
merged-IsClean extra =
    append-IsClean (merged disable_features extra) _ (as_switch-IsClean disable_features _) (
      append-IsClean (merged enable_features extra) _ (as_switch-IsClean enable_features _)
        (as_switch-IsClean disable_blink_features _))

rest-IsClean : (extra : List Bytes) → IsClean extra → IsClean (merge_feature_switches extra).1
unfolding merge_feature_switches
rest-IsClean extra h = retain-IsClean _ extra h

fixed-IsClean :
    (dir : Bytes) (shm : Bool) (rest : List Bytes)
    → IsClean rest
    → IsClean (
        codes "--remote-debugging-pipe"
        ∷ (codes "--user-data-dir=" ++ dir)
        ∷ (flag_if shm (codes "--disable-dev-shm-usage") ++ rest))
unfolding equal
fixed-IsClean dir true rest h = h
fixed-IsClean dir false rest h = h

blank-IsClean : IsClean (codes "about:blank" ∷ [])
unfolding equal
blank-IsClean = refl

-- A command line whose own flags are clean is clean, unless it is to go without the sandbox.
pub build_flags-IsClean :
    (dir : Bytes) (shm : Bool) (extra : List Bytes)
    → IsClean extra
    → IsClean (
        build_flags (record {
          user_data_dir = dir;
          no_sandbox = false;
          disable_dev_shm = shm;
          extra = extra;
        }))
unfolding build_flags
build_flags-IsClean dir shm extra h = append-IsClean _ _ default-IsClean (
    append-IsClean _ _ (merged-IsClean extra)
      (fixed-IsClean dir shm _ (append-IsClean _ _ (rest-IsClean extra h) blank-IsClean)))
