-- ===== src/Chrome/Flags/Merged.antt =====
-- chrome/flags.rs: the switches that Chrome reads once.
use browserserve.Common.{
  ℕ, ◌+◌, ◌≤◌, suc, Bool, true, false, not, List, [], ◌∷◌, ◌++◌, retain, if◌then◌else◌, ◌≡◌, refl,
  arith, Bool-cases, inl, inr,
}
use browserserve.Common.Text.{Bytes, codes, strip_prefix}
use browserserve.Chrome.Flags.{
  default_flags, starts_with, Mergeable, disable_features, enable_features, disable_blink_features,
  prefix_of, is_mergeable, merged_values, as_switch, merged, merge_feature_switches, FlagOptions,
  flag_if, build_flags,
}

-- How many flags are this switch.
unfoldable pub occurrences : Mergeable → List Bytes → ℕ
occurrences m [] = 0
occurrences m (flag ∷ flags) =
    let rest = occurrences m flags in if starts_with (prefix_of m) flag then suc rest else rest

occurrences-append :
    (m : Mergeable) (a b : List Bytes) → occurrences m (a ++ b) ≡ occurrences m a + occurrences m b
unfolding occurrences
occurrences-append m [] b = omega arith
occurrences-append m (flag ∷ a) b = ground (arith, occurrences-append m a b)

switch_apart :
    (m : Mergeable) (flag : Bytes)
    → is_mergeable flag ≡ false
    → starts_with (prefix_of m) flag ≡ false
unfolding is_mergeable
switch_apart disable_features flag h = ground (arith, h)
switch_apart enable_features flag h = ground (arith, h)
switch_apart disable_blink_features flag h = ground (arith, h)

-- None among the flags that are not mergeable.
occurrences-retain :
    (m : Mergeable) (flags : List Bytes)
    → occurrences m (retain (λ flag. not (is_mergeable flag)) flags) ≡ 0
unfolding occurrences
occurrences-retain m [] = refl
occurrences-retain m (flag ∷ flags) = elim (Bool-cases (is_mergeable flag)) [
  | inl out ↦ rw out (occurrences-retain m flags)
  | inr kept ↦ rw (kept, switch_apart m flag kept) (occurrences-retain m flags)
]

-- Whether two switches are one.
abbrev once_if : Mergeable → Mergeable → ℕ
once_if disable_features disable_features = 1
once_if enable_features enable_features = 1
once_if disable_blink_features disable_blink_features = 1
once_if _ _ = 0

occurrences-as_switch :
    (m n : Mergeable) (values : List Bytes)
    → occurrences m (as_switch (prefix_of n) values) ≤ once_if m n
unfolding occurrences starts_with strip_prefix
occurrences-as_switch m n [] = omega arith
occurrences-as_switch disable_features disable_features (v ∷ vs) = omega arith
occurrences-as_switch disable_features enable_features (v ∷ vs) = omega arith
occurrences-as_switch disable_features disable_blink_features (v ∷ vs) = omega arith
occurrences-as_switch enable_features disable_features (v ∷ vs) = omega arith
occurrences-as_switch enable_features enable_features (v ∷ vs) = omega arith
occurrences-as_switch enable_features disable_blink_features (v ∷ vs) = omega arith
occurrences-as_switch disable_blink_features disable_features (v ∷ vs) = omega arith
occurrences-as_switch disable_blink_features enable_features (v ∷ vs) = omega arith
occurrences-as_switch disable_blink_features disable_blink_features (v ∷ vs) = omega arith

once_if-total :
    (m : Mergeable)
    → once_if m disable_features + (once_if m enable_features + once_if m disable_blink_features)
      ≡ 1
once_if-total disable_features = refl
once_if-total enable_features = refl
once_if-total disable_blink_features = refl

occurrences-merged :
    (m : Mergeable) (extra : List Bytes) → occurrences m (merge_feature_switches extra).0 ≤ 1
unfolding merge_feature_switches
occurrences-merged m extra = omega (
  arith,
  occurrences-append m (merged disable_features extra)
      (merged enable_features extra ++ merged disable_blink_features extra),
  occurrences-append m (merged enable_features extra) (merged disable_blink_features extra),
  occurrences-as_switch m disable_features (merged_values disable_features extra),
  occurrences-as_switch m enable_features (merged_values enable_features extra),
  occurrences-as_switch m disable_blink_features (merged_values disable_blink_features extra),
  once_if-total m,
)

-- The arguments that every browser gets.
occurrences-fixed :
    (m : Mergeable) (dir : Bytes) (a b : Bool) (rest : List Bytes)
    → occurrences m (
        codes "--remote-debugging-pipe"
        ∷ (codes "--user-data-dir=" ++ dir)
        ∷ (flag_if a (codes "--no-sandbox")
            ++ (flag_if b (codes "--disable-dev-shm-usage") ++ rest)))
      ≡ occurrences m rest
unfolding occurrences starts_with strip_prefix
occurrences-fixed disable_features dir true true rest = refl
occurrences-fixed disable_features dir true false rest = refl
occurrences-fixed disable_features dir false true rest = refl
occurrences-fixed disable_features dir false false rest = refl
occurrences-fixed enable_features dir true true rest = refl
occurrences-fixed enable_features dir true false rest = refl
occurrences-fixed enable_features dir false true rest = refl
occurrences-fixed enable_features dir false false rest = refl
occurrences-fixed disable_blink_features dir true true rest = refl
occurrences-fixed disable_blink_features dir true false rest = refl
occurrences-fixed disable_blink_features dir false true rest = refl
occurrences-fixed disable_blink_features dir false false rest = refl

occurrences-blank : (m : Mergeable) → occurrences m (codes "about:blank" ∷ []) ≡ 0
unfolding occurrences starts_with strip_prefix
occurrences-blank disable_features = refl
occurrences-blank enable_features = refl
occurrences-blank disable_blink_features = refl

pub occurrences-build_flags :
    (m : Mergeable) (opts : FlagOptions) → occurrences m (build_flags opts) ≤ 1
unfolding build_flags
occurrences-build_flags m opts = omega (
  arith,
  occurrences-append m (retain (λ flag. not (is_mergeable flag)) default_flags) _,
  occurrences-retain m default_flags,
  occurrences-append m (merge_feature_switches opts.extra).0 _,
  occurrences-merged m opts.extra,
  occurrences-fixed m opts.user_data_dir opts.no_sandbox opts.disable_dev_shm
      ((merge_feature_switches opts.extra).1 ++ (codes "about:blank" ∷ [])),
  occurrences-append m (merge_feature_switches opts.extra).1 (codes "about:blank" ∷ []),
  remaining_none m opts.extra,
  occurrences-blank m,
)
  where
    remaining_none :
        (m : Mergeable) (extra : List Bytes) → occurrences m (merge_feature_switches extra).1 ≡ 0
    remaining_none m extra = unfold merge_feature_switches in occurrences-retain m extra
