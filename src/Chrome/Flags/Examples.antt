-- ===== src/Chrome/Flags/Examples.antt =====
-- Tests of the command line, with the theorem at one.
use browserserve.Common.{true, false, some, [], ◌∷◌, ◌≡◌, refl}
use browserserve.Common.Text.{codes, strip_prefix, split_once, equal}
use browserserve.Proxy.Head.{split_commas}
use browserserve.Chrome.Flags.{
  starts_with, disable_features, disable_blink_features, merged_values, default_values, add_flags,
  add_parts, join_commas, FlagOptions, stealth_flags, sets_proxy,
}
use browserserve.Chrome.Flags.Values.{IsMerged, build_flags-IsMerged}

abbrev opts : FlagOptions
opts = record {
  user_data_dir = codes "/d";
  no_sandbox = false;
  disable_dev_shm = true;
  extra = codes "--disable-features=A,Translate" ∷ codes "--lang=de" ∷ [];
}

merged_example_values :
    join_commas (
      merged_values disable_blink_features
        (codes "--disable-blink-features=A" ∷ codes "--disable-blink-features=B,A" ∷ []))
    ≡ codes "A,B"
unfolding merged_values add_flags add_parts default_values strip_prefix equal split_commas
    join_commas
merged_example_values = refl

sets_proxy_pac : sets_proxy (codes "--proxy-pac-url=http://x" ∷ []) ≡ true
unfolding sets_proxy split_once equal
sets_proxy_pac = refl

-- The user agent of the operator stays.
stealth_flags_own :
    stealth_flags (some 140) (codes "--user-agent=me" ∷ [])
    ≡ codes "--disable-blink-features=AutomationControlled" ∷ codes "--screen-info={1920x1080}" ∷ []
unfolding stealth_flags starts_with strip_prefix
stealth_flags_own = refl

build_flags-IsMerged_example : IsMerged disable_features opts
build_flags-IsMerged_example = build_flags-IsMerged disable_features opts
