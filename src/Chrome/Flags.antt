-- ===== src/Chrome/Flags.antt =====
-- chrome/flags.rs: the command line of a browser. The major version that `browser_major_version` read
-- is an argument, and the platform is Linux.
mod Merged
pub mod Sandbox
mod Values
mod Examples
use browserserve.Common.{
  ℕ, Bool, true, false, not, ◌&&◌, ◌||◌, Option, none, some, List, [], ◌∷◌, ◌++◌, any, all, retain,
  is_empty, if◌then◌else◌,
}
use browserserve.Common.Text.{Bytes, codes, equal, strip_prefix, split_once}
use browserserve.Common.Decimal.{decimal}
use browserserve.Proxy.Head.{split_commas}

abbrev pub default_flags : List Bytes
default_flags =
    codes "--headless"
    ∷ codes "--allow-pre-commit-input"
    ∷ codes "--disable-background-networking"
    ∷ codes "--disable-background-timer-throttling"
    ∷ codes "--disable-backgrounding-occluded-windows"
    ∷ codes "--disable-renderer-backgrounding"
    ∷ codes "--disable-breakpad"
    ∷ codes "--disable-crash-reporter"
    ∷ codes "--disable-client-side-phishing-detection"
    ∷ codes "--disable-component-extensions-with-background-pages"
    ∷ codes "--disable-component-update"
    ∷ codes "--disable-default-apps"
    ∷ codes "--disable-extensions"
    ∷ codes "--disable-hang-monitor"
    ∷ codes "--disable-ipc-flooding-protection"
    ∷ codes "--disable-popup-blocking"
    ∷ codes "--disable-prompt-on-repost"
    ∷ codes "--disable-session-crashed-bubble"
    ∷ codes "--hide-crash-restore-bubble"
    ∷ codes "--disable-sync"
    ∷ codes
        "--disable-features=Translate,MediaRouter,DialMediaRouteProvider,OptimizationHints,AcceptCHFrame,DestroyProfileOnBrowserClose"
    ∷ codes "--export-tagged-pdf"
    ∷ codes "--force-color-profile=srgb"
    ∷ codes "--metrics-recording-only"
    ∷ codes "--mute-audio"
    ∷ codes "--no-default-browser-check"
    ∷ codes "--no-first-run"
    ∷ codes "--password-store=basic"
    ∷ codes "--use-mock-keychain"
    ∷ codes "--window-size=1280,720"
    ∷ []

abbrev pub is_present : Option Bytes → Bool
is_present none = false
is_present (some rest) = true

-- `starts_with`
unfoldable pub starts_with : Bytes → Bytes → Bool
starts_with prefix flag = is_present (strip_prefix prefix flag)

unfoldable pub stock_user_agent : ℕ → Bytes
stock_user_agent major =
    codes "Mozilla/5.0 (X11; Linux x86_64) AppleWebKit/537.36 (KHTML, like Gecko) Chrome/"
    ++ (decimal major ++ codes ".0.0.0 Safari/537.36")

abbrev pub stealth_screen : Bytes
stealth_screen = codes "--screen-info={1920x1080}"

abbrev pub user_sets : Bytes → List Bytes → Bool
user_sets prefix extra = any (starts_with prefix) extra

abbrev user_agent_flag : Option ℕ → List Bytes → List Bytes
user_agent_flag none extra = []
user_agent_flag (some major) extra =
    if user_sets (codes "--user-agent=") extra
    then []
    else (codes "--user-agent=" ++ stock_user_agent major) ∷ []

unfoldable pub stealth_flags : Option ℕ → List Bytes → List Bytes
stealth_flags major extra =
    codes "--disable-blink-features=AutomationControlled"
    ∷ (user_agent_flag major extra
        ++ (if user_sets (codes "--screen-info=") extra then [] else stealth_screen ∷ []))

unfoldable pub launch_extra_flags : Bool → Option ℕ → List Bytes → List Bytes
launch_extra_flags stealth major extra =
    if stealth then stealth_flags major extra ++ extra else extra

abbrev first_part : Bytes → Option (Bytes × Bytes) → Bytes
first_part flag none = flag
first_part flag (some (name, value)) = name

abbrev names_proxy : Bytes → Bool
names_proxy name =
    equal name (codes "--proxy-server")
    || (equal name (codes "--proxy-pac-url") || equal name (codes "--proxy-auto-detect"))

unfoldable pub sets_proxy : List Bytes → Bool
sets_proxy extra = any (λ flag. names_proxy (first_part flag (split_once b'=' flag))) extra

-- The switches of which Chrome keeps the last occurrence only.
pub data Mergeable : Type 0 where
  disable_features enable_features disable_blink_features : Mergeable

abbrev pub prefix_of : Mergeable → Bytes
prefix_of disable_features = codes "--disable-features="
prefix_of enable_features = codes "--enable-features="
prefix_of disable_blink_features = codes "--disable-blink-features="

unfoldable pub is_mergeable : Bytes → Bool
is_mergeable flag =
    starts_with (prefix_of disable_features) flag
    || (starts_with (prefix_of enable_features) flag
        || starts_with (prefix_of disable_blink_features) flag)

-- The values of the first of these flags with the prefix.
abbrev pub parts_of : Option Bytes → List Bytes
parts_of none = []
parts_of (some v) = split_commas v

abbrev pub or_parts : Option Bytes → List Bytes → List Bytes
or_parts none later = later
or_parts (some v) later = split_commas v

unfoldable pub default_values : Bytes → List Bytes → List Bytes
default_values prefix [] = []
default_values prefix (flag ∷ flags) =
    or_parts (strip_prefix prefix flag) (default_values prefix flags)

-- `values.contains`
abbrev pub has : Bytes → List Bytes → Bool
has part values = any (equal part) values

unfoldable pub add_parts : List Bytes → List Bytes → List Bytes
add_parts values [] = values
add_parts values (part ∷ parts) =
    add_parts (if has part values then values else values ++ (part ∷ [])) parts

unfoldable pub add_flags : Bytes → List Bytes → List Bytes → List Bytes
add_flags prefix values [] = values
add_flags prefix values (flag ∷ flags) =
    add_flags prefix (add_parts values (parts_of (strip_prefix prefix flag))) flags

unfoldable pub merged_values : Mergeable → List Bytes → List Bytes
merged_values m extra = add_flags (prefix_of m) (default_values (prefix_of m) default_flags) extra

-- `join(",")`
unfoldable pub join_commas : List Bytes → Bytes
join_commas [] = []
join_commas (v ∷ []) = v
join_commas (v ∷ w ∷ vs) = v ++ (b',' ∷ join_commas (w ∷ vs))

abbrev pub as_switch : Bytes → List Bytes → List Bytes
as_switch prefix [] = []
as_switch prefix (v ∷ vs) = (prefix ++ join_commas (v ∷ vs)) ∷ []

abbrev pub merged : Mergeable → List Bytes → List Bytes
merged m extra = as_switch (prefix_of m) (merged_values m extra)

-- The merged switches, and what is left.
unfoldable pub merge_feature_switches : List Bytes → List Bytes × List Bytes
merge_feature_switches extra = (
  merged disable_features extra
      ++ (merged enable_features extra ++ merged disable_blink_features extra),
  retain (λ flag. not (is_mergeable flag)) extra,
)

pub record FlagOptions : Type 0 where
  pub user_data_dir : Bytes
  pub no_sandbox : Bool
  pub disable_dev_shm : Bool
  pub extra : List Bytes

abbrev pub flag_if : Bool → Bytes → List Bytes
flag_if true flag = flag ∷ []
flag_if false flag = []

unfoldable pub build_flags : FlagOptions → List Bytes
build_flags opts =
    let split = merge_feature_switches opts.extra in
    retain (λ flag. not (is_mergeable flag)) default_flags
    ++ (split.0
        ++ (codes "--remote-debugging-pipe"
            ∷ (codes "--user-data-dir=" ++ opts.user_data_dir)
            ∷ (flag_if opts.no_sandbox (codes "--no-sandbox")
                ++ (flag_if opts.disable_dev_shm (codes "--disable-dev-shm-usage")
                    ++ (split.1 ++ (codes "about:blank" ∷ []))))))
