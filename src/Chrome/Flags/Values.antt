-- ===== src/Chrome/Flags/Values.antt =====
-- chrome/flags.rs: the values of the merged switches.
use browserserve.Common.{
  Option, none, some, sym, append_nil, ◌≤◌, Bool, true, false, not, ◌||◌, List, [], ◌∷◌, ◌++◌, all,
  retain, if◌then◌else◌, ◌≡◌, refl, ap, ◌∙◌, arith, subst, Bool-cases, ◌⊎◌, inl, inr,
}
use browserserve.Common.Text.{Bytes, codes, equal, strip_prefix}
use browserserve.Proxy.Head.{split_commas}
use browserserve.Chrome.Flags.{
  default_flags, Mergeable, disable_features, enable_features, disable_blink_features, prefix_of,
  is_mergeable, parts_of, default_values, has, add_parts, add_flags, merged_values, join_commas,
  as_switch, merged, merge_feature_switches, FlagOptions, build_flags,
}
use browserserve.Chrome.Flags.Merged.{occurrences, occurrences-build_flags}

equal_refl : (s : Bytes) → equal s s ≡ true
unfolding equal
equal_refl [] = refl
equal_refl (x ∷ s) = ground (arith, equal_refl s)

pub has-append : (p : Bytes) (a b : List Bytes) → has p (a ++ b) ≡ (has p a || has p b)
has-append p [] b = refl
has-append p (v ∷ a) b = ground (arith, has-append p a b)

or_true : (b : Bool) → (b || true) ≡ true
or_true true = refl
or_true false = refl

has-add_one :
    (p part : Bytes) (values : List Bytes)
    → has p values ≡ true
    → has p (if has part values then values else values ++ (part ∷ [])) ≡ true
has-add_one p part values h = elim (Bool-cases (has part values)) [
  | inl there ↦ rw there h
  | inr new ↦ rw new (has-append p values (part ∷ []) ∙ ap (λ b. b || has p (part ∷ [])) h)
]

-- Adding loses nothing.
has-add_parts :
    (parts : List Bytes) (p : Bytes) (values : List Bytes)
    → has p values ≡ true
    → has p (add_parts values parts) ≡ true
unfolding add_parts
has-add_parts [] p values h = h
has-add_parts (part ∷ parts) p values h = has-add_parts parts p _ (has-add_one p part values h)

has-added :
    (part : Bytes) (values : List Bytes)
    → has part (if has part values then values else values ++ (part ∷ [])) ≡ true
has-added part values = elim (Bool-cases (has part values)) [
  | inl there ↦ rw there there
  | inr new ↦ rw new (has-append part values (part ∷ []) ∙ rw (new, equal_refl part) refl)
]

-- Every part that is added is there, in whatever keeps what it was added to.
abbrev Keeps : List Bytes → List Bytes → Type 0
Keeps values later = (p : Bytes) → has p values ≡ true → has p later ≡ true

all_kept :
    (parts values later : List Bytes)
    → Keeps (add_parts values parts) later
    → all (λ p. has p later) parts ≡ true
unfolding add_parts
all_kept [] values later k = refl
all_kept (part ∷ parts) values later k =
    let next = if has part values then values else values ++ (part ∷ []) in
    rw (k part (has-add_parts parts part next (has-added part values)))
      (all_kept parts next later k)

has-add_flags :
    (flags : List Bytes) (prefix p : Bytes) (values : List Bytes)
    → has p values ≡ true
    → has p (add_flags prefix values flags) ≡ true
unfolding add_flags
has-add_flags [] prefix p values h = h
has-add_flags (flag ∷ flags) prefix p values h =
    has-add_flags flags prefix p _ (has-add_parts (parts_of (strip_prefix prefix flag)) p values h)

-- What is listed behind the prefix of a flag, if it has the prefix.
abbrev pub listed : Option Bytes → List Bytes
listed none = []
listed (some values) = split_commas values

-- Every part of every flag with the prefix.
abbrev pub all_parts : Bytes → (Bytes → Bool) → List Bytes → Bool
all_parts prefix test flags = all (λ flag. all test (listed (strip_prefix prefix flag))) flags

parts_of-listed : (o : Option Bytes) → parts_of o ≡ listed o
parts_of-listed none = refl
parts_of-listed (some values) = refl

abbrev pub behind_commas : List Bytes → Bytes
behind_commas [] = []
behind_commas (w ∷ ws) = b',' ∷ (w ++ behind_commas ws)

-- The values with a comma in front of each but the first.
abbrev pub with_commas : List Bytes → Bytes
with_commas [] = []
with_commas (v ∷ vs) = v ++ behind_commas vs

join_commas-with_commas : (vs : List Bytes) → join_commas vs ≡ with_commas vs
unfolding join_commas
join_commas-with_commas [] = refl
join_commas-with_commas (v ∷ []) = sym (append_nil v)
join_commas-with_commas (v ∷ w ∷ vs) =
    ap (λ later. v ++ (b',' ∷ later)) (join_commas-with_commas (w ∷ vs))

all_parts-add_flags :
    (flags : List Bytes) (prefix : Bytes) (values later : List Bytes)
    → Keeps (add_flags prefix values flags) later
    → all_parts prefix (λ p. has p later) flags ≡ true
unfolding add_flags
all_parts-add_flags [] prefix values later k = refl
all_parts-add_flags (flag ∷ flags) prefix values later k =
    let parts = parts_of (strip_prefix prefix flag) in
    let here =
      all_kept parts values later
        (λ p h. k p (has-add_flags flags prefix p (add_parts values parts) h)) in
    rw
      (subst (λ ps. all (λ p. has p later) ps ≡ true) (parts_of-listed (strip_prefix prefix flag))
        here)
      (all_parts-add_flags flags prefix (add_parts values parts) later k)

all_has :
    (values : List Bytes) (later : List Bytes)
    → Keeps values later
    → all (λ p. has p later) values ≡ true
all_has [] later k = refl
all_has (v ∷ values) later k =
    rw (k v (rw (equal_refl v) refl))
      (all_has values later (λ p h. k p (ap (λ b. equal p v || b) h ∙ or_true (equal p v))))

-- The features that every browser runs without, whatever its flags.
abbrev pub required_values : Mergeable → List Bytes
required_values disable_features =
    codes "Translate"
    ∷ codes "MediaRouter"
    ∷ codes "DialMediaRouteProvider"
    ∷ codes "OptimizationHints"
    ∷ codes "AcceptCHFrame"
    ∷ codes "DestroyProfileOnBrowserClose"
    ∷ []
required_values _ = []

default_values-required :
    (m : Mergeable) → default_values (prefix_of m) default_flags ≡ required_values m
unfolding default_values strip_prefix split_commas
default_values-required disable_features = refl
default_values-required enable_features = refl
default_values-required disable_blink_features = refl

-- What the command line has of one of these switches.
pub record IsMerged (m : Mergeable) (opts : FlagOptions) : Type 0 where
  pub once : occurrences m (build_flags opts) ≤ 1
  pub given :
      (merged_values m opts.extra ≡ [])
      ⊎ (has (prefix_of m ++ with_commas (merged_values m opts.extra)) (build_flags opts) ≡ true)
  pub defaults : all (λ p. has p (merged_values m opts.extra)) (required_values m) ≡ true
  pub extras : all_parts (prefix_of m) (λ p. has p (merged_values m opts.extra)) opts.extra ≡ true

has_right : (p : Bytes) (a b : List Bytes) → has p b ≡ true → has p (a ++ b) ≡ true
has_right p a b h = has-append p a b ∙ ap (λ c. has p a || c) h ∙ or_true (has p a)

has_left : (p : Bytes) (a b : List Bytes) → has p a ≡ true → has p (a ++ b) ≡ true
has_left p a b h = has-append p a b ∙ ap (λ c. c || has p b) h

has-merge :
    (m : Mergeable) (flag : Bytes) (extra : List Bytes)
    → has flag (merged m extra) ≡ true
    → has flag (merge_feature_switches extra).0 ≡ true
unfolding merge_feature_switches
has-merge disable_features flag extra h = has_left flag (merged disable_features extra) _ h
has-merge enable_features flag extra h =
    has_right flag (merged disable_features extra) _
      (has_left flag (merged enable_features extra) _ h)
has-merge disable_blink_features flag extra h =
    has_right flag (merged disable_features extra) _
      (has_right flag (merged enable_features extra) (merged disable_blink_features extra) h)

-- Wherever it stands in the merged flags, it stands in the arguments.
has-build_flags :
    (opts : FlagOptions) (flag : Bytes)
    → has flag (merge_feature_switches opts.extra).0 ≡ true
    → has flag (build_flags opts) ≡ true
unfolding build_flags
has-build_flags opts flag h =
    has_right flag (retain (λ flag. not (is_mergeable flag)) default_flags) _
      (has_left flag (merge_feature_switches opts.extra).0 _ h)

as_switch-given :
    (prefix : Bytes) (values : List Bytes)
    → (values ≡ []) ⊎ (has (prefix ++ join_commas values) (as_switch prefix values) ≡ true)
as_switch-given prefix [] = inl refl
as_switch-given prefix (v ∷ vs) = inr (rw (equal_refl (prefix ++ join_commas (v ∷ vs))) refl)

-- The command line has `--disable-features`, `--enable-features` and `--disable-blink-features` at
-- most once each. The switch lists the values of every custom flag of its name, none lost, and the
-- first one also the six features that are off by default; there is none only when there is no
-- value.
pub build_flags-IsMerged : (m : Mergeable) (opts : FlagOptions) → IsMerged m opts
unfolding merged_values
build_flags-IsMerged m opts =
    let values = default_values (prefix_of m) default_flags in
    record {
      once = occurrences-build_flags m opts;
      given = elim (as_switch-given (prefix_of m) (merged_values m opts.extra)) [
        | inl nothing ↦ inl nothing
        | inr there ↦ inr (
            subst (λ line. has (prefix_of m ++ line) (build_flags opts) ≡ true)
              (join_commas-with_commas (merged_values m opts.extra))
              (has-build_flags opts _ (has-merge m _ opts.extra there)))
      ];
      defaults =
          subst (λ vs. all (λ p. has p (merged_values m opts.extra)) vs ≡ true)
            (default_values-required m)
            (all_has values _ (λ p h. has-add_flags opts.extra (prefix_of m) p values h));
      extras = all_parts-add_flags opts.extra (prefix_of m) values _ (λ p h. h);
    }
