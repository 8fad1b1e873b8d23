-- ===== src/Profile/Cookie.antt =====
-- profile/cookie.rs: the cookies that are stored and the ones that are put back. An `f64` is an
-- element of the parameter `F`, with its `0.0` and its `<`.
use browserserve.Common.{
  ℕ, ◌+◌, ◌%◌, ◌^◌, Bool, true, false, not, ◌&&◌, Option, none, some, List, [], ◌∷◌, ◌++◌, length,
  is_empty, ltb, if◌then◌else◌,
}
use browserserve.Common.Result.{Result, ok, err}
use browserserve.Common.Text.{Bytes, codes, equal, strip_prefix}

-- `i64`
pub data ℤ : Type 0 where
  pos negsuc : ℕ → ℤ

pub record PartitionKey : Type 0 where
  pub top_level_site : Bytes
  pub has_cross_site_ancestor : Bool

-- `SameSite::None` is `unrestricted`.
pub data SameSite : Type 0 where
  strict lax unrestricted : SameSite

pub record Cookie (F : Type 0) : Type 0 where
  pub name : Bytes
  pub value : Bytes
  pub domain : Bytes
  pub path : Bytes
  pub expires : F
  pub secure : Bool
  pub http_only : Bool
  pub same_site : Option SameSite
  pub priority : Option Bytes
  pub source_scheme : Option Bytes
  pub source_port : Option ℤ
  pub partition_key : Option PartitionKey
  pub partition_key_opaque : Bool

pub record CookieParam (F : Type 0) : Type 0 where
  pub name : Bytes
  pub value : Bytes
  pub domain : Bytes
  pub path : Bytes
  pub expires : Option F
  pub secure : Bool
  pub http_only : Bool
  pub same_site : Option SameSite
  pub priority : Option Bytes
  pub source_scheme : Option Bytes
  pub source_port : Option ℤ
  pub partition_key : Option PartitionKey

pub record DropCounts : Type 0 where
  pub same_site_none_insecure : ℕ
  pub expired : ℕ
  pub opaque_partition : ℕ
  pub invalid_prefix : ℕ
  pub oversized : ℕ

-- Each sum of `u32` is taken with its wrap-around.
unfoldable pub total : DropCounts → ℕ
total d =
    ((((d.same_site_none_insecure + d.expired) % 2 ^ 32 + d.opaque_partition) % 2 ^ 32
          + d.invalid_prefix)
        % 2 ^ 32
      + d.oversized)
    % 2 ^ 32

-- `DropCounts::default`
abbrev pub no_drops : DropCounts
no_drops = record {
  same_site_none_insecure = 0;
  expired = 0;
  opaque_partition = 0;
  invalid_prefix = 0;
  oversized = 0;
}

abbrev pub max_cookie_bytes : ℕ
max_cookie_bytes = 4096

pub data DropReason : Type 0 where
  insecure_cross_site past_expiry opaque_key bad_prefix too_big : DropReason

abbrev increment : ℕ → ℕ
increment n = (n + 1) % 2 ^ 32

unfoldable pub count_drop : DropCounts → DropReason → DropCounts
count_drop d insecure_cross_site = record d {
  same_site_none_insecure = increment d.same_site_none_insecure;
}
count_drop d past_expiry = record d { expired = increment d.expired }
count_drop d opaque_key = record d { opaque_partition = increment d.opaque_partition }
count_drop d bad_prefix = record d { invalid_prefix = increment d.invalid_prefix }
count_drop d too_big = record d { oversized = increment d.oversized }

abbrev pub is_unrestricted : Option SameSite → Bool
is_unrestricted none = false
is_unrestricted (some strict) = false
is_unrestricted (some lax) = false
is_unrestricted (some unrestricted) = true

abbrev pub starts_with_dot : Bytes → Bool
starts_with_dot s = elim (strip_prefix (codes ".") s) [ none ↦ false | some r ↦ true ]

-- The rule for a name, over the attributes it looks at.
unfoldable pub name_allows : Bytes → Bool → Bytes → Bytes → Bool
unfolding equal strip_prefix
name_allows name secure path domain = elim (strip_prefix (codes "__Host-") name) [
  | some rest ↦
      not (is_empty rest) && (secure && (equal path (codes "/") && not (starts_with_dot domain)))
  | none ↦ elim (strip_prefix (codes "__Secure-") name) [
    | some rest ↦ not (is_empty rest) && secure
    | none ↦ true
  ]
]

module _ {F : Type 0} (zero_f : F) (less : F → F → Bool) where
  unfoldable pub prefix_ok : Cookie F → Bool
  unfolding name_allows
  prefix_ok cookie = name_allows cookie.name cookie.secure cookie.path cookie.domain

  abbrev pub is_session : Cookie F → Bool
  is_session cookie = less cookie.expires zero_f

  -- The cookie with its attributes as they are.
  abbrev pub as_param : Cookie F → CookieParam F
  as_param cookie = record {
    name = cookie.name;
    value = cookie.value;
    domain = cookie.domain;
    path = cookie.path;
    expires = if is_session cookie then none else some cookie.expires;
    secure = cookie.secure;
    http_only = cookie.http_only;
    same_site = cookie.same_site;
    priority = cookie.priority;
    source_scheme = cookie.source_scheme;
    source_port = cookie.source_port;
    partition_key = cookie.partition_key;
  }

  unfoldable pub to_param : Cookie F → F → Result DropReason (CookieParam F)
  to_param cookie now =
      if cookie.partition_key_opaque
      then err opaque_key
      else if is_unrestricted cookie.same_site && not cookie.secure
      then err insecure_cross_site
      else if not (is_session cookie) && less cookie.expires now
      then err past_expiry
      else if not (prefix_ok cookie)
      then err bad_prefix
      else if ltb max_cookie_bytes (length cookie.name + length cookie.value)
      then err too_big
      else ok (as_param cookie)

  -- One round of the loop of `sanitize`.
  unfoldable pub add_cookie :
      Result DropReason (CookieParam F)
      → List (CookieParam F) × DropCounts
      → List (CookieParam F) × DropCounts
  add_cookie (ok param) (params, dropped) = (params ++ (param ∷ []), dropped)
  add_cookie (err reason) (params, dropped) = (params, count_drop dropped reason)

  unfoldable pub sanitize_from :
      F → List (Cookie F) → List (CookieParam F) × DropCounts → List (CookieParam F) × DropCounts
  sanitize_from now [] acc = acc
  sanitize_from now (cookie ∷ rest) acc =
      sanitize_from now rest (add_cookie (to_param cookie now) acc)

  unfoldable pub sanitize : List (Cookie F) → F → List (CookieParam F) × DropCounts
  sanitize cookies now = sanitize_from now cookies ([], no_drops)
