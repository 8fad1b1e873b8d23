-- ===== src/Profile/Examples.antt =====
-- The sanitizer on four cookies; a time is a number with 1000 for the epoch.
use browserserve.Common.{ℕ, true, false, none, some, List, [], ◌∷◌, retain, ltb, ◌≡◌, refl}
use browserserve.Common.Text.{codes, equal, strip_prefix}
use browserserve.Profile.Cookie.{
  unrestricted, Cookie, sanitize, sanitize_from, add_cookie, to_param, prefix_ok, name_allows,
  count_drop, as_param,
}
use browserserve.Profile.Sanitized.{is_reproducible, AllRestored, sanitize_kept}

abbrev plain : Cookie ℕ
plain = record {
  name = codes "id";
  value = codes "v";
  domain = codes ".a.com";
  path = codes "/";
  expires = 999;
  secure = false;
  http_only = true;
  same_site = none;
  priority = none;
  source_scheme = none;
  source_port = none;
  partition_key = none;
  partition_key_opaque = false;
}

-- The second is sent across sites and not secure, the third has expired, the fourth has a domain
-- that its name forbids.
abbrev jar : List (Cookie ℕ)
jar =
    plain
    ∷ record plain { same_site = some unrestricted }
    ∷ record plain { expires = 1500 }
    ∷ record plain { name = codes "__Host-id"; secure = true }
    ∷ []

sanitize-jar : (sanitize 1000 ltb jar 2000).0 ≡ as_param 1000 ltb plain ∷ []
unfolding sanitize sanitize_from add_cookie to_param prefix_ok name_allows count_drop strip_prefix
    equal
sanitize-jar = refl

sanitize_kept_example :
    AllRestored 1000 ltb (retain (is_reproducible 1000 ltb 2000) jar) (sanitize 1000 ltb jar 2000).0
sanitize_kept_example = sanitize_kept 1000 ltb jar 2000
