-- ===== src/Server/ProfileSession.antt =====
-- server/ws.rs: a profile session from its upgrade to the end of its browser. What the browser, the
-- client and the disk answer is part of the session.
pub mod Settled
use browserserve.Common.{ℕ, Bool, true, false, Option, none, some, List, [], ◌∷◌, if◌then◌else◌}
use browserserve.Common.Map.{Eq}
use browserserve.Profiles.{ProfileStore, deposit_result, finish_without_result}

-- Of payload.rs: cookies, the storage of origins, and files.
pub record ProfilePayload (C L I : Type 0) : Type 0 where
  pub cookies : List C
  pub local_storage : List L
  pub indexeddb : List I

pub record CapturedNative (L I : Type 0) : Type 0 where
  pub native_indexeddb : List I
  pub native_storage : List L

-- `reclaimed`: whether the bridge gave the pipe back; `captured`: what `capture_cookies` read of it.
pub record Course (C L I : Type 0) : Type 0 where
  pub has_pipe : Bool
  pub loads : Bool
  pub read_only : Bool
  pub reclaimed : Bool
  pub captured : Option (List C)
  pub native : CapturedNative L I
  pub now : ℕ

-- How a session was ended.
pub data Ending : Type 0 where
  destroyed destroyed_capturing : Ending

abbrev pub or_nothing : {A : Type 0} → Option (List A) → List A
or_nothing none = []
or_nothing (some xs) = xs

abbrev pub captured_payload : {C L I : Type 0} → Course C L I → ProfilePayload C L I
captured_payload c = record {
  cookies = or_nothing c.captured;
  local_storage = c.native.native_storage;
  indexeddb = c.native.native_indexeddb;
}

module _ {K C L I : Type 0} ⦃e : Eq K⦄ where
  -- The end of a session that could be saved.
  abbrev pub save :
      ProfileStore K (ProfilePayload C L I)
      → K
      → Course C L I
      → Bool
      → ProfileStore K (ProfilePayload C L I)
  save s token c true = deposit_result s c.now token (captured_payload c)
  save s token c false = finish_without_result s token

  abbrev pub after_serving :
      ProfileStore K (ProfilePayload C L I)
      → K
      → Course C L I
      → Bool
      → ProfileStore K (ProfilePayload C L I) × List Ending
  after_serving s token c true = (finish_without_result s token, destroyed ∷ [])
  after_serving s token c false = (save s token c c.reclaimed, destroyed_capturing ∷ [])

  abbrev pub after_seeding :
      ProfileStore K (ProfilePayload C L I)
      → K
      → Course C L I
      → Bool
      → ProfileStore K (ProfilePayload C L I) × List Ending
  after_seeding s token c true = after_serving s token c c.read_only
  after_seeding s token c false = (finish_without_result s token, destroyed ∷ [])

  abbrev pub with_pipe :
      ProfileStore K (ProfilePayload C L I)
      → K
      → Course C L I
      → Bool
      → ProfileStore K (ProfilePayload C L I) × List Ending
  with_pipe s token c true = after_seeding s token c c.loads
  with_pipe s token c false = (finish_without_result s token, destroyed ∷ [])

  unfoldable pub profile_session :
      ProfileStore K (ProfilePayload C L I)
      → K
      → Course C L I
      → ProfileStore K (ProfilePayload C L I) × List Ending
  profile_session s token c = with_pipe s token c c.has_pipe
