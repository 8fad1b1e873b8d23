-- ===== src/Server/ProfileSession/Settled.antt =====
-- server/ws.rs: what a profile session does with its token and its browser.
use browserserve.Common.{
  ℕ, Bool, true, false, ◌&&◌, not, Option, none, some, List, [], ◌∷◌, if◌then◌else◌, ◌≡◌, refl, ap,
  ◌∙◌,
}
use browserserve.Common.Map.{Eq, lookup}
use browserserve.Profiles.{ready, Entry, ProfileStore}
use browserserve.Profiles.Ends.{InFlight, lookup-deposit_result, lookup-finish}
use browserserve.Server.ProfileSession.{
  ProfilePayload, Course, Ending, destroyed_capturing, captured_payload, or_nothing, save,
  after_serving, after_seeding, with_pipe, profile_session,
}

-- Whether the profile is saved.
abbrev pub saves : {C L I : Type 0} → Course C L I → Bool
saves c = c.has_pipe && (c.loads && (not c.read_only && c.reclaimed))

-- The cookies that were read, if any were.
abbrev pub cookies_read : {C : Type 0} → Option (List C) → List C
cookies_read none = []
cookies_read (some cookies) = cookies

-- The entry that a session leaves under its token: the cookies that were read of the browser, and the
-- storage and the files that were read of its directory.
abbrev pub left : {C L I : Type 0} → Course C L I → Bool → Option (Entry (ProfilePayload C L I))
left c true = some (record {
  slot = ready (record {
    cookies = cookies_read c.captured;
    local_storage = c.native.native_storage;
    indexeddb = c.native.native_indexeddb;
  });
  at = c.now;
})
left c false = none

or_nothing-cookies_read : {C : Type 0} (o : Option (List C)) → or_nothing o ≡ cookies_read o
or_nothing-cookies_read none = refl
or_nothing-cookies_read (some cookies) = refl

ready_payload :
    {C L I : Type 0} (c : Course C L I)
    → some (record { slot = ready (captured_payload c); at = c.now }) ≡ left c true
ready_payload c =
    ap
      (λ cookies. some (record {
        slot = ready (record {
          cookies = cookies;
          local_storage = c.native.native_storage;
          indexeddb = c.native.native_indexeddb;
        });
        at = c.now;
      }))
      (or_nothing-cookies_read c.captured)

abbrev pub IsOne : List Ending → Type 0
IsOne [] = ⊥
IsOne (x ∷ []) = Unit {0}
IsOne (x ∷ y ∷ ys) = ⊥

module _ {K C L I : Type 0} ⦃e : Eq K⦄ (s : ProfileStore K (ProfilePayload C L I)) (token : K)
    (at : ℕ) (c : Course C L I) where
  -- What an end does to the entry of any token, and that there is one end.
  abbrev Settles : Bool → ProfileStore K (ProfilePayload C L I) × List Ending → Type 0
  Settles saved r =
      ((other : K)
        → lookup other r.0.entries
          ≡ (if e.same token other then left c saved else lookup other s.entries))
      × IsOne r.1

  save-Settles :
      (b : Bool) → InFlight s token at → Settles b (save s token c b, destroyed_capturing ∷ [])
  save-Settles true h = (
    λ other.
        lookup-deposit_result s token at c.now (captured_payload c) other h
        ∙ ap (λ x. if e.same token other then x else lookup other s.entries) (ready_payload c),
    tt,
  )
  save-Settles false h = (λ other. lookup-finish s token at other h, tt)

  serving-Settles :
      (b : Bool) → InFlight s token at → Settles (not b && c.reclaimed) (after_serving s token c b)
  serving-Settles true h = (λ other. lookup-finish s token at other h, tt)
  serving-Settles false h = save-Settles c.reclaimed h

  seeding-Settles :
      (b : Bool)
      → InFlight s token at
      → Settles (b && (not c.read_only && c.reclaimed)) (after_seeding s token c b)
  seeding-Settles true h = serving-Settles c.read_only h
  seeding-Settles false h = (λ other. lookup-finish s token at other h, tt)

  pipe-Settles :
      (b : Bool)
      → InFlight s token at
      → Settles (b && (c.loads && (not c.read_only && c.reclaimed))) (with_pipe s token c b)
  pipe-Settles true h = seeding-Settles c.loads h
  pipe-Settles false h = (λ other. lookup-finish s token at other h, tt)

  -- When a profile session ends whose token is still in flight, the token is settled: the cookies,
  -- the storage and the files that were captured are ready under it when the profile was loaded, may
  -- be saved, and the browser was still alive, and otherwise nothing is left under it. No other
  -- entry of the store changes, and the browser is destroyed once.
  pub profile_session-settles :
      (other : K)
      → InFlight s token at
      → (lookup other (profile_session s token c).0.entries
          ≡ (if e.same token other then left c (saves c) else lookup other s.entries))
        × IsOne (profile_session s token c).1
  unfolding profile_session
  profile_session-settles other h =
      let (entries, once) = pipe-Settles c.has_pipe h in (entries other, once)
