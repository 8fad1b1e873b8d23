-- ===== src/Server/LostProfile.antt =====
-- server/ws.rs: what becomes of a claimed profile when its browser does not launch.
use browserserve.Common.{Bool, true, false, Option, some, List, ◌≡◌, refl, ap, ◌∙◌}
use browserserve.Common.Text.{codes}
use browserserve.Common.Map.{Eq, lookup, Unique}
use browserserve.Profiles.{ProfileStore, claim}
use browserserve.Profiles.HandOff.{claimed-Holds}
use browserserve.Profiles.Ends.{InFlight}
use browserserve.Proxy.Upstream.{ProxyUpstream}
use browserserve.Server.App.{AppState}
use browserserve.Server.Sessions.{reject, Answers, Call, drop_spent, serve_profile_session}

module _ {F K P : Type 0} ⦃e : Eq K⦄ where
  drop_spent-profiles :
      (guard : Bool) (s : AppState F K P) → (drop_spent guard s).profiles ≡ s.profiles
  unfolding drop_spent
  drop_spent-profiles true s = refl
  drop_spent-profiles false s = refl

  -- A profile whose browser fails to launch is refused with `launch_failed` after it was claimed,
  -- and stays in flight: its payload is gone from the store, and its entry is not.
  pub serve_profile_session-loses :
      (guard : Bool) (s : AppState F K P) (a : Answers K) (relay : Option ProxyUpstream)
      (calls : List (Call P)) (token : K) (payload : P) (store : ProfileStore K P)
      → Unique s.profiles.entries
      → claim s.profiles a.now token ≡ (some payload, store)
      → a.seeded ≡ false
      → ((serve_profile_session guard s a relay calls token).response
          ≡ reject 503 (codes "launch_failed"))
        × InFlight (serve_profile_session guard s a relay calls token).state.profiles token a.now
  unfolding serve_profile_session
  serve_profile_session-loses guard s a relay calls token payload store unique claimed failed =
      let (holds, _) = claimed-Holds s.profiles store token payload a.now unique claimed in
      rw (claimed, failed)
        (
          refl,
          ap (λ t. lookup token t.entries)
                (drop_spent-profiles guard (record s { profiles = store }))
              ∙ holds.found,
        )
