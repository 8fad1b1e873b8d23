-- ===== src/Server/ProfileExamples.antt =====
-- Concrete profile sessions, with the theorems at them.
use browserserve.Common.{ℕ, true, false, none, some, List, [], ◌∷◌, ◌≡◌, refl}
use browserserve.Common.Result.{ok}
use browserserve.Common.Text.{codes}
use browserserve.Common.Map.{nat_eq, lookup, insert, retain_values}
use browserserve.Profiles.{pending, in_flight, ready, Entry, ProfileStore, claim, sweep}
use browserserve.Profiles.Ends.{InFlight}
use browserserve.Server.App.{AppState, default_relay}
use browserserve.Server.Sessions.{reject, Answers, serve_profile_session}
use browserserve.Server.ProfileSession.{ProfilePayload, Course, profile_session}
use browserserve.Server.ProfileSession.Settled.{IsOne, profile_session-settles}
use browserserve.Server.LostProfile.{serve_profile_session-loses}

abbrev Payload : Type 0
Payload = ProfilePayload ℕ ℕ ℕ

-- Token 4 is in use, token 5 is not.
abbrev in_use : ProfileStore ℕ Payload
in_use = record {
  entries =
      (4, record { slot = in_flight; at = 1 }) ∷ (5, record { slot = in_flight; at = 2 }) ∷ [];
  ttl = 1000;
  max_pending = 8;
}

abbrev saved : Course ℕ ℕ ℕ
saved = record {
  has_pipe = true;
  loads = true;
  read_only = false;
  reclaimed = true;
  captured = some (9 ∷ []);
  native = record { native_indexeddb = 8 ∷ []; native_storage = [] };
  now = 3;
}

token_in_use : lookup 4 in_use.entries ≡ some (record { slot = in_flight; at = 1 })
unfolding lookup
token_in_use = refl

profile_session-settles_example :
    (lookup 4 (profile_session in_use 4 saved).0.entries
      ≡ some (record {
        slot = ready (record { cookies = 9 ∷ []; local_storage = []; indexeddb = 8 ∷ [] });
        at = 3;
      }))
    × IsOne (profile_session in_use 4 saved).1
profile_session-settles_example = profile_session-settles in_use 4 1 saved 4 token_in_use

abbrev waiting : ProfileStore ℕ ℕ
waiting = record {
  entries = (4, record { slot = pending 7; at = 1 }) ∷ [];
  ttl = 1000;
  max_pending = 8;
}

abbrev server : AppState ℕ ℕ ℕ
server = record {
  token = none;
  cpu = 10;
  memory = 20;
  max_cpu = 95;
  max_memory = 95;
  threads = none;
  calibrating = false;
  stats = record {
    running = 1;
    queued = 0;
    warm = 1;
    max_sessions = 4;
    max_queue = 10;
    accepting = true;
  };
  sandbox_blocked = false;
  single_use = none;
  resume = none;
  profiles = waiting;
  session_proxy = ok default_relay;
  external_address = none;
}

abbrev answers : Answers ℕ
answers = record { now = 5; relay = ok tt; claimed = ok true; seeded = false; minted = none }

abbrev claimed_store : ProfileStore ℕ ℕ
claimed_store = record waiting { entries = (4, record { slot = in_flight; at = 5 }) ∷ [] }

claim_waiting : claim waiting 5 4 ≡ (some 7, claimed_store)
unfolding claim sweep lookup insert retain_values
claim_waiting = refl

abbrev waiting_rest : List (ℕ × Entry ℕ)
waiting_rest = []

no_other : lookup 4 waiting_rest ≡ none
unfolding lookup
no_other = refl

serve_profile_session-loses_example :
    ((serve_profile_session false server answers none [] 4).response
      ≡ reject 503 (codes "launch_failed"))
    × InFlight (serve_profile_session false server answers none [] 4).state.profiles 4 5
serve_profile_session-loses_example =
    serve_profile_session-loses false server answers none [] 4 7 claimed_store (no_other, tt)
      claim_waiting refl
