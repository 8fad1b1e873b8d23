-- ===== src/Server/SessionExamples.antt =====
-- Requests for sessions on concrete servers, with the theorems at them.
use browserserve.Common.{ℕ, ◌≤◌, true, false, ltb, none, some, [], ◌∷◌, ◌≡◌, refl, ◌⊎◌}
use browserserve.Common.Result.{ok}
use browserserve.Common.Text.{codes, equal}
use browserserve.Common.Map.{nat_eq}
use browserserve.Capacity.{fits_a_session, headroom}
use browserserve.Profiles.{new}
use browserserve.Server.App.{
  Host, AppState, default_relay, visible, Headers, Query, check_auth, request_authorized,
}
use browserserve.Server.Auth.{authorized, tokenless_origin_allowed}
use browserserve.Server.SingleUse.{fresh, try_spend}
use browserserve.Server.Sessions.{
  upgraded, Answers, ws_handler, requested_proxy, admission, take_single_use, resumable_session,
}
use browserserve.Server.Http.{gate, unavailable_reason, pressure_reason}
use browserserve.Server.Admission.{IsUntouched, IsAdmitted, ws_handler-IsAdmitted}
use browserserve.Server.OneSession.{Visit, count_served, count_served-once}
use browserserve.Server.Available.{ws_handler-pressure_reason}

abbrev host : Host ℕ
host = record { above = λ a b. ltb b a; ct_eq = equal; is_loopback_ip = λ host. false }

abbrev server : AppState ℕ ℕ ℕ
server = record {
  token = none;
  cpu = 10;
  memory = 20;
  max_cpu = 95;
  max_memory = 95;
  threads = some (record { current = 100; max_threads = 1000 });
  calibrating = false;
  stats = record {
    running = 1;
    queued = 0;
    warm = 1;
    max_sessions = 4;
    max_queue = 10;
    accepting = true;
  };
  sandbox_blocked = false;
  single_use = some fresh;
  resume = none;
  profiles = new 1000 8;
  session_proxy = ok default_relay;
  external_address = none;
}

abbrev plain : Headers
plain = record { origin = none; authorization = none; proxy = none; host = none }

abbrev anew : Query ℕ
anew = record { token = none; resume = none; profile_token = none }

abbrev answers : Answers ℕ
answers = record { now = 5; relay = ok tt; claimed = ok true; seeded = true; minted = some 7 }

plain_upgrades : (ws_handler host server anew plain answers).response ≡ upgraded none false
unfolding ws_handler check_auth request_authorized authorized tokenless_origin_allowed admission
    requested_proxy take_single_use try_spend resumable_session fresh fits_a_session headroom
plain_upgrades = refl

ws_handler-IsAdmitted_example :
    IsUntouched server (ws_handler host server anew plain answers)
    ⊎ IsAdmitted host server anew plain
ws_handler-IsAdmitted_example = ws_handler-IsAdmitted server host anew plain answers

-- The same with a proxy.
abbrev through : Headers
through = record plain { proxy = some (visible (codes "http://p:1")) }

abbrev again : Visit ℕ ℕ
again = record {
  readings = record {
    cpu = 1;
    memory = 1;
    threads = none;
    calibrating = false;
    stats = server.stats;
    sandbox_blocked = false;
  };
  ends = true;
  query = anew;
  headers = plain;
  answers = answers;
}

count_served-once_example : count_served host server (again ∷ again ∷ []) ≤ 1
count_served-once_example = count_served-once host (again ∷ again ∷ []) server tt

server_available : pressure_reason host server ≡ none
unfolding pressure_reason unavailable_reason gate fresh fits_a_session headroom
server_available = refl

plain_authorized : check_auth host server anew plain ≡ true
unfolding check_auth request_authorized authorized tokenless_origin_allowed
plain_authorized = refl

ws_handler-pressure_reason_example :
    (ws_handler host server anew plain answers).response
    ≡ upgraded (resumable_session server answers) false
ws_handler-pressure_reason_example =
    ws_handler-pressure_reason host server plain answers anew server_available plain_authorized refl
      refl refl refl

abbrev keyed : AppState ℕ ℕ ℕ
keyed = record server { token = some (codes "key") }
