-- ===== src/Server/Examples.antt =====
-- Concrete requests, and a process that is asked twice.
use browserserve.Common.{ℕ, ◌≤◌, true, false, none, some, List, [], ◌∷◌, ◌≡◌, refl, arith}
use browserserve.Common.Text.{
  Bytes, codes, equal, lowercase, split_once, rsplit_once, strip_prefix, trim, trim_start, trim_end,
}
use browserserve.Server.Auth.{
  authorized, tokenless_origin_allowed, after_scheme, origin_host, is_local,
}
use browserserve.Server.SingleUse.{
  fresh, try_spend, drop_guard, Event, spends, drops, step, run, start,
}
use browserserve.Common.Map.{nat_eq, lookup, insert, remove}
use browserserve.Server.Resume.{
  Visit, client_gone, bridge_ends, hands_socket, window_ends, settles, claims_token, others_park,
  claim_token, park_session, unpark, after_bridge, settle, serve_step, serve_run, served,
}
use browserserve.Server.Handing.{listed, parked_now, serve_run-resumes}

pub equal-eq : (s t : Bytes) → equal s t ≡ true → s ≡ t
unfolding equal
equal-eq [] [] h = refl
equal-eq [] (y ∷ t) h = absurd (ground arith)
equal-eq (x ∷ s) [] h = absurd (ground arith)
equal-eq (x ∷ s) (y ∷ t) h = ground (arith, equal-eq s t)

authorized-bearer : authorized equal (some (codes "key")) none (some (codes "Bearer  key ")) ≡ true
unfolding authorized equal strip_prefix trim trim_start trim_end
authorized-bearer = refl

tokenless_origin_allowed-local :
    (tokenless_origin_allowed (λ host. false) (some (codes "http://LocalHost:3000/x")) ≡ true)
    × (tokenless_origin_allowed (λ host. false) (some (codes "http://[::1]:3000")) ≡ true)
    × (tokenless_origin_allowed (λ host. false) (some (codes "http://localhost.a.com")) ≡ false)
    × (tokenless_origin_allowed (λ host. false) none ≡ true)
unfolding tokenless_origin_allowed after_scheme origin_host is_local strip_prefix equal lowercase
    split_once rsplit_once
tokenless_origin_allowed-local = (refl, refl, refl, refl)

abbrev events : List Event
events = spends ∷ spends ∷ drops ∷ spends ∷ drops ∷ []

run-events : ((run start events).given ≡ 1) × ((run start events).single_use.finished ≡ true)
unfolding run step fresh try_spend drop_guard
run-events = (refl, refl)

-- Token 7 is parked, claimed twice and resumed, then parked and left; token 8 is another session's.
abbrev visits : List (Visit ℕ)
visits =
    others_park 8 1
    ∷ bridge_ends client_gone
    ∷ claims_token 7
    ∷ claims_token 7
    ∷ hands_socket
    ∷ settles
    ∷ bridge_ends client_gone
    ∷ claims_token 8
    ∷ window_ends
    ∷ settles
    ∷ []

serve_run-visits :
    let s = serve_run 7 served visits in
    (s.parks ≡ 2) × (s.claims ≡ 1) × (s.resumes ≡ 1) × (s.registry.parked ≡ [])
unfolding serve_run serve_step after_bridge park_session claim_token unpark settle lookup insert
    remove
serve_run-visits = (refl, refl, refl, refl)

serve_run-resumes_example :
    let s = serve_run 7 served visits in
    (listed (lookup 7 s.registry.parked) ≤ parked_now s.phase)
    × (s.claims ≤ s.parks)
    × (s.resumes ≤ s.claims)
serve_run-resumes_example = serve_run-resumes 7 visits
