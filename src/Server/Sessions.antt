-- ===== src/Server/Sessions.antt =====
-- server/ws.rs: a request for a session, from its gates to the upgrade. What the relay, the pool
-- and the factory answer is part of the request.
use browserserve.Common.{
  ℕ, Bool, true, false, not, Option, none, some, List, [], ◌∷◌, ◌++◌, if◌then◌else◌,
}
use browserserve.Common.Result.{Result, ok, err, ◌>>=◌}
use browserserve.Common.Text.{Bytes, codes}
use browserserve.Common.Map.{Eq}
use browserserve.Pool.State.{ClaimError, queue_full, queue_timeout, closed, launch}
use browserserve.Profiles.{claim}
use browserserve.Proxy.Upstream.{ProxyUpstream, UpstreamParseError}
use browserserve.Proxy.Parse.{parse}
use browserserve.Server.App.{
  Host, RelayOptions, AppState, HeaderValue, visible, opaque, Headers, Query, check_auth, has_room,
}
use browserserve.Server.Resume.{ResumeRegistry, claim_token}
use browserserve.Server.SingleUse.{SingleUse, try_spend, drop_guard}

-- A refusal has a status and a reason; an upgrade has the resume token and says whether the
-- session is proxied, each in its header.
pub data Response (K : Type 0) : Type 0 where
  reject : ℕ → Bytes → Response K
  upgraded : Option K → Bool → Response K

-- The status and the reason of a refusal.
abbrev pub Refused : Type 0
Refused = ℕ × Bytes

-- What the handler asks of the rest of the program.
pub data Call (P : Type 0) : Type 0 where
  starts_relay : ProxyUpstream → RelayOptions → Call P
  claims : Call P
  claims_with : ProxyUpstream → Call P
  creates_seeded : P → Option ProxyUpstream → Call P
  destroys : Call P

-- `Relay::start`'s errors, by how they are refused.
pub data StartError : Type 0 where
  address_not_allowed other : StartError

-- `claimed`: whether the claimed browser has its transport; `minted`: the new resume token.
pub record Answers (K : Type 0) : Type 0 where
  pub now : ℕ
  pub relay : Result StartError (Unit {0})
  pub claimed : Result ClaimError Bool
  pub seeded : Bool
  pub minted : Option K

pub record Served (F K P : Type 0) : Type 0 where
  pub response : Response K
  pub state : AppState F K P
  pub calls : List (Call P)

unfoldable pub claim_status : ClaimError → ℕ × Bytes
claim_status (queue_full n) = (503, codes "queue_full")
claim_status (queue_timeout ms) = (503, codes "queue_timeout")
claim_status closed = (503, codes "draining")
claim_status (launch message) = (503, codes "launch_failed")

abbrev pub RequestedProxy : Type 0
RequestedProxy = ProxyUpstream × RelayOptions

abbrev pub mapped :
    Result UpstreamParseError ProxyUpstream → RelayOptions → Result Refused (Option RequestedProxy)
mapped (ok upstream) options = ok (some (upstream, options))
mapped (err e) options = err (400, codes "invalid_proxy")

abbrev pub proxy_text : HeaderValue → RelayOptions → Result Refused (Option RequestedProxy)
proxy_text (visible raw) options = mapped (parse raw) options
proxy_text opaque options = err (400, codes "invalid_proxy")

abbrev pub proxy_value :
    Result Bytes RelayOptions → Option HeaderValue → Result Refused (Option RequestedProxy)
proxy_value policy none = ok none
proxy_value (err reason) (some value) = err (400, codes "proxy_unsupported")
proxy_value (ok options) (some value) = proxy_text value options

unfoldable pub requested_proxy :
    {F K P : Type 0} → AppState F K P → Headers → Result Refused (Option RequestedProxy)
requested_proxy s headers = proxy_value s.session_proxy headers.proxy

abbrev pub check : Bool → Refused → Result Refused (Unit {0})
check true refusal = ok tt
check false refusal = err refusal

-- The gates between the resumption and the one use.
unfoldable pub admission :
    {F K P : Type 0} → Host F → AppState F K P → Headers → Result Refused (Option RequestedProxy)
admission h s headers = do
  proxy ← requested_proxy s headers
  cool ← check (not (h.above s.cpu s.max_cpu)) (503, codes "pressure")
  free ← check (not (h.above s.memory s.max_memory)) (503, codes "pressure")
  room ← check (has_room s.threads) (503, codes "thread_limit")
  measured ← check (not s.calibrating) (503, codes "calibrating")
  ok proxy

abbrev pub finish_option : Option SingleUse → Option SingleUse
finish_option none = none
finish_option (some u) = some (drop_guard u)

unfoldable pub proxy_start_refused : {K : Type 0} → StartError → Response K
proxy_start_refused address_not_allowed = reject 400 (codes "proxy_not_allowed")
proxy_start_refused other = reject 502 (codes "proxy_unavailable")

abbrev pub new_token : {K : Type 0} → Option (ResumeRegistry K) → Option K → Option K
new_token none minted = none
new_token (some registry) minted = minted

abbrev pub is_proxied : Option ProxyUpstream → Bool
is_proxied none = false
is_proxied (some u) = true

abbrev pub claim_call : {P : Type 0} → Option ProxyUpstream → Call P
claim_call none = claims
claim_call (some u) = claims_with u

module _ {F K P : Type 0} where
  -- Whether there is a guard, or the refusal, and the state.
  abbrev pub spent_from : AppState F K P → Bool × SingleUse → Result Refused Bool × AppState F K P
  spent_from s (true, u) = (ok true, record s { single_use = some u })
  spent_from s (false, u) = (err (503, codes "single_use_spent"), record s { single_use = some u })

  abbrev pub spend_option : AppState F K P → Option SingleUse → Result Refused Bool × AppState F K P
  spend_option s none = (ok false, s)
  spend_option s (some u) = spent_from s (try_spend u)

  unfoldable pub take_single_use : AppState F K P → Result Refused Bool × AppState F K P
  take_single_use s = spend_option s s.single_use

  -- The end of the handler's guard, when it does not go to a session.
  unfoldable pub drop_spent : Bool → AppState F K P → AppState F K P
  drop_spent false s = s
  drop_spent true s = record s { single_use = finish_option s.single_use }

  -- The resume token of a new session.
  unfoldable pub resumable_session : AppState F K P → Answers K → Option K
  resumable_session s a = new_token s.resume a.minted

  abbrev refuse : Bool → AppState F K P → List (Call P) → Response K → Served F K P
  refuse guard s calls r = record { response = r; state = drop_spent guard s; calls = calls }

  abbrev upgrade : AppState F K P → Answers K → Option ProxyUpstream → List (Call P) → Served F K P
  upgrade s a relay calls = record {
    response = upgraded (resumable_session s a) (is_proxied relay);
    state = s;
    calls = calls;
  }

  -- The pool's answer.
  abbrev pub on_claim :
      Bool
      → AppState F K P
      → Answers K
      → Option ProxyUpstream
      → List (Call P)
      → Result ClaimError Bool
      → Served F K P
  on_claim guard s a relay calls (err e) =
      refuse guard s (calls ++ (claim_call relay ∷ []))
        (reject (claim_status e).0 (claim_status e).1)
  on_claim guard s a relay calls (ok false) =
      refuse guard s (calls ++ (claim_call relay ∷ destroys ∷ [])) (reject 500 (codes "internal"))
  on_claim guard s a relay calls (ok true) = upgrade s a relay (calls ++ (claim_call relay ∷ []))

  abbrev pub on_seeded :
      Bool → AppState F K P → Answers K → Option ProxyUpstream → List (Call P) → Bool → Served F K P
  on_seeded guard s a relay calls true = upgrade s a relay calls
  on_seeded guard s a relay calls false = refuse guard s calls (reject 503 (codes "launch_failed"))

  abbrev pub on_profile :
      Bool
      → AppState F K P
      → Answers K
      → Option ProxyUpstream
      → List (Call P)
      → Option P
      → Served F K P
  on_profile guard s a relay calls none =
      refuse guard s calls (reject 404 (codes "unknown_profile_token"))
  on_profile guard s a relay calls (some payload) =
      on_seeded guard s a relay (calls ++ (creates_seeded payload relay ∷ [])) a.seeded

module _ {F K P : Type 0} ⦃e : Eq K⦄ where
  unfoldable pub serve_profile_session :
      Bool → AppState F K P → Answers K → Option ProxyUpstream → List (Call P) → K → Served F K P
  serve_profile_session guard s a relay calls token =
      let claimed = claim s.profiles a.now token in
      on_profile guard (record s { profiles = claimed.1 }) a relay calls claimed.0

  -- With the relay up, or none asked for.
  abbrev pub hand_out :
      Bool
      → AppState F K P
      → Answers K
      → Option ProxyUpstream
      → List (Call P)
      → Option K
      → Served F K P
  hand_out guard s a relay calls (some token) = serve_profile_session guard s a relay calls token
  hand_out guard s a relay calls none = on_claim guard s a relay calls a.claimed

  abbrev pub on_relay :
      Bool
      → AppState F K P
      → Answers K
      → Option K
      → RequestedProxy
      → Result StartError (Unit {0})
      → Served F K P
  on_relay guard s a profile (u, options) (ok up) =
      hand_out guard s a (some u) (starts_relay u options ∷ []) profile
  on_relay guard s a profile (u, options) (err x) = record {
    response = proxy_start_refused x;
    state = drop_spent guard s;
    calls = starts_relay u options ∷ [];
  }

  abbrev pub start_relay :
      Bool → AppState F K P → Answers K → Option K → Option RequestedProxy → Served F K P
  start_relay guard s a profile none = hand_out guard s a none [] profile
  start_relay guard s a profile (some proxy) = on_relay guard s a profile proxy a.relay

  abbrev pub on_spend :
      Result Refused Bool × AppState F K P
      → Answers K
      → Option K
      → Option RequestedProxy
      → Served F K P
  on_spend (err r, s) a profile proxy = record { response = reject r.0 r.1; state = s; calls = [] }
  on_spend (ok guard, s) a profile proxy = start_relay guard s a profile proxy

  abbrev pub on_admission :
      Result Refused (Option RequestedProxy) → AppState F K P → Answers K → Option K → Served F K P
  on_admission (err r) s a profile = record { response = reject r.0 r.1; state = s; calls = [] }
  on_admission (ok proxy) s a profile = on_spend (take_single_use s) a profile proxy

  abbrev pub on_handoff : AppState F K P → K → ResumeRegistry K → Option ℕ → Served F K P
  on_handoff s token registry none = record {
    response = reject 404 (codes "unknown_resume_token");
    state = record s { resume = some registry };
    calls = [];
  }
  on_handoff s token registry (some handoff) = record {
    response = upgraded (some token) false;
    state = record s { resume = some registry };
    calls = [];
  }

  abbrev pub resume_from : AppState F K P → K → Option (ResumeRegistry K) → Served F K P
  resume_from s token none = record {
    response = reject 404 (codes "unknown_resume_token");
    state = s;
    calls = [];
  }
  resume_from s token (some registry) =
      let claimed = claim_token registry token in on_handoff s token claimed.1 claimed.0

  unfoldable pub resume_session : AppState F K P → K → Served F K P
  resume_session s token = resume_from s token s.resume

  abbrev pub on_resume :
      Host F → AppState F K P → Query K → Headers → Answers K → Option K → Served F K P
  on_resume h s query headers a (some token) = resume_session s token
  on_resume h s query headers a none = on_admission (admission h s headers) s a query.profile_token

  unfoldable pub ws_handler : Host F → AppState F K P → Query K → Headers → Answers K → Served F K P
  ws_handler h s query headers a =
      if check_auth h s query headers
      then on_resume h s query headers a query.resume
      else record { response = reject 401 (codes "unauthorized"); state = s; calls = [] }
