-- ===== src/Server/Resume.antt =====
-- server/resume.rs: the registry of parked sessions and the loop of `serve`. The bridge is an event
-- that says how it ended; `clean_slate` is a call of the browser and changes nothing here.
use browserserve.Common.{
  ℕ, zero, suc, Bool, true, false, Option, some, List, [], ◌∷◌, length, if◌then◌else◌,
}
use browserserve.Common.Map.{Eq, lookup, insert, remove}

pub data BridgeEnd : Type 0 where
  client_gone client_finished idle_timeout browser_gone : BridgeEnd

-- How the wait for a client ended.
pub data Parked : Type 0 where
  resumed expired gone : Parked

-- `leaving`: the wait is over and the token is still to be taken back. `ended`: whether `serve`
-- returned the browser's pipe.
pub data Phase : Type 0 where
  bridged waiting : Phase
  leaving : Parked → Phase
  ended : Bool → Phase

-- The parked sessions, by token; the value is the number of the hand-off channel.
pub record ResumeRegistry (K : Type 0) : Type 0 where
  pub parked : List (K × ℕ)

-- A session with the senders of its latest channel that clients hold, and how often it was parked,
-- claimed and resumed.
pub record Session (K : Type 0) : Type 0 where
  pub registry : ResumeRegistry K
  pub phase : Phase
  pub held : ℕ
  pub parks : ℕ
  pub claims : ℕ
  pub resumes : ℕ

pub data Visit (K : Type 0) : Type 0 where
  bridge_ends : BridgeEnd → Visit K
  cancels window_ends pipe_fails hands_socket drops_sender settles : Visit K
  claims_token : K → Visit K
  others_park : K → ℕ → Visit K

module _ {K : Type 0} ⦃e : Eq K⦄ where
  unfoldable pub claim_token : ResumeRegistry K → K → Option ℕ × ResumeRegistry K
  claim_token r token = (lookup token r.parked, record { parked = remove token r.parked })

  unfoldable pub count_parked : ResumeRegistry K → ℕ
  count_parked r = length r.parked

  unfoldable pub park_session : ResumeRegistry K → K → ℕ → ResumeRegistry K
  park_session r token handoff = record { parked = insert token handoff r.parked }

  unfoldable pub unpark : ResumeRegistry K → K → ResumeRegistry K
  unpark r token = record { parked = remove token r.parked }

  -- The end of the bridge: the client's connection broke, or the session is over.
  unfoldable pub after_bridge : K → Session K → BridgeEnd → Session K
  after_bridge token s client_gone = record s {
    registry = park_session s.registry token (suc s.parks);
    phase = waiting;
    held = 0;
    parks = suc s.parks;
  }
  after_bridge token s client_finished = record s { phase = ended true }
  after_bridge token s idle_timeout = record s { phase = ended true }
  after_bridge token s browser_gone = record s { phase = ended false }

  -- What follows the wait.
  unfoldable pub settle : K → Session K → Parked → Session K
  settle token s resumed = record s {
    registry = unpark s.registry token;
    phase = bridged;
    resumes = suc s.resumes;
  }
  settle token s expired = record s { registry = unpark s.registry token; phase = ended true }
  settle token s gone = record s { registry = unpark s.registry token; phase = ended false }

  -- A branch of the wait's `select!`.
  abbrev pub leave_wait : Session K → Phase → Parked → Session K
  leave_wait s waiting how = record s { phase = leaving how }
  leave_wait s _ how = s

  abbrev pub cancel_serve : Session K → Phase → Session K
  cancel_serve s bridged = record s { phase = ended false }
  cancel_serve s waiting = record s { phase = leaving gone }
  cancel_serve s _ = s

  -- A client takes a sender: that of this session when the token is its own.
  abbrev pub took : Session K → Bool → Option ℕ × ResumeRegistry K → Session K
  took s true (some handoff, r) = record s {
    registry = r;
    held = suc s.held;
    claims = suc s.claims;
  }
  took s _ (_, r) = record s { registry = r }

  -- The one sender is used up: what becomes of the wait.
  abbrev pub use_sender : Session K → ℕ → Parked → Session K
  use_sender s zero how = s
  use_sender s (suc n) how = leave_wait (record s { held = n }) s.phase how

  abbrev pub bridge_step : K → Session K → Phase → BridgeEnd → Session K
  bridge_step token s bridged end = after_bridge token s end
  bridge_step token s _ end = s

  abbrev pub settle_step : K → Session K → Phase → Session K
  settle_step token s (leaving how) = settle token s how
  settle_step token s _ = s

  unfoldable pub serve_step : K → Session K → Visit K → Session K
  serve_step token s (bridge_ends end) = bridge_step token s s.phase end
  serve_step token s cancels = cancel_serve s s.phase
  serve_step token s window_ends = leave_wait s s.phase expired
  serve_step token s pipe_fails = leave_wait s s.phase gone
  serve_step token s hands_socket = use_sender s s.held resumed
  serve_step token s drops_sender = use_sender s s.held expired
  serve_step token s settles = settle_step token s s.phase
  serve_step token s (claims_token t) = took s (e.same t token) (claim_token s.registry t)
  serve_step token s (others_park t handoff) =
      if e.same t token then s else record s { registry = park_session s.registry t handoff }

  unfoldable pub serve_run : K → Session K → List (Visit K) → Session K
  serve_run token s [] = s
  serve_run token s (x ∷ xs) = serve_run token (serve_step token s x) xs

  -- A session whose first client is served.
  abbrev pub served : Session K
  served = record {
    registry = record { parked = [] };
    phase = bridged;
    held = 0;
    parks = 0;
    claims = 0;
    resumes = 0;
  }
