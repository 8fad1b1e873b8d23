-- ===== src/Server/Http.antt =====
-- server/http.rs: the probes, discovery, and the two handlers of the profile hand-off.
use browserserve.Common.{
  ℕ, Bool, not, ◌&&◌, ◌||◌, Option, none, some, [], ◌∷◌, ◌++◌, ltb, leb, if◌then◌else◌, ◌==◌,
}
use browserserve.Common.Text.{Bytes, codes}
use browserserve.Common.Map.{Eq}
use browserserve.Capacity.{ThreadUsage}
use browserserve.Profiles.{ProfileStore, drop_off, pick_up}
use browserserve.Server.App.{
  Host, AppState, Headers, Query, check_auth, has_room, is_spent, text_of,
}

pub data Gate : Type 0 where
  open_gate sandbox_blocked spent draining calibrating : Gate

pub record PressureInputs (F : Type 0) : Type 0 where
  pub at : Gate
  pub running : ℕ
  pub max_sessions : ℕ
  pub queued : ℕ
  pub max_queue : ℕ
  pub cpu : F
  pub memory : F
  pub max_cpu : F
  pub max_memory : F
  pub threads : Option ThreadUsage

-- One of the texts of the source; `none` is the empty one.
pub data Reason : Type 0 where
  sandbox is_spent_already is_draining is_calibrating no_threads full high_cpu high_memory : Reason

abbrev open_reason : {F : Type 0} → Host F → PressureInputs F → Option Reason
open_reason h i =
    if not (has_room i.threads)
    then some no_threads
    else if leb i.max_sessions i.running && leb i.max_queue i.queued
    then some full
    else if h.above i.cpu i.max_cpu
    then some high_cpu
    else if h.above i.memory i.max_memory
    then some high_memory
    else none

abbrev pub reason_at : {F : Type 0} → Host F → PressureInputs F → Gate → Option Reason
reason_at h i sandbox_blocked = some sandbox
reason_at h i spent = some is_spent_already
reason_at h i draining = some is_draining
reason_at h i calibrating = some is_calibrating
reason_at h i open_gate = open_reason h i

unfoldable pub unavailable_reason : {F : Type 0} → Host F → PressureInputs F → Option Reason
unavailable_reason h i = reason_at h i i.at

module _ {F K P : Type 0} where
  unfoldable pub gate : AppState F K P → Bool → Gate
  gate s accepting =
      if s.sandbox_blocked
      then sandbox_blocked
      else if is_spent s.single_use
      then spent
      else if not accepting
      then draining
      else if s.calibrating
      then calibrating
      else open_gate

  abbrev pub pressure_inputs : AppState F K P → Gate → PressureInputs F
  pressure_inputs s at = record {
    at = at;
    running = s.stats.running;
    max_sessions = s.stats.max_sessions;
    queued = s.stats.queued;
    max_queue = s.stats.max_queue;
    cpu = s.cpu;
    memory = s.memory;
    max_cpu = s.max_cpu;
    max_memory = s.max_memory;
    threads = s.threads;
  }

  unfoldable pub pressure_reason : Host F → AppState F K P → Option Reason
  pressure_reason h s = unavailable_reason h (pressure_inputs s (gate s s.stats.accepting))

  -- The status of `GET /ready` is 200 when it is true, and 503 when not.
  unfoldable pub ready : AppState F K P → Bool
  ready s =
      not s.calibrating
      && (not (is_spent s.single_use)
          && (not s.sandbox_blocked
              && (s.stats.accepting
                  && (ltb 0 s.stats.warm || ltb s.stats.running s.stats.max_sessions))))

-- What the other handlers answer with.
pub data Reply (K P : Type 0) : Type 0 where
  unauthorized bad_body at_capacity not_found : Reply K P
  version : Bytes → Reply K P
  minted : K → Reply K P
  profile : P → Reply K P

-- `trim_end_matches('/')`
unfoldable pub trim_slashes : Bytes → Bytes
trim_slashes [] = []
trim_slashes (c ∷ cs) = cut_slash c (trim_slashes cs)
  where
    cut_slash : ℕ → Bytes → Bytes
    cut_slash c [] = if c == b'/' then [] else c ∷ []
    cut_slash c (d ∷ ds) = c ∷ d ∷ ds

abbrev or_host : Option Bytes → Bytes
or_host none = codes "localhost:9222"
or_host (some host) = host

abbrev base_url : Option Bytes → Option Bytes → Bytes
base_url none host = codes "ws://" ++ or_host host
base_url (some address) host = address

abbrev token_query : Option Bytes → Bytes
token_query none = []
token_query (some token) = codes "?token=" ++ token

-- `webSocketDebuggerUrl`
unfoldable pub debugger_url : Option Bytes → Option Bytes → Option Bytes → Bytes
debugger_url external host token =
    trim_slashes (base_url external host) ++ (codes "/" ++ token_query token)

module _ {F K P : Type 0} where
  unfoldable pub json_version : Host F → AppState F K P → Query K → Headers → Reply K P
  json_version h s query headers =
      if check_auth h s query headers
      then version (debugger_url s.external_address (text_of headers.host) s.token)
      else unauthorized

module _ {F K P : Type 0} ⦃e : Eq K⦄ where
  abbrev dropped : AppState F K P → Option K × ProfileStore K P → Reply K P × AppState F K P
  dropped s (none, store) = (at_capacity, record s { profiles = store })
  dropped s (some token, store) = (minted token, record s { profiles = store })

  abbrev drop_body : AppState F K P → ℕ → Option K → Option P → Reply K P × AppState F K P
  drop_body s now token none = (bad_body, s)
  drop_body s now token (some payload) = dropped s (drop_off s.profiles now payload token)

  -- With the token that is minted and the body as it is read.
  unfoldable pub profile_drop_off :
      Host F
      → AppState F K P
      → Query K
      → Headers
      → ℕ
      → Option K
      → Option P
      → Reply K P × AppState F K P
  profile_drop_off h s query headers now token body =
      if check_auth h s query headers then drop_body s now token body else (unauthorized, s)

  abbrev picked : AppState F K P → Option P × ProfileStore K P → Reply K P × AppState F K P
  picked s (none, store) = (not_found, record s { profiles = store })
  picked s (some payload, store) = (profile payload, record s { profiles = store })

  unfoldable pub profile_pick_up :
      Host F → AppState F K P → Query K → Headers → ℕ → K → Reply K P × AppState F K P
  profile_pick_up h s query headers now token =
      if check_auth h s query headers
      then picked s (pick_up s.profiles now token)
      else (unauthorized, s)
