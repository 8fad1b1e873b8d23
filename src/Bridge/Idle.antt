-- ===== src/Bridge/Idle.antt =====
-- bridge.rs: the idle timeout.
use browserserve.Common.{
  ℕ, ◌<◌, ◌≤◌, Option, none, some, List, [], ◌∷◌, ◌++◌, ltb, ltb→lt, lt→ltb, ◌≡◌, refl, arith, inl,
  inr, Bool-cases,
}
use browserserve.Chrome.Pipe.{CdpWriter}
use browserserve.Bridge.{
  ping, Sink, Arrival, message, PumpExit, idle_timeout, BrowserPumpExit, BridgeEnd, Event,
  from_client, from_browser, pump_client_to_browser, pump_browser_to_client, client_round,
  browser_round, bridge_session, Outcome,
}

abbrev Stops : Outcome → Type 0
Stops o = (end : BridgeEnd) × (o.0 ≡ some end)

ends_client :
    (m : Option PumpExit × CdpWriter) (s : Sink) (more : CdpWriter → Outcome)
    → ((v : CdpWriter) → Stops (more v))
    → Stops (client_round m s more)
ends_client (none, v) s more h = h v
ends_client (some x, v) s more h = (_, refl)

ends_browser :
    (m : Option BrowserPumpExit × Sink) (w : CdpWriter) (more : Sink → Outcome)
    → ((t : Sink) → Stops (more t))
    → Stops (browser_round m w more)
ends_browser (none, t) w more h = h t
ends_browser (some x, t) w more h = (_, refl)

-- A client that keeps silent for longer than the idle timeout ends the session, at that event
-- or earlier, whatever went before and whatever follows.
pub bridge_session-silent :
    (dur delay : ℕ) (a : Arrival) (es fs : List Event) (w : CdpWriter) (s : Sink)
    → dur < delay
    → (end : BridgeEnd) × ((bridge_session (some dur) (es ++ (from_client delay a ∷ fs)) w s).0
        ≡ some end)
unfolding bridge_session pump_client_to_browser
bridge_session-silent dur delay a [] fs w s h = rw (lt→ltb dur delay h) (idle_timeout w, refl)
bridge_session-silent dur delay a (from_client d c ∷ es) fs w s h =
    ends_client (pump_client_to_browser (some dur) d c w) s _
      (λ v. bridge_session-silent dur delay a es fs v s h)
bridge_session-silent dur delay a (from_browser r ∷ es) fs w s h =
    ends_browser (pump_browser_to_client r s) w _
      (λ t. bridge_session-silent dur delay a es fs w t h)

-- Pings after these delays.
abbrev pub pings : List ℕ → List Event
pings [] = []
pings (delay ∷ delays) = from_client delay (message ping) ∷ pings delays

abbrev pub AreWithin : ℕ → List ℕ → Type 0
AreWithin dur [] = Unit {0}
AreWithin dur (delay ∷ delays) = (delay ≤ dur) × AreWithin dur delays

-- A client that sends pings and no message of the protocol never ends its session, however many
-- it sends, when none comes later than the idle timeout after the one before.
bridge_session-pings :
    (dur : ℕ) (delays : List ℕ) (w : CdpWriter) (s : Sink)
    → AreWithin dur delays
    → bridge_session (some dur) (pings delays) w s ≡ (none, record { writer = w; sink = s })
unfolding bridge_session pump_client_to_browser
bridge_session-pings dur [] w s h = refl
bridge_session-pings dur (delay ∷ delays) w s h = elim (Bool-cases (ltb dur delay)) [
  | inl late ↦ ground (arith, ltb→lt dur delay late)
  | inr soon ↦ rw soon (bridge_session-pings dur delays w s h.1)
]
