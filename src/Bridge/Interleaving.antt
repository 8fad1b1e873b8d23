-- ===== src/Bridge/Interleaving.antt =====
-- bridge.rs: the two pumps of a session that runs, each on its own.
use browserserve.Common.{ℕ, Option, none, some, List, [], ◌∷◌, ◌≡◌, refl, ap, ◌∙◌}
use browserserve.Chrome.Pipe.{CdpWriter}
use browserserve.Bridge.{
  Sink, PumpExit, BrowserPumpExit, Bridge, Event, from_client, from_browser, pump_client_to_browser,
  pump_browser_to_client, client_round, browser_round, bridge_session, Outcome,
}
use browserserve.Bridge.Transparent.{client_round-none, browser_round-none}

unfoldable pub clients : List Event → List Event
clients [] = []
clients (from_client delay a ∷ es) = from_client delay a ∷ clients es
clients (from_browser r ∷ es) = clients es

unfoldable pub browsers : List Event → List Event
browsers [] = []
browsers (from_client delay a ∷ es) = browsers es
browsers (from_browser r ∷ es) = from_browser r ∷ browsers es

pub client_round-more :
    (m : Option PumpExit × CdpWriter) (s : Sink) (more : CdpWriter → Outcome)
    → m.0 ≡ none
    → client_round m s more ≡ more m.1
client_round-more (none, w) s more h = refl
client_round-more (some exit, w) s more h = cc

pub browser_round-more :
    (m : Option BrowserPumpExit × Sink) (w : CdpWriter) (more : Sink → Outcome)
    → m.0 ≡ none
    → browser_round m w more ≡ more m.1
browser_round-more (none, s) w more h = refl
browser_round-more (some exit, s) w more h = cc

-- Each pump runs the same whatever the other does.
parted :
    (idle : Option ℕ) (es : List Event) (w v : CdpWriter) (s t : Sink) (b : Bridge)
    → bridge_session idle es w s ≡ (none, b)
    → (bridge_session idle (clients es) w t ≡ (none, record { writer = b.writer; sink = t }))
      × (bridge_session idle (browsers es) v s ≡ (none, record { writer = v; sink = b.sink }))
unfolding bridge_session clients browsers
parted idle [] w v s t b h = (
  ap (λ o. (none, record { writer = o.1.writer; sink = t })) h,
  ap (λ o. (none, record { writer = v; sink = o.1.sink })) h,
)
parted idle (from_client delay a ∷ es) w v s t b h =
    let (goes, more) = client_round-none (pump_client_to_browser idle delay a w) s _ b h in
    let (mine, theirs) = parted idle es _ v s t b more in
    (client_round-more (pump_client_to_browser idle delay a w) t _ goes ∙ mine, theirs)
parted idle (from_browser r ∷ es) w v s t b h =
    let (goes, more) = browser_round-none (pump_browser_to_client r s) w _ b h in
    let (theirs, mine) = parted idle es w v _ t b more in
    (theirs, browser_round-more (pump_browser_to_client r s) v _ goes ∙ mine)

-- Two pumps that each run alone run together.
joined :
    (idle : Option ℕ) (es : List Event) (w v : CdpWriter) (s t : Sink) (b : Bridge)
    → bridge_session idle (clients es) w t ≡ (none, record { writer = b.writer; sink = t })
    → bridge_session idle (browsers es) v s ≡ (none, record { writer = v; sink = b.sink })
    → bridge_session idle es w s ≡ (none, b)
unfolding bridge_session clients browsers
joined idle [] w v s t b h k =
    ap (λ o. (none, record { writer = o.1.writer; sink = s })) h
    ∙ ap (λ o. (none, record { writer = b.writer; sink = o.1.sink })) k
joined idle (from_client delay a ∷ es) w v s t b h k =
    let (goes, more) = client_round-none (pump_client_to_browser idle delay a w) t _ _ h in
    client_round-more (pump_client_to_browser idle delay a w) s _ goes
    ∙ joined idle es _ v s t b more k
joined idle (from_browser r ∷ es) w v s t b h k =
    let (goes, more) = browser_round-none (pump_browser_to_client r s) v _ _ k in
    browser_round-more (pump_browser_to_client r s) w _ goes ∙ joined idle es w v _ t b h more

-- A session that runs after one schedule runs after every other that has the same client events
-- in their order and the same browser events in theirs, and both are in the same state: neither
-- how the two directions interleave nor how one of them goes can be seen in the other.
pub bridge_session-interleaved :
    (idle : Option ℕ) (es fs : List Event) (w : CdpWriter) (s : Sink) (b : Bridge)
    → clients es ≡ clients fs
    → browsers es ≡ browsers fs
    → bridge_session idle es w s ≡ (none, b)
    → bridge_session idle fs w s ≡ (none, b)
bridge_session-interleaved idle es fs w s b same_clients same_browsers h =
    let (left, right) = parted idle es w w s s b h in
    joined idle fs w w s s b (rw same_clients at left) (rw same_browsers at right)
