-- ===== src/Bridge/Ends.antt =====
-- bridge.rs: why a session ends.
use browserserve.Common.{
  ℕ, ◌<◌, Bool, true, false, Option, none, some, List, [], ◌∷◌, ◌++◌, ltb, ltb→lt, ◌==◌, ◌≡◌, ◌≢◌,
  refl, sym, ap, ◌∙◌, subst, arith, ◌⊎◌, inl, inr, Bool-cases,
}
use browserserve.Common.Result.{Result, ok, err}
use browserserve.Common.Text.{Bytes}
use browserserve.Chrome.Pipe.{PipeError, CdpWriter, send_raw}
use browserserve.Bridge.{
  Message, text, binary, close, ping, pong, CloseFrame, close_normal, Sink, send, Arrival, message,
  broken, PumpExit, client_finished, idle_timeout, close_exit, BrowserPumpExit, browser_gone,
  client_gone, BridgeEnd, Bridge, Event, from_client, from_browser, pump_client_to_browser,
  pump_browser_to_client, on_arrival, after_send, after_frame, as_message, idle_goodbye,
  browser_closed, client_round, browser_round, client_ended, browser_ended, bridge_session, Outcome,
}
use browserserve.Bridge.Transparent.{some-eq-none}
use browserserve.Bridge.Interleaving.{client_round-more, browser_round-more}

-- A close frame by which the client says that it has finished.
abbrev pub IsNormal : Option CloseFrame → Type 0
IsNormal none = Unit {0}
IsNormal (some frame) = frame.code ≡ close_normal

-- Why an event ends a session that was in the state `c`, how, and what is left.
pub data Cause (idle : Option ℕ) (c : Bridge) : Event → BridgeEnd → Bridge → Type 0 where
  silent :
      (dur delay : ℕ) (a : Arrival)
      → idle ≡ some dur
      → dur < delay
      → Cause idle c
          (from_client delay a)
          (idle_timeout c.writer)
          (record { writer = c.writer; sink = (send (idle_goodbye dur) c.sink).1 })
  finished :
      (delay : ℕ) (frame : Option CloseFrame)
      → IsNormal frame
      → Cause idle c (from_client delay (message (close frame))) (client_finished c.writer) c
  broke : (delay : ℕ) → Cause idle c (from_client delay broken) (client_gone c.writer) c
  abnormal :
      (delay : ℕ) (frame : CloseFrame)
      → frame.code ≢ close_normal
      → Cause idle c (from_client delay (message (close (some frame)))) (client_gone c.writer) c
  unsent :
      (delay : ℕ) (bytes : Bytes) (m : Message) (e : PipeError) (v : CdpWriter)
      → (m ≡ text bytes) ⊎ (m ≡ binary bytes)
      → send_raw bytes c.writer ≡ (err e, v)
      → Cause idle c
          (from_client delay (message m))
          (client_gone v)
          (record { writer = v; sink = c.sink })
  unreachable :
      (frame : Bytes) (t : Sink)
      → send (as_message frame) c.sink ≡ (false, t)
      → Cause idle c
          (from_browser (ok frame))
          (client_gone c.writer)
          (record { writer = c.writer; sink = t })
  gone :
      (e : PipeError)
      → Cause idle c
          (from_browser (err e))
          browser_gone
          (record { writer = c.writer; sink = (send browser_closed c.sink).1 })

some_injective : {A : Type 0} (a b : A) → some a ≡ some b → a ≡ b
some_injective a b h = cc

module _ (idle : Option ℕ) (w : CdpWriter) (s : Sink) where
  abbrev here : Bridge
  here = record { writer = w; sink = s }

  -- A round that ends the session has a cause.
  abbrev ClientCause : Event → Option PumpExit × CdpWriter → Type 0
  ClientCause e (none, v) = Unit {0}
  ClientCause e (some x, v) = Cause idle here e (client_ended x s v).0 (client_ended x s v).1

  abbrev BrowserCause : Event → Option BrowserPumpExit × Sink → Type 0
  BrowserCause e (none, t) = Unit {0}
  BrowserCause e (some x, t) =
      Cause idle here e (browser_ended x w) (record { writer = w; sink = t })

  moved :
      (e : Event) (end : BridgeEnd) (b : Bridge) (end' : BridgeEnd) (b' : Bridge)
      → end ≡ end'
      → b ≡ b'
      → Cause idle here e end b
      → Cause idle here e end' b'
  moved e end b end' b' p q h =
      subst (λ x. Cause idle here e x b') p (subst (Cause idle here e end) q h)

  after_send-ClientCause :
      (delay : ℕ) (bytes : Bytes) (m : Message) (p : Result PipeError (Unit {0}) × CdpWriter)
      → (m ≡ text bytes) ⊎ (m ≡ binary bytes)
      → send_raw bytes w ≡ p
      → ClientCause (from_client delay (message m)) (after_send p)
  after_send-ClientCause delay bytes m (ok done, v) is_m h = tt
  after_send-ClientCause delay bytes m (err e, v) is_m h = unsent delay bytes m e v is_m h

  on_arrival-ClientCause :
      (delay : ℕ) (a : Arrival) → ClientCause (from_client delay a) (on_arrival a w)
  unfolding close_exit
  on_arrival-ClientCause delay broken = broke delay
  on_arrival-ClientCause delay (message (text t)) =
      after_send-ClientCause delay t (text t) _ (inl refl) refl
  on_arrival-ClientCause delay (message (binary b)) =
      after_send-ClientCause delay b (binary b) _ (inr refl) refl
  on_arrival-ClientCause delay (message (close none)) = finished delay none tt
  on_arrival-ClientCause delay (message (close (some frame))) =
      elim (Bool-cases (frame.code == close_normal)) [
        | inl same ↦ rw same (finished delay (some frame) (ground arith))
        | inr other ↦ rw other (abnormal delay frame (ground arith))
      ]
  on_arrival-ClientCause delay (message ping) = tt
  on_arrival-ClientCause delay (message pong) = tt

  after_frame-BrowserCause :
      (frame : Bytes) (p : Bool × Sink)
      → send (as_message frame) s ≡ p
      → BrowserCause (from_browser (ok frame)) (after_frame p)
  after_frame-BrowserCause frame (true, t) h = tt
  after_frame-BrowserCause frame (false, t) h = unreachable frame t h

  pump_browser_to_client-BrowserCause :
      (r : Result PipeError Bytes) → BrowserCause (from_browser r) (pump_browser_to_client r s)
  unfolding pump_browser_to_client
  pump_browser_to_client-BrowserCause (ok frame) = after_frame-BrowserCause frame _ refl
  pump_browser_to_client-BrowserCause (err e) = gone e

  client_round-Cause :
      (e : Event) (m : Option PumpExit × CdpWriter) (more : CdpWriter → Outcome) (end : BridgeEnd)
      (b : Bridge)
      → ClientCause e m
      → client_round m s more ≡ (some end, b)
      → Cause idle here e end b ⊎ ((m.0 ≡ none) × (more m.1 ≡ (some end, b)))
  client_round-Cause e (none, v) more end b h k = inr (refl, k)
  client_round-Cause e (some x, v) more end b h k =
      inl (moved e _ _ end b (some_injective _ end (ap (λ o. o.0) k)) (ap (λ o. o.1) k) h)

  browser_round-Cause :
      (e : Event) (m : Option BrowserPumpExit × Sink) (more : Sink → Outcome) (end : BridgeEnd)
      (b : Bridge)
      → BrowserCause e m
      → browser_round m w more ≡ (some end, b)
      → Cause idle here e end b ⊎ ((m.0 ≡ none) × (more m.1 ≡ (some end, b)))
  browser_round-Cause e (none, t) more end b h k = inr (refl, k)
  browser_round-Cause e (some x, t) more end b h k =
      inl (moved e _ _ end b (some_injective _ end (ap (λ o. o.0) k)) (ap (λ o. o.1) k) h)

pump_client_to_browser-ClientCause :
    (idle : Option ℕ) (w : CdpWriter) (s : Sink) (delay : ℕ) (a : Arrival)
    → ClientCause idle w s (from_client delay a) (pump_client_to_browser idle delay a w)
unfolding pump_client_to_browser
pump_client_to_browser-ClientCause none w s delay a = on_arrival-ClientCause none w s delay a
pump_client_to_browser-ClientCause (some dur) w s delay a = elim (Bool-cases (ltb dur delay)) [
  | inl late ↦ rw late (silent dur delay a refl (ltb→lt dur delay late))
  | inr soon ↦ rw soon (on_arrival-ClientCause (some dur) w s delay a)
]

-- How a session got to its end: the events before the last one, the state after them, and the cause.
pub record Ended (idle : Option ℕ) (es : List Event) (w : CdpWriter) (s : Sink) (end : BridgeEnd)
    (b : Bridge) : Type 0 where
  pub before : List Event
  pub last : Event
  pub unread : List Event
  pub state : Bridge
  pub all : es ≡ before ++ (last ∷ unread)
  pub ran : bridge_session idle before w s ≡ (none, state)
  pub cause : Cause idle state last end b

module _ (idle : Option ℕ) (es : List Event) (w : CdpWriter) (s : Sink) (end : BridgeEnd)
    (b : Bridge) where
  after_client :
      (delay : ℕ) (a : Arrival)
      → (pump_client_to_browser idle delay a w).0 ≡ none
      → Ended idle es (pump_client_to_browser idle delay a w).1 s end b
      → Ended idle (from_client delay a ∷ es) w s end b
  unfolding bridge_session
  after_client delay a goes e = record {
    before = from_client delay a ∷ e.before;
    last = e.last;
    unread = e.unread;
    state = e.state;
    all = ap (◌∷◌ (from_client delay a)) e.all;
    ran = client_round-more (pump_client_to_browser idle delay a w) s _ goes ∙ e.ran;
    cause = e.cause;
  }

  after_browser :
      (r : Result PipeError Bytes)
      → (pump_browser_to_client r s).0 ≡ none
      → Ended idle es w (pump_browser_to_client r s).1 end b
      → Ended idle (from_browser r ∷ es) w s end b
  unfolding bridge_session
  after_browser r goes e = record {
    before = from_browser r ∷ e.before;
    last = e.last;
    unread = e.unread;
    state = e.state;
    all = ap (◌∷◌ (from_browser r)) e.all;
    ran = browser_round-more (pump_browser_to_client r s) w _ goes ∙ e.ran;
    cause = e.cause;
  }

-- A session that has ended had run up to one last event, and that event is its cause: a client silent
-- beyond the idle timeout, which is told so; a close frame with code 1000 or none for `ClientFinished`; a
-- close frame with another code, a broken connection, or a send to either side that failed for
-- `ClientGone`; and an error from the browser's pipe, which the client is told, for `BrowserGone`.
pub bridge_session-Ended :
    (idle : Option ℕ) (es : List Event) (w : CdpWriter) (s : Sink) (end : BridgeEnd) (b : Bridge)
    → bridge_session idle es w s ≡ (some end, b)
    → Ended idle es w s end b
unfolding bridge_session
bridge_session-Ended idle [] w s end b h = absurd (some-eq-none (sym (ap (λ o. o.0) h)))
bridge_session-Ended idle (from_client delay a ∷ es) w s end b h =
    let m = pump_client_to_browser idle delay a w in
    elim (client_round-Cause idle w s (from_client delay a) m _ end b
      (pump_client_to_browser-ClientCause idle w s delay a) h) [
        | inl cause ↦ record {
          before = [];
          last = from_client delay a;
          unread = es;
          state = here idle w s;
          all = refl;
          ran = refl;
          cause = cause;
        }
        | inr (goes, more) ↦
            after_client idle es w s end b delay a goes
              (bridge_session-Ended idle es m.1 s end b more)
      ]
bridge_session-Ended idle (from_browser r ∷ es) w s end b h =
    let m = pump_browser_to_client r s in
    elim (browser_round-Cause idle w s (from_browser r) m _ end b
      (pump_browser_to_client-BrowserCause idle w s r) h) [
        | inl cause ↦ record {
          before = [];
          last = from_browser r;
          unread = es;
          state = here idle w s;
          all = refl;
          ran = refl;
          cause = cause;
        }
        | inr (goes, more) ↦
            after_browser idle es w s end b r goes (bridge_session-Ended idle es w m.1 end b more)
      ]
