-- ===== src/Bridge/Transparent.antt =====
-- bridge.rs: the messages that a running session passes on.
use browserserve.Common.{
  ℕ, Bool, true, false, Option, none, some, List, [], ◌∷◌, ◌++◌, append_nil, append_assoc, ltb, ◌≡◌,
  refl, sym, ap, ◌∙◌, arith, Bool-cases, inl, inr,
}
use browserserve.Common.Result.{Result, ok, err}
use browserserve.Common.Text.{Bytes}
use browserserve.Chrome.Pipe.{PipeError, CdpWriter, IoError, send_raw, write_all}
use browserserve.Bridge.{
  Message, text, binary, close, ping, pong, Sink, send, deliver, Arrival, message, broken, PumpExit,
  BrowserPumpExit, Bridge, Event, from_client, from_browser, pump_client_to_browser,
  pump_browser_to_client, on_arrival, after_send, after_frame, as_message, client_round,
  browser_round, bridge_session, Outcome,
}

-- What a message puts into the pipe.
unfoldable pub framed : Message → Bytes
framed (text t) = t ++ (0 ∷ [])
framed (binary b) = b ++ (0 ∷ [])
framed _ = []

unfoldable pub client_bytes : List Event → Bytes
client_bytes [] = []
client_bytes (from_client delay (message m) ∷ es) = framed m ++ client_bytes es
client_bytes (from_client delay broken ∷ es) = client_bytes es
client_bytes (from_browser r ∷ es) = client_bytes es

unfoldable pub browser_messages : List Event → List Message
browser_messages [] = []
browser_messages (from_browser (ok frame) ∷ es) = as_message frame ∷ browser_messages es
browser_messages (from_browser (err e) ∷ es) = browser_messages es
browser_messages (from_client delay a ∷ es) = browser_messages es

pub some-eq-none : {A : Type 0} {a : A} → some a ≡ none → ⊥
some-eq-none h = ground (arith, h)

pub client_round-none :
    (m : Option PumpExit × CdpWriter) (s : Sink) (more : CdpWriter → Outcome) (b : Bridge)
    → client_round m s more ≡ (none, b)
    → (m.0 ≡ none) × (more m.1 ≡ (none, b))
client_round-none (none, w) s more b h = (refl, h)
client_round-none (some exit, w) s more b h = cc

pub browser_round-none :
    (m : Option BrowserPumpExit × Sink) (w : CdpWriter) (more : Sink → Outcome) (b : Bridge)
    → browser_round m w more ≡ (none, b)
    → (m.0 ≡ none) × (more m.1 ≡ (none, b))
browser_round-none (none, s) w more b h = (refl, h)
browser_round-none (some exit, s) w more b h = cc

-- A round that goes on was not too late.
pump_client-on_arrival :
    (idle : Option ℕ) (delay : ℕ) (a : Arrival) (w : CdpWriter)
    → (pump_client_to_browser idle delay a w).0 ≡ none
    → pump_client_to_browser idle delay a w ≡ on_arrival a w
unfolding pump_client_to_browser
pump_client-on_arrival none delay a w h = refl
pump_client-on_arrival (some dur) delay a w h = elim (Bool-cases (ltb dur delay)) [
  | inl late ↦ absurd (some-eq-none (rw late at h))
  | inr soon ↦ rw soon refl
]

written_by :
    (t old : Bytes) (fs : List (Option IoError))
    → (send_raw t (record { written = old; faults = fs })).0 ≡ ok tt
    → (send_raw t (record { written = old; faults = fs })).1.written ≡ old ++ (t ++ (0 ∷ []))
unfolding send_raw write_all
written_by t old [] h = append_assoc old t (0 ∷ [])
written_by t old (none ∷ []) h = append_assoc old t (0 ∷ [])
written_by t old (none ∷ none ∷ fs) h = append_assoc old t (0 ∷ [])
written_by t old (none ∷ some e ∷ fs) h = cc
written_by t old (some e ∷ fs) h = cc

delivered :
    (m : Message) (sent : List Message) (fs : List Bool)
    → (deliver m sent fs).0 ≡ true
    → (deliver m sent fs).1.sent ≡ sent ++ (m ∷ [])
delivered m sent [] h = refl
delivered m sent (false ∷ fs) h = refl
delivered m sent (true ∷ fs) h = cc

after_frame-none :
    (p : Bool × Sink) → (after_frame p).0 ≡ none → (p.0 ≡ true) × ((after_frame p).1 ≡ p.1)
after_frame-none (true, s) h = (refl, refl)
after_frame-none (false, s) h = cc

after_send-none :
    (p : Result PipeError (Unit {0}) × CdpWriter)
    → (after_send p).0 ≡ none
    → (p.0 ≡ ok tt) × ((after_send p).1 ≡ p.1)
after_send-none (ok done, w) h = (refl, refl)
after_send-none (err e, w) h = cc

frame-delivered :
    (m : Message) (s : Sink)
    → (after_frame (send m s)).0 ≡ none
    → (after_frame (send m s)).1.sent ≡ s.sent ++ (m ∷ [])
unfolding send
frame-delivered m s h =
    let (good, same) = after_frame-none (send m s) h in
    ap (λ t. t.sent) same ∙ delivered m s.sent s.faults good

sent-written :
    (t : Bytes) (w : CdpWriter)
    → (after_send (send_raw t w)).0 ≡ none
    → (after_send (send_raw t w)).1.written ≡ w.written ++ (t ++ (0 ∷ []))
sent-written t w h =
    let (good, same) = after_send-none (send_raw t w) h in
    ap (λ v. v.written) same ∙ written_by t w.written w.faults good

on_arrival-written :
    (m : Message) (w : CdpWriter)
    → (on_arrival (message m) w).0 ≡ none
    → (on_arrival (message m) w).1.written ≡ w.written ++ framed m
unfolding framed
on_arrival-written (text t) w h = sent-written t w h
on_arrival-written (binary t) w h = sent-written t w h
on_arrival-written (close f) w h = cc
on_arrival-written ping w h = sym (append_nil w.written)
on_arrival-written pong w h = sym (append_nil w.written)

-- While a session runs, the browser has been sent every text and binary message of the client,
-- in order, each with the byte 0 behind it, and nothing else; and the client has been sent every
-- frame of the browser, in order, as a text when it is UTF-8 and as binary when it is not.
pub bridge_session-transparent :
    (idle : Option ℕ) (es : List Event) (w : CdpWriter) (s : Sink) (b : Bridge)
    → bridge_session idle es w s ≡ (none, b)
    → (b.writer.written ≡ w.written ++ client_bytes es)
      × (b.sink.sent ≡ s.sent ++ browser_messages es)
unfolding bridge_session client_bytes browser_messages pump_browser_to_client
bridge_session-transparent idle [] w s b h = (
  sym (ap (λ o. o.1.writer.written) h) ∙ sym (append_nil w.written),
  sym (ap (λ o. o.1.sink.sent) h) ∙ sym (append_nil s.sent),
)
bridge_session-transparent idle (from_client delay (message m) ∷ es) w s b h =
    let (goes, more) =
      client_round-none (pump_client_to_browser idle delay (message m) w) s _ b h in
    let same = pump_client-on_arrival idle delay (message m) w goes in
    let (bytes, messages) = bridge_session-transparent idle es _ s b more in
    (
      bytes
          ∙ ap (λ v. v.1.written ++ client_bytes es) same
          ∙ ap (λ v. v ++ client_bytes es)
              (on_arrival-written m w (sym (ap (λ v. v.0) same) ∙ goes))
          ∙ append_assoc w.written (framed m) (client_bytes es),
      messages,
    )
bridge_session-transparent idle (from_client delay broken ∷ es) w s b h =
    let (goes, more) = client_round-none (pump_client_to_browser idle delay broken w) s _ b h in
    let same = pump_client-on_arrival idle delay broken w goes in
    absurd (some-eq-none (sym (ap (λ v. v.0) same) ∙ goes))
bridge_session-transparent idle (from_browser (ok frame) ∷ es) w s b h =
    let (goes, more) = browser_round-none (after_frame (send (as_message frame) s)) w _ b h in
    let (bytes, messages) = bridge_session-transparent idle es w _ b more in
    (
      bytes,
      messages
          ∙ ap (λ v. v ++ browser_messages es) (frame-delivered (as_message frame) s goes)
          ∙ append_assoc s.sent (as_message frame ∷ []) (browser_messages es),
    )
bridge_session-transparent idle (from_browser (err e) ∷ es) w s b h = cc
