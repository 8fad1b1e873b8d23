-- ===== src/Bridge.antt =====
-- bridge.rs: one WebSocket bridged to one browser's pipe. `select!` of the two pumps is a schedule
-- of what reaches either of them; each round of a pump's loop runs whole.
pub mod Transparent
pub mod Interleaving
pub mod Ends
pub mod Idle
mod Examples
use browserserve.Common.{
  ℕ, Bool, true, false, Option, none, some, List, [], ◌∷◌, ◌++◌, drop, ltb, ◌==◌, if◌then◌else◌,
}
use browserserve.Common.Result.{Result, ok, err}
use browserserve.Common.Text.{Bytes, codes}
use browserserve.Common.Decimal.{decimal}
use browserserve.Common.Utf8.{is_utf8}
use browserserve.Chrome.Pipe.{PipeError, CdpWriter, send_raw}

abbrev pub close_normal : ℕ
close_normal = 1000

abbrev pub close_browser_gone : ℕ
close_browser_gone = 1011

abbrev pub close_idle_timeout : ℕ
close_idle_timeout = 1013

pub record CloseFrame : Type 0 where
  pub code : ℕ
  pub reason : Bytes

pub data Message : Type 0 where
  text binary : Bytes → Message
  close : Option CloseFrame → Message
  ping pong : Message

-- The client's side: what was sent to it, and whether each send to come fails.
pub record Sink : Type 0 where
  pub sent : List Message
  pub faults : List Bool

-- A failed send delivers nothing.
abbrev pub deliver : Message → List Message → List Bool → Bool × Sink
deliver m sent [] = (true, record { sent = sent ++ (m ∷ []); faults = [] })
deliver m sent (false ∷ fs) = (true, record { sent = sent ++ (m ∷ []); faults = fs })
deliver m sent (true ∷ fs) = (false, record { sent = sent; faults = fs })

unfoldable pub send : Message → Sink → Bool × Sink
send m s = deliver m s.sent s.faults

pub data PumpExit : Type 0 where
  client_closed client_finished : PumpExit
  idle_timeout : ℕ → PumpExit

pub data BrowserPumpExit : Type 0 where
  browser_gone client_gone : BrowserPumpExit

-- The first three come with the pipe.
pub data BridgeEnd : Type 0 where
  client_gone client_finished idle_timeout : CdpWriter → BridgeEnd
  browser_gone : BridgeEnd

-- `ws.next()`: a message, or the end of the stream or an error.
pub data Arrival : Type 0 where
  message : Message → Arrival
  broken : Arrival

unfoldable pub close_exit : Option CloseFrame → PumpExit
close_exit none = client_finished
close_exit (some frame) = if frame.code == close_normal then client_finished else client_closed

-- A round's result: `none` to go on.
abbrev pub after_send : Result PipeError (Unit {0}) × CdpWriter → Option PumpExit × CdpWriter
after_send (ok done, w) = (none, w)
after_send (err e, w) = (some client_closed, w)

abbrev pub on_arrival : Arrival → CdpWriter → Option PumpExit × CdpWriter
on_arrival broken w = (some client_closed, w)
on_arrival (message (text t)) w = after_send (send_raw t w)
on_arrival (message (binary b)) w = after_send (send_raw b w)
on_arrival (message (close frame)) w = (some (close_exit frame), w)
on_arrival (message ping) w = (none, w)
on_arrival (message pong) w = (none, w)

-- One round, for what arrives this many milliseconds after the round began.
unfoldable pub pump_client_to_browser :
    Option ℕ → ℕ → Arrival → CdpWriter → Option PumpExit × CdpWriter
pump_client_to_browser none delay a w = on_arrival a w
pump_client_to_browser (some dur) delay a w =
    if ltb dur delay then (some (idle_timeout dur), w) else on_arrival a w

abbrev pub as_message : Bytes → Message
as_message frame = if is_utf8 frame then text frame else binary frame

abbrev pub after_frame : Bool × Sink → Option BrowserPumpExit × Sink
after_frame (true, s) = (none, s)
after_frame (false, s) = (some client_gone, s)

abbrev pub browser_closed : Message
browser_closed =
    close (some (record { code = close_browser_gone; reason = codes "browser closed" }))

unfoldable pub pump_browser_to_client :
    Result PipeError Bytes → Sink → Option BrowserPumpExit × Sink
pump_browser_to_client (ok frame) s = after_frame (send (as_message frame) s)
pump_browser_to_client (err e) s = (some browser_gone, (send browser_closed s).1)

-- What reaches the session next: from the client after a delay, or `recv_raw`'s result.
pub data Event : Type 0 where
  from_client : ℕ → Arrival → Event
  from_browser : Result PipeError Bytes → Event

pub record Bridge : Type 0 where
  pub writer : CdpWriter
  pub sink : Sink

abbrev pub idle_goodbye : ℕ → Message
idle_goodbye dur = close (
    some (record {
      code = close_idle_timeout;
      reason = codes "idle-timeout after " ++ (decimal dur ++ codes "ms");
    }))

abbrev pub client_ended : PumpExit → Sink → CdpWriter → BridgeEnd × Bridge
client_ended client_closed s w = (client_gone w, record { writer = w; sink = s })
client_ended client_finished s w = (client_finished w, record { writer = w; sink = s })
client_ended (idle_timeout dur) s w =
    (idle_timeout w, record { writer = w; sink = (send (idle_goodbye dur) s).1 })

abbrev pub browser_ended : BrowserPumpExit → CdpWriter → BridgeEnd
browser_ended browser_gone w = browser_gone
browser_ended client_gone w = client_gone w

-- How the session ended, or `none` while both pumps still run.
abbrev pub Outcome : Type 0
Outcome = Option BridgeEnd × Bridge

abbrev pub client_round : Option PumpExit × CdpWriter → Sink → (CdpWriter → Outcome) → Outcome
client_round (none, w) s more = more w
client_round (some exit, w) s more = (some ((client_ended exit s w).0), (client_ended exit s w).1)

abbrev pub browser_round : Option BrowserPumpExit × Sink → CdpWriter → (Sink → Outcome) → Outcome
browser_round (none, s) w more = more s
browser_round (some exit, s) w more = (some (browser_ended exit w), record { writer = w; sink = s })

unfoldable pub bridge_session : Option ℕ → List Event → CdpWriter → Sink → Outcome
bridge_session idle [] w s = (none, record { writer = w; sink = s })
bridge_session idle (from_client delay a ∷ es) w s =
    client_round (pump_client_to_browser idle delay a w) s (λ v. bridge_session idle es v s)
bridge_session idle (from_browser r ∷ es) w s =
    browser_round (pump_browser_to_client r s) w (λ t. bridge_session idle es w t)

-- `bridge_reclaimable`: the pipe, unless the browser is gone.
abbrev pub reclaimed : BridgeEnd → Option CdpWriter
reclaimed (client_gone w) = some w
reclaimed (client_finished w) = some w
reclaimed (idle_timeout w) = some w
reclaimed browser_gone = none
