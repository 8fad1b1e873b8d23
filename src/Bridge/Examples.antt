-- ===== src/Bridge/Examples.antt =====
-- Tests of the bridge, with the theorems at one session.
use browserserve.Common.{none, some, List, [], ◌∷◌, ◌++◌, ◌≡◌, refl, arith}
use browserserve.Common.Result.{ok, err}
use browserserve.Common.Text.{codes}
use browserserve.Common.Utf8.{is_utf8, utf8_from, continuation}
use browserserve.Chrome.Pipe.{closed, CdpWriter, send_raw, write_all}
use browserserve.Bridge.{
  text, binary, close, ping, Sink, send, message, broken, close_exit, client_finished, BridgeEnd,
  Bridge, Event, from_client, from_browser, pump_client_to_browser, pump_browser_to_client,
  bridge_session,
}
use browserserve.Bridge.Transparent.{client_bytes, browser_messages, bridge_session-transparent}
use browserserve.Bridge.Interleaving.{clients, browsers, bridge_session-interleaved}
use browserserve.Bridge.Ends.{Ended, bridge_session-Ended}
use browserserve.Bridge.Idle.{bridge_session-silent}

abbrev no_writes : CdpWriter
no_writes = record { written = []; faults = [] }

abbrev nothing_sent : Sink
nothing_sent = record { sent = []; faults = [] }

abbrev talk : List Event
talk =
    from_client 3 (message (text (codes "ab")))
    ∷ from_browser (ok (codes "c"))
    ∷ from_client 9 (message ping)
    ∷ from_browser (ok (255 ∷ []))
    ∷ []

abbrev other_order : List Event
other_order =
    from_browser (ok (codes "c"))
    ∷ from_browser (ok (255 ∷ []))
    ∷ from_client 3 (message (text (codes "ab")))
    ∷ from_client 9 (message ping)
    ∷ []

abbrev talked : Bridge
talked = record {
  writer = record { written = 97 ∷ 98 ∷ 0 ∷ []; faults = [] };
  sink = record { sent = text (codes "c") ∷ binary (255 ∷ []) ∷ []; faults = [] };
}

talk_runs : bridge_session (some 10) talk no_writes nothing_sent ≡ (none, talked)
unfolding bridge_session pump_client_to_browser pump_browser_to_client send send_raw write_all
    is_utf8 utf8_from continuation
talk_runs = refl

bridge_session-transparent_example :
    (talked.writer.written ≡ [] ++ client_bytes talk)
    × (talked.sink.sent ≡ [] ++ browser_messages talk)
bridge_session-transparent_example =
    bridge_session-transparent (some 10) talk no_writes nothing_sent talked talk_runs

same_clients : clients talk ≡ clients other_order
unfolding clients
same_clients = refl

same_browsers : browsers talk ≡ browsers other_order
unfolding browsers
same_browsers = refl

bridge_session-interleaved_example :
    bridge_session (some 10) other_order no_writes nothing_sent ≡ (none, talked)
bridge_session-interleaved_example =
    bridge_session-interleaved (some 10) talk other_order no_writes nothing_sent talked same_clients
      same_browsers talk_runs

abbrev farewell : List Event
farewell =
    from_client 3 (message (text (codes "ab")))
    ∷ from_client 4 (message (close none))
    ∷ from_browser (err closed)
    ∷ []

abbrev parted_writer : CdpWriter
parted_writer = record { written = 97 ∷ 98 ∷ 0 ∷ []; faults = [] }

farewell_ends :
    bridge_session none farewell no_writes nothing_sent
    ≡ (some (client_finished parted_writer), record { writer = parted_writer; sink = nothing_sent })
unfolding bridge_session pump_client_to_browser pump_browser_to_client close_exit send send_raw
    write_all
farewell_ends = refl

bridge_session-Ended_example :
    Ended none farewell no_writes nothing_sent
      (client_finished parted_writer)
      (record { writer = parted_writer; sink = nothing_sent })
bridge_session-Ended_example =
    bridge_session-Ended none farewell no_writes nothing_sent (client_finished parted_writer) _
      farewell_ends

bridge_session-silent_example :
    (end : BridgeEnd) × ((bridge_session
        (some 10)
        (talk ++ (from_client 11 broken ∷ []))
        no_writes
        nothing_sent).0
      ≡ some end)
bridge_session-silent_example =
    bridge_session-silent 10 11 broken talk [] no_writes nothing_sent (omega arith)
