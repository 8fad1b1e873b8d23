-- ===== src/Proxy/Relay/Examples.antt =====
-- A run of a relay, and inputs at which its properties apply.
use browserserve.Common.{ℕ, true, false, some, [], ◌∷◌, length, ◌≤◌, ◌≡◌, refl, ◌⊎◌}
use browserserve.Pool.Examples.{counter, counter_laws}
use browserserve.Proxy.Relay.{
  Peer, Relay, new_relay, accept, end_connection, Reaches, starts, steps, accepts, ends,
}
use browserserve.Proxy.Relay.Slots.{Served, Reaches-connections}

abbrev local : ℕ → Peer
local port = record { port = port; is_loopback = true }

abbrev remote : Peer
remote = record { port = 9; is_loopback = false }

-- Two slots: a third connection waits for none, one ends, and the next one has its place.
abbrev full : Relay counter
full = accept counter (some (local 3)) (
    accept counter (some remote)
      (accept counter (some (local 2)) (accept counter (some (local 1)) (new_relay counter 2))))

full_connections : full.connections ≡ local 2 ∷ local 1 ∷ []
unfolding accept new_relay
full_connections = refl

full_reached : Reaches counter (new_relay counter 2) full
unfolding accept new_relay
full_reached =
    steps
      (steps
        (steps (steps starts (accepts _ (some (local 1)) refl)) (accepts _ (some (local 2)) refl))
        (accepts _ (some remote) refl))
      (accepts _ (some (local 3)) refl)

abbrev freed : Relay counter
freed = end_connection counter (local 2 ∷ []) [] full

freed_then_served : (accept counter (some (local 4)) freed).connections ≡ local 4 ∷ local 2 ∷ []
unfolding accept new_relay end_connection
freed_then_served = refl

freed_reached : Reaches counter (new_relay counter 2) freed
freed_reached = steps full_reached (ends full (local 2 ∷ []) [] (local 1) full_connections)

Reaches-connections_example :
    (length freed.connections ≤ 2)
    × (((true ≡ true)
          × Served counter counter_laws 2 (local 4) freed (accept counter (some (local 4)) freed))
        ⊎ ((true ≡ false) × (accept counter (some (local 4)) freed ≡ freed)))
Reaches-connections_example = Reaches-connections counter counter_laws (local 4) freed_reached
