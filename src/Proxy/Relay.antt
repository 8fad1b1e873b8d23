-- ===== src/Proxy/Relay.antt =====
-- proxy/relay.rs: the relay's accept loop, its connection slots and its end. A connection is known by
-- its peer; what flows through it is left out.
pub mod Slots
mod Examples
use browserserve.Common.{
  ℕ, Bool, true, false, Option, none, some, List, [], ◌∷◌, ◌++◌, ◌≡◌, if◌then◌else◌,
}
use browserserve.Pool.Semaphore.{Semaphore, TryAcquire, closed, no_permits, permit}

pub record Peer : Type 0 where
  pub port : ℕ
  pub is_loopback : Bool

module _ (k : Semaphore) where
  -- `connections` are the tasks of `serve`, each of which holds a permit of `slots`.
  pub record Relay : Type 0 where
    pub slots : k.Sem
    pub cancelled : Bool
    pub accepting : Bool
    pub connections : List Peer

  -- `accept_loop` with its limit, before its first connection.
  unfoldable pub new_relay : ℕ → Relay
  new_relay max = record {
    slots = k.with_permits max;
    cancelled = false;
    accepting = true;
    connections = [];
  }

  abbrev pub on_slot : Peer → Relay → TryAcquire k.Sem → Relay
  on_slot peer r closed = r
  on_slot peer r no_permits = r
  on_slot peer r (permit slots) = record r { slots = slots; connections = peer ∷ r.connections }

  -- What the loop does with the answer of `listener.accept`, which is none for an error.
  unfoldable pub accept : Option Peer → Relay → Relay
  accept none r = r
  accept (some peer) r = if peer.is_loopback then on_slot peer r (k.try_acquire r.slots) else r

  -- The connection between the others ends, by itself or by the cancellation; its permit is dropped.
  unfoldable pub end_connection : List Peer → List Peer → Relay → Relay
  end_connection before after r = record r {
    slots = k.add_permits r.slots 1;
    connections = before ++ after;
  }

  -- The select of the loop may take a connection that came before the cancellation.
  pub data Step : Relay → Relay → Type 0 where
    accepts : (r : Relay) (a : Option Peer) → r.accepting ≡ true → Step r (accept a r)
    ends :
        (r : Relay) (before after : List Peer) (peer : Peer)
        → r.connections ≡ before ++ (peer ∷ after)
        → Step r (end_connection before after r)
    drops : (r : Relay) → Step r (record r { cancelled = true })
    stops : (r : Relay) → r.cancelled ≡ true → Step r (record r { accepting = false })

  pub data Reaches (from : Relay) : Relay → Type 0 where
    starts : Reaches from from
    steps : {r s : Relay} → Reaches from r → Step r s → Reaches from s
