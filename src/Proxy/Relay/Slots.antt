-- ===== src/Proxy/Relay/Slots.antt =====
-- proxy/relay.rs: the connections of a relay and its slots.
use browserserve.Common.{
  ℕ, ◌+◌, ◌≤◌, true, false, Option, none, some, List, [], ◌∷◌, ◌++◌, length, length-append, ◌≡◌,
  refl, sym, ap, subst, if◌then◌else◌, ◌∙◌, arith, ◌⊎◌, inl, inr, Bool-cases,
}
use browserserve.Pool.Semaphore.{
  Semaphore, SemaphoreLaws, TryAcquire, closed, no_permits, permit, Tried,
}
use browserserve.Proxy.Relay.{
  Peer, Relay, new_relay, on_slot, accept, end_connection, Step, accepts, ends, drops, stops,
  Reaches, starts, steps,
}

AreLocal : List Peer → Type 0
AreLocal [] = Unit {0}
AreLocal (p ∷ ps) = (p.is_loopback ≡ true) × AreLocal ps

AreLocal-drop :
    (before after : List Peer) (peer : Peer)
    → AreLocal (before ++ (peer ∷ after))
    → AreLocal (before ++ after)
unfolding AreLocal
AreLocal-drop [] after peer h = h.1
AreLocal-drop (p ∷ ps) after peer h = (h.0, AreLocal-drop ps after peer h.1)

module _ (k : Semaphore) (laws : SemaphoreLaws k) where
  record Bounded (max : ℕ) (r : Relay k) : Type 0 where
    permits : k.available_permits r.slots + length r.connections ≡ max
    open_slots : k.is_closed r.slots ≡ false
    local : AreLocal r.connections
    listens : (r.accepting ≡ true) ⊎ (r.cancelled ≡ true)

  -- A peer gets a connection, or there is no slot for it.
  abbrev pub Served : ℕ → Peer → Relay k → Relay k → Type 0
  Served max peer r s =
      (s.connections ≡ peer ∷ r.connections) ⊎ ((length r.connections ≡ max) × (s ≡ r))

  on_slot-Bounded :
      (max : ℕ) (peer : Peer) (r : Relay k) (t : TryAcquire k.Sem)
      → peer.is_loopback ≡ true
      → Bounded max r
      → Tried k r.slots t
      → Bounded max (on_slot k peer r t) × Served max peer r (on_slot k peer r t)
  unfolding AreLocal
  on_slot-Bounded max peer r closed l h t = absurd (ground (arith, t, h.open_slots))
  on_slot-Bounded max peer r no_permits l h t = (h, inr (omega (arith, h.permits, t.1), refl))
  on_slot-Bounded max peer r (permit slots) l h t = (
    record {
      permits = omega (arith, h.permits, t.2);
      open_slots = t.1;
      local = (l, h.local);
      listens = h.listens;
    },
    inl refl,
  )

  accept-local :
      (peer : Peer) (r : Relay k)
      → peer.is_loopback ≡ true
      → on_slot k peer r (k.try_acquire r.slots) ≡ accept k (some peer) r
  unfolding accept
  accept-local peer r h =
      sym (ap (λ b. if b then on_slot k peer r (k.try_acquire r.slots) else r) h)

  accept-remote :
      (peer : Peer) (r : Relay k) → peer.is_loopback ≡ false → accept k (some peer) r ≡ r
  unfolding accept
  accept-remote peer r h = ap (λ b. if b then on_slot k peer r (k.try_acquire r.slots) else r) h

  accept-Bounded :
      (max : ℕ) (a : Option Peer) (r : Relay k) → Bounded max r → Bounded max (accept k a r)
  unfolding accept
  accept-Bounded max none r h = h
  accept-Bounded max (some peer) r h = elim (Bool-cases peer.is_loopback) [
    | inl local ↦
        subst (Bounded max) (accept-local peer r local)
          (on_slot-Bounded max peer r _ local h (laws.try_acquire-Tried r.slots)).0
    | inr remote ↦ subst (Bounded max) (sym (accept-remote peer r remote)) h
  ]

  Step-Bounded : {max : ℕ} {r s : Relay k} → Step k r s → Bounded max r → Bounded max s
  unfolding end_connection
  Step-Bounded {max = max} (accepts r a on) h = accept-Bounded max a r h
  Step-Bounded (ends r before after peer among) h = record {
    permits = omega (
      arith,
      h.permits,
      laws.available-add_permits r.slots 1,
      ap length among,
      length-append before (peer ∷ after),
      length-append before after,
    );
    open_slots = laws.is_closed-add_permits r.slots 1 ∙ h.open_slots;
    local = AreLocal-drop before after peer (subst AreLocal among h.local);
    listens = h.listens;
  }
  Step-Bounded (drops r) h = record {
    permits = h.permits;
    open_slots = h.open_slots;
    local = h.local;
    listens = inr refl;
  }
  Step-Bounded (stops r gone) h = record {
    permits = h.permits;
    open_slots = h.open_slots;
    local = h.local;
    listens = inr gone;
  }

  new_relay-Bounded : (max : ℕ) → Bounded max (new_relay k max)
  unfolding new_relay AreLocal
  new_relay-Bounded max = record {
    permits = omega (arith, laws.available-with_permits max);
    open_slots = laws.is_closed-with_permits max;
    local = tt;
    listens = inl refl;
  }

  Reaches-Bounded : {max : ℕ} {r : Relay k} → Reaches k (new_relay k max) r → Bounded max r
  Reaches-Bounded {max = max} starts = new_relay-Bounded max
  Reaches-Bounded (steps run step) = Step-Bounded step (Reaches-Bounded run)

  -- Whatever order connections come, end and are refused in, a relay never has more of them than its
  -- limit; the next peer on the loopback interface gets one exactly as long as there are fewer, and
  -- is turned away without any effect when there are not; a peer from elsewhere never gets one.
  pub Reaches-connections :
      {max : ℕ} {r : Relay k} (peer : Peer)
      → Reaches k (new_relay k max) r
      → (length r.connections ≤ max)
        × (((peer.is_loopback ≡ true) × Served max peer r (accept k (some peer) r))
            ⊎ ((peer.is_loopback ≡ false) × (accept k (some peer) r ≡ r)))
  Reaches-connections {max = max} {r = r} peer run =
      let h = Reaches-Bounded run in
      (
        omega (arith, h.permits),
        elim (Bool-cases peer.is_loopback) [
          | inl local ↦ inl (
            local,
            subst (Served max peer r) (accept-local peer r local)
                (on_slot-Bounded max peer r _ local h (laws.try_acquire-Tried r.slots)).1,
          )
          | inr remote ↦ inr (remote, accept-remote peer r remote)
        ],
      )
