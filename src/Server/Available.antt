-- ===== src/Server/Available.antt =====
-- server/http.rs against server/ws.rs: what `/pressure` says of a new session.
use browserserve.Common.{
  Bool, true, false, ◌&&◌, Option, none, some, leb, ◌≡◌, refl, ap, inl, inr, arith, Bool-cases,
}
use browserserve.Common.Result.{ok}
use browserserve.Common.Map.{Eq}
use browserserve.Server.App.{Host, AppState, Headers, Query, check_auth, has_room, is_spent}
use browserserve.Server.Sessions.{
  upgraded, Answers, requested_proxy, admission, take_single_use, spend_option, spent_from,
  on_admission, on_resume, resumable_session, new_token, ws_handler,
}
use browserserve.Server.SingleUse.{SingleUse}
use browserserve.Server.Http.{
  open_gate, PressureInputs, reason_at, Reason, sandbox, is_draining, full, gate,
  unavailable_reason, pressure_inputs, pressure_reason,
}
use browserserve.Server.Admission.{IsCalm, IsAdmitted}
use browserserve.Server.OneSession.{try_spend-fresh}

-- The reasons that the gates of a session do not test: the pool and the factory do.
abbrev pub IsLater : Option Reason → Type 0
IsLater none = Unit {0}
IsLater (some sandbox) = Unit {0}
IsLater (some is_draining) = Unit {0}
IsLater (some full) = Unit {0}
IsLater (some _) = ⊥

some-eq-none : {A : Type 0} {a : A} → some a ≡ none → ⊥
some-eq-none h = ground (arith, h)

-- The reason where the gate is open, from the tests in their order.
open_calm :
    {F : Type 0} (h : Host F) (i : PressureInputs F)
    → reason_at h i open_gate ≡ none
    → (has_room i.threads ≡ true)
      × (h.above i.cpu i.max_cpu ≡ false)
      × (h.above i.memory i.max_memory ≡ false)
open_calm h i k = elim (Bool-cases (has_room i.threads)) [
  | inr cramped ↦ absurd (some-eq-none (rw cramped at k))
  | inl room ↦ elim (Bool-cases (leb i.max_sessions i.running && leb i.max_queue i.queued)) [
    | inl all_taken ↦ absurd (some-eq-none (rw (room, all_taken) at k))
    | inr some_left ↦ elim (Bool-cases (h.above i.cpu i.max_cpu)) [
      | inl hot ↦ absurd (some-eq-none (rw (room, some_left, hot) at k))
      | inr cool ↦ elim (Bool-cases (h.above i.memory i.max_memory)) [
        | inl short ↦ absurd (some-eq-none (rw (room, some_left, cool, short) at k))
        | inr ample ↦ (room, cool, ample)
      ]
    ]
  ]
]

open-IsLater :
    {F : Type 0} (h : Host F) (i : PressureInputs F)
    → has_room i.threads ≡ true
    → h.above i.cpu i.max_cpu ≡ false
    → h.above i.memory i.max_memory ≡ false
    → IsLater (reason_at h i open_gate)
open-IsLater h i room cool ample =
    elim (Bool-cases (leb i.max_sessions i.running && leb i.max_queue i.queued)) [
      | inl all_taken ↦ rw (room, all_taken) tt
      | inr some_left ↦ rw (room, some_left, cool, ample) tt
    ]

module _ {F K P : Type 0} (h : Host F) (s : AppState F K P) where
  available-IsCalm : pressure_reason h s ≡ none → IsCalm h s × (is_spent s.single_use ≡ false)
  unfolding pressure_reason unavailable_reason gate
  available-IsCalm k = elim (Bool-cases s.sandbox_blocked) [
    | inl blocked ↦ absurd (some-eq-none (rw blocked at k))
    | inr usable ↦ elim (Bool-cases (is_spent s.single_use)) [
      | inl gone ↦ absurd (some-eq-none (rw (usable, gone) at k))
      | inr unspent ↦ elim (Bool-cases s.stats.accepting) [
        | inr draining ↦ absurd (some-eq-none (rw (usable, unspent, draining) at k))
        | inl accepting ↦ elim (Bool-cases s.calibrating) [
          | inl busy ↦ absurd (some-eq-none (rw (usable, unspent, accepting, busy) at k))
          | inr measured ↦ (
            calm_of measured (
                open_calm h (pressure_inputs s open_gate)
                  (rw (usable, unspent, accepting, measured) at k)),
            unspent,
          )
        ]
      ]
    ]
  ]
    where
      calm_of :
          s.calibrating ≡ false
          → (has_room s.threads ≡ true)
            × (h.above s.cpu s.max_cpu ≡ false)
            × (h.above s.memory s.max_memory ≡ false)
          → IsCalm h s
      calm_of measured (room, cool, ample) = record {
        cpu = cool;
        memory = ample;
        room = room;
        measured = measured;
      }

  -- A request that is admitted finds `/pressure` with no reason to refuse it but a browser's sandbox, a
  -- draining pool or a full one.
  admitted-IsLater :
      (query : Query K) (headers : Headers)
      → IsAdmitted h s query headers
      → IsLater (pressure_reason h s)
  unfolding pressure_reason unavailable_reason gate
  admitted-IsLater query headers admitted = elim (Bool-cases s.sandbox_blocked) [
    | inl blocked ↦ rw blocked tt
    | inr usable ↦ elim (Bool-cases s.stats.accepting) [
      | inr draining ↦ rw (usable, admitted.unspent, draining) tt
      | inl accepting ↦
          rw (usable, admitted.unspent, accepting, admitted.calm.measured)
            (open-IsLater h (pressure_inputs s open_gate) admitted.calm.room admitted.calm.cpu
              admitted.calm.memory)
    ]
  ]

  -- A calm server lets a request without a proxy through to the use.
  calm_admission :
      (headers : Headers) → IsCalm h s → headers.proxy ≡ none → admission h s headers ≡ ok none
  unfolding admission requested_proxy
  calm_admission headers calm plain =
      rw (plain, calm.cpu, calm.memory, calm.room, calm.measured) refl

  spends :
      (o : Option SingleUse)
      → is_spent o ≡ false
      → (guard : Bool) × (t : AppState F K P) × (spend_option s o ≡ (ok guard, t))
        × (t.resume ≡ s.resume)
  spends none k = (false, s, refl, refl)
  spends (some u) k = (
    true,
    record s { single_use = some (record u { spent = true }) },
    ap (spent_from s) (try_spend-fresh u k),
    refl,
  )

module _ {F K P : Type 0} ⦃e : Eq K⦄ (h : Host F) (s : AppState F K P) (headers : Headers)
    (a : Answers K) where
  calm_served :
      IsCalm h s
      → is_spent s.single_use ≡ false
      → headers.proxy ≡ none
      → a.claimed ≡ ok true
      → (on_admission (admission h s headers) s a none).response
        ≡ upgraded (resumable_session s a) false
  unfolding take_single_use resumable_session
  calm_served calm unspent plain claimed =
      let (guard, t, is_t, same) = spends h s s.single_use unspent in
      rw (calm_admission h s headers calm plain, is_t, claimed)
        (ap (λ r. upgraded (new_token r a.minted) false) same)

  at_profile :
      (o : Option K)
      → o ≡ none
      → (on_admission (admission h s headers) s a none).response
        ≡ upgraded (resumable_session s a) false
      → (on_admission (admission h s headers) s a o).response
        ≡ upgraded (resumable_session s a) false
  at_profile none eq k = k
  at_profile (some token) eq k = absurd (some-eq-none eq)

  at_resume :
      (query : Query K) (o : Option K)
      → o ≡ none
      → (on_admission (admission h s headers) s a query.profile_token).response
        ≡ upgraded (resumable_session s a) false
      → (on_resume h s query headers a o).response ≡ upgraded (resumable_session s a) false
  at_resume query none eq k = k
  at_resume query (some token) eq k = absurd (some-eq-none eq)

  -- When `/pressure` has no reason to refuse, an authorized request for a new session without a
  -- profile or a proxy is served when the pool gives it a browser: no gate of the session handler
  -- refuses what `/pressure` calls available.
  pub ws_handler-pressure_reason :
      (query : Query K)
      → pressure_reason h s ≡ none
      → check_auth h s query headers ≡ true
      → query.resume ≡ none
      → query.profile_token ≡ none
      → headers.proxy ≡ none
      → a.claimed ≡ ok true
      → (ws_handler h s query headers a).response ≡ upgraded (resumable_session s a) false
  unfolding ws_handler
  ws_handler-pressure_reason query available known anew no_profile plain claimed =
      let (calm, unspent) = available-IsCalm h s available in
      rw known (
        at_resume query query.resume anew
          (at_profile query.profile_token no_profile (calm_served calm unspent plain claimed)))
