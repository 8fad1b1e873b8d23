-- ===== src/Server/Handing.antt =====
-- server/resume.rs: claims and resumes of a parked session.
use browserserve.Common.{
  ℕ, zero, suc, ◌+◌, ◌≤◌, true, Option, none, some, List, [], ◌∷◌, ◌≡◌, refl, arith, Bool-cases,
  Option-cases, inl, inr,
}
use browserserve.Common.Map.{Eq, lookup, remove, lookup-insert, lookup-remove}
use browserserve.Server.Resume.{
  BridgeEnd, client_gone, client_finished, idle_timeout, browser_gone, Parked, resumed, expired,
  gone, Phase, bridged, waiting, leaving, ended, Session, Visit, bridge_ends, cancels, window_ends,
  pipe_fails, hands_socket, drops_sender, settles, claims_token, others_park, claim_token,
  park_session, unpark, after_bridge, settle, leave_wait, cancel_serve, took, use_sender,
  bridge_step, settle_step, serve_step, serve_run, served,
}

abbrev pub listed : Option ℕ → ℕ
listed none = 0
listed (some handoff) = 1

-- Whether the session waits for a client or has just stopped waiting.
abbrev pub parked_now : Phase → ℕ
parked_now waiting = 1
parked_now (leaving how) = 1
parked_now bridged = 0
parked_now (ended pipe) = 0

-- A client has been accepted and is not served yet.
abbrev pub pending : Phase → ℕ
pending (leaving resumed) = 1
pending _ = 0

module _ {K : Type 0} ⦃e : Eq K⦄ (token : K) where
  pub record HandInv (s : Session K) : Type 0 where
    pub listed_le : listed (lookup token s.registry.parked) ≤ parked_now s.phase
    pub claims_le : s.claims + listed (lookup token s.registry.parked) ≤ s.parks
    pub resumes_le : s.resumes + pending s.phase + s.held ≤ s.claims

  same_refl : e.same token token ≡ true
  same_refl = (e.same_iff token token).1 refl

  after_bridge-HandInv :
      (s : Session K) (end : BridgeEnd)
      → s.phase ≡ bridged
      → HandInv s
      → HandInv (after_bridge token s end)
  unfolding after_bridge park_session
  after_bridge-HandInv s client_gone b h = record {
    listed_le =
        ground (arith, same_refl, lookup-insert token token (suc s.parks) s.registry.parked);
    claims_le =
        ground (arith, same_refl, lookup-insert token token (suc s.parks) s.registry.parked);
    resumes_le = ground arith;
  }
  after_bridge-HandInv s client_finished b h = record {
    listed_le = ground arith;
    claims_le = h.claims_le;
    resumes_le = ground arith;
  }
  after_bridge-HandInv s idle_timeout b h = record {
    listed_le = ground arith;
    claims_le = h.claims_le;
    resumes_le = ground arith;
  }
  after_bridge-HandInv s browser_gone b h = record {
    listed_le = ground arith;
    claims_le = h.claims_le;
    resumes_le = ground arith;
  }

  unlisted : (s : Session K) → lookup token (remove token s.registry.parked) ≡ none
  unlisted s = ground (arith, same_refl, lookup-remove token token s.registry.parked)

  settle-HandInv :
      (s : Session K) (how : Parked)
      → s.phase ≡ leaving how
      → HandInv s
      → HandInv (settle token s how)
  unfolding settle unpark
  settle-HandInv s resumed b h = record {
    listed_le = ground (arith, unlisted s);
    claims_le = ground (arith, unlisted s);
    resumes_le = ground arith;
  }
  settle-HandInv s expired b h = record {
    listed_le = ground (arith, unlisted s);
    claims_le = ground (arith, unlisted s);
    resumes_le = ground arith;
  }
  settle-HandInv s gone b h = record {
    listed_le = ground (arith, unlisted s);
    claims_le = ground (arith, unlisted s);
    resumes_le = ground arith;
  }

  took-HandInv :
      (s : Session K) (t : K)
      → HandInv s
      → HandInv (took s (e.same t token) (claim_token s.registry t))
  unfolding claim_token
  took-HandInv s t h = elim (Bool-cases (e.same t token)) [
    | inl own ↦ elim (Option-cases (lookup t s.registry.parked)) [
      | inl missing ↦
          rw (own, missing)
            (record {
              listed_le = ground (arith, lookup-remove t token s.registry.parked);
              claims_le = ground (arith, lookup-remove t token s.registry.parked);
              resumes_le = h.resumes_le;
            })
      | inr (handoff, here) ↦
          rw (own, here)
            (record {
              listed_le = ground (arith, lookup-remove t token s.registry.parked);
              claims_le =
                  ground
                    (arith, lookup-remove t token s.registry.parked, (e.same_iff t token).0 own);
              resumes_le = ground arith;
            })
    ]
    | inr other ↦ rw other (record {
      listed_le = ground (arith, lookup-remove t token s.registry.parked);
      claims_le = ground (arith, lookup-remove t token s.registry.parked);
      resumes_le = h.resumes_le;
    })
  ]

  bridge_step-HandInv :
      (s : Session K) (p : Phase) (end : BridgeEnd)
      → s.phase ≡ p
      → HandInv s
      → HandInv (bridge_step token s p end)
  bridge_step-HandInv s bridged end q h = after_bridge-HandInv s end q h
  bridge_step-HandInv s waiting end q h = h
  bridge_step-HandInv s (leaving how) end q h = h
  bridge_step-HandInv s (ended pipe) end q h = h

  settle_step-HandInv :
      (s : Session K) (p : Phase) → s.phase ≡ p → HandInv s → HandInv (settle_step token s p)
  settle_step-HandInv s bridged q h = h
  settle_step-HandInv s waiting q h = h
  settle_step-HandInv s (leaving how) q h = settle-HandInv s how q h
  settle_step-HandInv s (ended pipe) q h = h

  leave_wait-HandInv :
      (s : Session K) (p : Phase) (how : Parked)
      → s.phase ≡ p
      → s.resumes + pending (leaving how) + s.held ≤ s.claims
      → HandInv s
      → HandInv (leave_wait s p how)
  leave_wait-HandInv s bridged how q k h = h
  leave_wait-HandInv s waiting how q k h = record {
    listed_le = ground arith;
    claims_le = h.claims_le;
    resumes_le = k;
  }
  leave_wait-HandInv s (leaving other) how q k h = h
  leave_wait-HandInv s (ended pipe) how q k h = h

  cancel_serve-HandInv :
      (s : Session K) (p : Phase) → s.phase ≡ p → HandInv s → HandInv (cancel_serve s p)
  cancel_serve-HandInv s bridged q h = record {
    listed_le = ground arith;
    claims_le = h.claims_le;
    resumes_le = ground arith;
  }
  cancel_serve-HandInv s waiting q h = record {
    listed_le = ground arith;
    claims_le = h.claims_le;
    resumes_le = ground arith;
  }
  cancel_serve-HandInv s (leaving other) q h = h
  cancel_serve-HandInv s (ended pipe) q h = h

  pending_le : (how : Parked) → pending (leaving how) ≤ 1
  pending_le resumed = omega arith
  pending_le expired = omega arith
  pending_le gone = omega arith

  use_sender-HandInv :
      (s : Session K) (n : ℕ) (how : Parked) → s.held ≡ n → HandInv s → HandInv (use_sender s n how)
  use_sender-HandInv s zero how q h = h
  use_sender-HandInv s (suc n) how q h =
      leave_wait-HandInv (record s { held = n }) s.phase how refl
        (omega (arith, pending_le how, h.resumes_le))
        (record {
          listed_le = h.listed_le;
          claims_le = h.claims_le;
          resumes_le = omega (arith, h.resumes_le);
        })

  step-HandInv : (s : Session K) (x : Visit K) → HandInv s → HandInv (serve_step token s x)
  unfolding serve_step park_session
  step-HandInv s (bridge_ends end) h = bridge_step-HandInv s s.phase end refl h
  step-HandInv s cancels h = cancel_serve-HandInv s s.phase refl h
  step-HandInv s window_ends h =
      leave_wait-HandInv s s.phase expired refl (omega (arith, h.resumes_le)) h
  step-HandInv s pipe_fails h =
      leave_wait-HandInv s s.phase gone refl (omega (arith, h.resumes_le)) h
  step-HandInv s hands_socket h = use_sender-HandInv s s.held resumed refl h
  step-HandInv s drops_sender h = use_sender-HandInv s s.held expired refl h
  step-HandInv s settles h = settle_step-HandInv s s.phase refl h
  step-HandInv s (claims_token t) h = took-HandInv s t h
  step-HandInv s (others_park t handoff) h = elim (Bool-cases (e.same t token)) [
    | inl own ↦ rw own h
    | inr other ↦ rw other (record {
      listed_le = ground (arith, lookup-insert t token handoff s.registry.parked);
      claims_le = ground (arith, lookup-insert t token handoff s.registry.parked);
      resumes_le = h.resumes_le;
    })
  ]

  run-HandInv : (s : Session K) (xs : List (Visit K)) → HandInv s → HandInv (serve_run token s xs)
  unfolding serve_run
  run-HandInv s [] h = h
  run-HandInv s (x ∷ xs) h = run-HandInv (serve_step token s x) xs (step-HandInv s x h)

  -- In any order of events, those of other sessions among them, the token is listed only while the
  -- session waits for a client or has just stopped waiting; it is claimed at most once each time
  -- that the session is parked, and the session is resumed at most once for each claim.
  pub serve_run-resumes :
      (xs : List (Visit K))
      → let s = serve_run token served xs in
        (listed (lookup token s.registry.parked) ≤ parked_now s.phase)
        × (s.claims ≤ s.parks)
        × (s.resumes ≤ s.claims)
  unfolding lookup
  serve_run-resumes xs =
      let h =
        run-HandInv served xs
          (record { listed_le = omega arith; claims_le = omega arith; resumes_le = omega arith }) in
      (h.listed_le, omega (arith, h.claims_le), omega (arith, h.resumes_le))
