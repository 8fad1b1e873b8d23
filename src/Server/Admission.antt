-- ===== src/Server/Admission.antt =====
-- server/ws.rs and server/http.rs: what has to hold before anything is spent, claimed or launched.
use browserserve.Common.{
  ℕ, Bool, true, false, not, Option, none, some, [], ◌≡◌, refl, sym, ◌⊎◌, inl, inr, Bool-cases,
}
use browserserve.Common.Result.{Result, ok, err, >>=-eq-ok}
use browserserve.Common.Map.{Eq}
use browserserve.Server.App.{Host, AppState, Headers, Query, check_auth, has_room, is_spent}
use browserserve.Server.Sessions.{
  Refused, Answers, Served, RequestedProxy, requested_proxy, check, admission, take_single_use,
  spend_option, on_spend, on_admission, on_resume, resume_session, resume_from, on_handoff,
  ws_handler,
}
use browserserve.Server.SingleUse.{SingleUse, try_spend}
use browserserve.Server.Resume.{ResumeRegistry}

-- Below the limits of the host, and after the calibration.
pub record IsCalm {F K P : Type 0} (h : Host F) (s : AppState F K P) : Type 0 where
  pub cpu : h.above s.cpu s.max_cpu ≡ false
  pub memory : h.above s.memory s.max_memory ≡ false
  pub room : has_room s.threads ≡ true
  pub measured : s.calibrating ≡ false

-- An authorized request for a new session, on a calm host, with the one use left.
pub record IsAdmitted {F K P : Type 0} (h : Host F) (s : AppState F K P) (query : Query K)
    (headers : Headers) : Type 0 where
  pub authorized : check_auth h s query headers ≡ true
  pub anew : query.resume ≡ none
  pub calm : IsCalm h s
  pub unspent : is_spent s.single_use ≡ false

-- Nothing was asked of the pool, the factory or a relay, and neither the use nor a profile is spent.
pub record IsUntouched {F K P : Type 0} (s : AppState F K P) (r : Served F K P) : Type 0 where
  pub calls : r.calls ≡ []
  pub profiles : r.state.profiles ≡ s.profiles
  pub single_use : r.state.single_use ≡ s.single_use

check-eq-ok : (b : Bool) (r : Refused) (x : Unit {0}) → check b r ≡ ok x → b ≡ true
check-eq-ok true r x h = refl
check-eq-ok false r x h = cc

not-true : (b : Bool) → not b ≡ true → b ≡ false
not-true true h = cc
not-true false h = refl

admission-IsCalm :
    {F K P : Type 0} (h : Host F) (s : AppState F K P) (headers : Headers)
    (p : Option RequestedProxy)
    → admission h s headers ≡ ok p
    → IsCalm h s
unfolding admission
admission-IsCalm h s headers p eq =
    let (proxy, _, h1) = >>=-eq-ok (requested_proxy s headers) _ p eq in
    let (cool, is_cool, h2) = >>=-eq-ok (check (not (h.above s.cpu s.max_cpu)) _) _ p h1 in
    let (free, is_free, h3) = >>=-eq-ok (check (not (h.above s.memory s.max_memory)) _) _ p h2 in
    let (room, is_room, h4) = >>=-eq-ok (check (has_room s.threads) _) _ p h3 in
    let (measured, is_measured, h5) = >>=-eq-ok (check (not s.calibrating) _) _ p h4 in
    record {
      cpu = not-true _ (check-eq-ok _ _ cool is_cool);
      memory = not-true _ (check-eq-ok _ _ free is_free);
      room = check-eq-ok _ _ room is_room;
      measured = not-true _ (check-eq-ok _ _ measured is_measured);
    }

pub try_spend-spent : (u : SingleUse) → u.spent ≡ true → try_spend u ≡ (false, u)
unfolding try_spend
try_spend-spent u h = rw h refl

module _ {F K P : Type 0} ⦃e : Eq K⦄ (s : AppState F K P) (a : Answers K) (profile : Option K) where
  spend_gated :
      (proxy : Option RequestedProxy) (o : Option SingleUse)
      → s.single_use ≡ o
      → IsUntouched s (on_spend (spend_option s o) a profile proxy) ⊎ (is_spent o ≡ false)
  spend_gated proxy none h = inr refl
  spend_gated proxy (some u) h = elim (Bool-cases u.spent) [
    | inr fresh ↦ inr fresh
    | inl gone ↦
        inl (
          rw (try_spend-spent u gone)
            (record { calls = refl; profiles = refl; single_use = sym h }))
  ]

  admission_gated :
      (h : Host F) (headers : Headers) (r : Result Refused (Option RequestedProxy))
      → admission h s headers ≡ r
      → IsUntouched s (on_admission r s a profile) ⊎ (IsCalm h s × (is_spent s.single_use ≡ false))
  unfolding take_single_use
  admission_gated h headers (err r) eq =
      inl (record { calls = refl; profiles = refl; single_use = refl })
  admission_gated h headers (ok p) eq = elim (spend_gated p s.single_use refl) [
    | inl same ↦ inl same
    | inr fresh ↦ inr (admission-IsCalm h s headers p eq, fresh)
  ]

module _ {F K P : Type 0} ⦃e : Eq K⦄ (s : AppState F K P) where
  handoff_gated :
      (token : K) (registry : ResumeRegistry K) (o : Option ℕ)
      → IsUntouched s (on_handoff s token registry o)
  handoff_gated token registry none = record { calls = refl; profiles = refl; single_use = refl }
  handoff_gated token registry (some i) = record {
    calls = refl;
    profiles = refl;
    single_use = refl;
  }

  pub resume_gated :
      (token : K) (o : Option (ResumeRegistry K)) → IsUntouched s (resume_from s token o)
  resume_gated token none = record { calls = refl; profiles = refl; single_use = refl }
  resume_gated token (some registry) = handoff_gated token _ _

  known_gated :
      (h : Host F) (query : Query K) (headers : Headers) (a : Answers K) (o : Option K)
      → query.resume ≡ o
      → check_auth h s query headers ≡ true
      → IsUntouched s (on_resume h s query headers a o) ⊎ IsAdmitted h s query headers
  unfolding resume_session
  known_gated h query headers a (some token) asked known = inl (resume_gated token s.resume)
  known_gated h query headers a none anew known =
      elim (admission_gated s a query.profile_token h headers _ refl) [
        | inl same ↦ inl same
        | inr (calm, unspent) ↦
            inr (record { authorized = known; anew = anew; calm = calm; unspent = unspent })
      ]

  -- A request is admitted, or else it spends nothing: no relay is started, no browser claimed or
  -- launched, no profile taken and the one use left as it was. It is admitted only when it is
  -- authorized, asks for a new session, finds the host below its CPU, memory and thread limits and
  -- calibrated, and the one use unspent.
  pub ws_handler-IsAdmitted :
      (h : Host F) (query : Query K) (headers : Headers) (a : Answers K)
      → IsUntouched s (ws_handler h s query headers a) ⊎ IsAdmitted h s query headers
  unfolding ws_handler
  ws_handler-IsAdmitted h query headers a = elim (Bool-cases (check_auth h s query headers)) [
    | inr stranger ↦ inl (rw stranger (record { calls = refl; profiles = refl; single_use = refl }))
    | inl known ↦ rw known (known_gated h query headers a query.resume refl known)
  ]
