-- ===== src/Server/OneSession.antt =====
-- server/ws.rs: requests for a session in single-use mode.
use browserserve.Common.{
  ℕ, suc, ◌≤◌, Bool, true, false, Option, none, some, List, [], ◌∷◌, is_empty, if◌then◌else◌, ◌≡◌,
  refl, sym, subst, ◌⊎◌, inl, inr, arith, Bool-cases,
}
use browserserve.Common.Result.{Result, ok, err}
use browserserve.Common.Map.{Eq}
use browserserve.Capacity.{ThreadUsage}
use browserserve.Pool.State.{ClaimError, PoolStats}
use browserserve.Proxy.Upstream.{ProxyUpstream}
use browserserve.Server.App.{Host, AppState, Headers, Query, check_auth, is_spent}
use browserserve.Server.Sessions.{
  Refused, Answers, Served, Call, starts_relay, StartError, RequestedProxy, take_single_use,
  spend_option, drop_spent, finish_option, on_claim, on_seeded, on_profile, serve_profile_session,
  hand_out, on_relay, start_relay, on_spend, on_admission, on_resume, resume_session, admission,
  ws_handler,
}
use browserserve.Server.SingleUse.{SingleUse, try_spend, drop_guard}
use browserserve.Server.Admission.{
  IsUntouched, resume_gated, try_spend-spent, ws_handler-IsAdmitted,
}

-- What changes of the state between two requests, besides the profiles and the guard.
pub record Readings (F : Type 0) : Type 0 where
  pub cpu : F
  pub memory : F
  pub threads : Option ThreadUsage
  pub calibrating : Bool
  pub stats : PoolStats
  pub sandbox_blocked : Bool

-- `ends`: whether the session of the guard ended before the request.
pub record Visit (F K : Type 0) : Type 0 where
  pub readings : Readings F
  pub ends : Bool
  pub query : Query K
  pub headers : Headers
  pub answers : Answers K

unfoldable pub refresh : {F K P : Type 0} → Readings F → AppState F K P → AppState F K P
refresh r s = record s {
  cpu = r.cpu;
  memory = r.memory;
  threads = r.threads;
  calibrating = r.calibrating;
  stats = r.stats;
  sandbox_blocked = r.sandbox_blocked;
}

module _ {F K P : Type 0} ⦃e : Eq K⦄ (h : Host F) where
  unfoldable pub visit : AppState F K P → Visit F K → Served F K P
  visit s v = ws_handler h (drop_spent v.ends (refresh v.readings s)) v.query v.headers v.answers

  -- How many requests made any call of a relay, the pool or the factory.
  unfoldable pub count_served : AppState F K P → List (Visit F K) → ℕ
  count_served s [] = 0
  count_served s (v ∷ vs) =
      let rest = count_served (visit s v).state vs in
      if is_empty (visit s v).calls then rest else suc rest

-- Single-use mode with the use spent, or at least the mode.
abbrev pub IsSpent : Option SingleUse → Type 0
IsSpent none = ⊥
IsSpent (some u) = u.spent ≡ true

abbrev pub IsSingle : Option SingleUse → Type 0
IsSingle none = ⊥
IsSingle (some u) = Unit {0}

module _ {F K P : Type 0} where
  drop_spent-IsSpent :
      (g : Bool) (s : AppState F K P) → IsSpent s.single_use → IsSpent (drop_spent g s).single_use
  unfolding drop_spent drop_guard
  drop_spent-IsSpent false s k = k
  drop_spent-IsSpent true s k = finish_option-IsSpent s.single_use k
    where
      finish_option-IsSpent : (o : Option SingleUse) → IsSpent o → IsSpent (finish_option o)
      finish_option-IsSpent none k = k
      finish_option-IsSpent (some u) k = k

  drop_spent-IsSingle :
      (g : Bool) (s : AppState F K P) → IsSingle s.single_use → IsSingle (drop_spent g s).single_use
  unfolding drop_spent
  drop_spent-IsSingle false s k = k
  drop_spent-IsSingle true s k = finish_option-IsSingle s.single_use k
    where
      finish_option-IsSingle : (o : Option SingleUse) → IsSingle o → IsSingle (finish_option o)
      finish_option-IsSingle none k = k
      finish_option-IsSingle (some u) k = tt

  module _ (g : Bool) (a : Answers K) where
    claim-IsSpent :
        (s : AppState F K P) (relay : Option ProxyUpstream) (calls : List (Call P))
        (c : Result ClaimError Bool)
        → IsSpent s.single_use
        → IsSpent (on_claim g s a relay calls c).state.single_use
    claim-IsSpent s relay calls (err x) k = drop_spent-IsSpent g s k
    claim-IsSpent s relay calls (ok false) k = drop_spent-IsSpent g s k
    claim-IsSpent s relay calls (ok true) k = k

    seeded-IsSpent :
        (s : AppState F K P) (relay : Option ProxyUpstream) (calls : List (Call P)) (b : Bool)
        → IsSpent s.single_use
        → IsSpent (on_seeded g s a relay calls b).state.single_use
    seeded-IsSpent s relay calls true k = k
    seeded-IsSpent s relay calls false k = drop_spent-IsSpent g s k

    profile-IsSpent :
        (s : AppState F K P) (relay : Option ProxyUpstream) (calls : List (Call P)) (o : Option P)
        → IsSpent s.single_use
        → IsSpent (on_profile g s a relay calls o).state.single_use
    profile-IsSpent s relay calls none k = drop_spent-IsSpent g s k
    profile-IsSpent s relay calls (some payload) k = seeded-IsSpent s relay _ a.seeded k

pub try_spend-fresh :
    (u : SingleUse) → u.spent ≡ false → try_spend u ≡ (true, record u { spent = true })
unfolding try_spend
try_spend-fresh u h = rw h refl

module _ {F K P : Type 0} ⦃e : Eq K⦄ (a : Answers K) (profile : Option K) where
  hand_out-IsSpent :
      (g : Bool) (s : AppState F K P) (relay : Option ProxyUpstream) (calls : List (Call P))
      (o : Option K)
      → IsSpent s.single_use
      → IsSpent (hand_out g s a relay calls o).state.single_use
  unfolding serve_profile_session
  hand_out-IsSpent g s relay calls (some token) k = profile-IsSpent g a _ relay calls _ k
  hand_out-IsSpent g s relay calls none k = claim-IsSpent g a s relay calls a.claimed k

  relay-IsSpent :
      (g : Bool) (s : AppState F K P) (u : RequestedProxy) (r : Result StartError (Unit {0}))
      → IsSpent s.single_use
      → IsSpent (on_relay g s a profile u r).state.single_use
  relay-IsSpent g s (u, options) (ok up) k =
      hand_out-IsSpent g s (some u) (starts_relay u options ∷ []) profile k
  relay-IsSpent g s (u, options) (err x) k = drop_spent-IsSpent g s k

  start-IsSpent :
      (g : Bool) (s : AppState F K P) (o : Option RequestedProxy)
      → IsSpent s.single_use
      → IsSpent (start_relay g s a profile o).state.single_use
  start-IsSpent g s none k = hand_out-IsSpent g s none [] profile k
  start-IsSpent g s (some u) k = relay-IsSpent g s u a.relay k

  spend-IsSpent :
      (s : AppState F K P) (p : Option RequestedProxy) (o : Option SingleUse)
      → s.single_use ≡ o
      → IsSingle o
      → IsUntouched s (on_spend (spend_option s o) a profile p)
        ⊎ IsSpent (on_spend (spend_option s o) a profile p).state.single_use
  spend-IsSpent s p none h k = absurd k
  spend-IsSpent s p (some u) h k = elim (Bool-cases u.spent) [
    | inl gone ↦
        inl (
          rw (try_spend-spent u gone)
            (record { calls = refl; profiles = refl; single_use = sym h }))
    | inr fresh ↦ inr (rw (try_spend-fresh u fresh) (start-IsSpent true _ p refl))
  ]

  admission-IsSpent :
      (s : AppState F K P) (r : Result Refused (Option RequestedProxy))
      → IsSingle s.single_use
      → IsUntouched s (on_admission r s a profile)
        ⊎ IsSpent (on_admission r s a profile).state.single_use
  unfolding take_single_use
  admission-IsSpent s (err r) k = inl (record { calls = refl; profiles = refl; single_use = refl })
  admission-IsSpent s (ok p) k = spend-IsSpent s p s.single_use refl k

module _ {F K P : Type 0} ⦃e : Eq K⦄ (h : Host F) where
  known-IsSpent :
      (s : AppState F K P) (query : Query K) (headers : Headers) (a : Answers K) (o : Option K)
      → IsSingle s.single_use
      → IsUntouched s (on_resume h s query headers a o)
        ⊎ IsSpent (on_resume h s query headers a o).state.single_use
  unfolding resume_session
  known-IsSpent s query headers a (some token) k = inl (resume_gated s token s.resume)
  known-IsSpent s query headers a none k =
      admission-IsSpent a query.profile_token s (admission h s headers) k

  handler-IsSpent :
      (s : AppState F K P) (query : Query K) (headers : Headers) (a : Answers K)
      → IsSingle s.single_use
      → IsUntouched s (ws_handler h s query headers a)
        ⊎ IsSpent (ws_handler h s query headers a).state.single_use
  unfolding ws_handler
  handler-IsSpent s query headers a k = elim (Bool-cases (check_auth h s query headers)) [
    | inr stranger ↦ inl (rw stranger (record { calls = refl; profiles = refl; single_use = refl }))
    | inl known ↦ rw known (known-IsSpent s query headers a query.resume k)
  ]

  spent-IsUntouched :
      (s : AppState F K P) (query : Query K) (headers : Headers) (a : Answers K)
      → IsSpent s.single_use
      → IsUntouched s (ws_handler h s query headers a)
  spent-IsUntouched s query headers a k = elim (ws_handler-IsAdmitted s h query headers a) [
    | inl same ↦ same
    | inr admitted ↦ absurd (not_both s.single_use k admitted.unspent)
  ]
    where
      not_both : (o : Option SingleUse) → IsSpent o → is_spent o ≡ false → ⊥
      not_both none k f = k
      not_both (some u) k f = ground (arith, k, f)

  -- The state in which a request finds the server.
  abbrev found : AppState F K P → Visit F K → AppState F K P
  found s v = drop_spent v.ends (refresh v.readings s)

  found-IsSpent :
      (s : AppState F K P) (v : Visit F K) → IsSpent s.single_use → IsSpent (found s v).single_use
  unfolding refresh
  found-IsSpent s v k = drop_spent-IsSpent v.ends (refresh v.readings s) k

  found-IsSingle :
      (s : AppState F K P) (v : Visit F K) → IsSingle s.single_use → IsSingle (found s v).single_use
  unfolding refresh
  found-IsSingle s v k = drop_spent-IsSingle v.ends (refresh v.readings s) k

  spent_none :
      (vs : List (Visit F K)) (s : AppState F K P) → IsSpent s.single_use → count_served h s vs ≡ 0
  unfolding count_served visit
  spent_none [] s k = refl
  spent_none (v ∷ vs) s k =
      let stays = found-IsSpent s v k in
      let same = spent-IsUntouched (found s v) v.query v.headers v.answers stays in
      rw same.calls (spent_none vs (visit h s v).state (subst IsSpent (sym same.single_use) stays))

  -- In single-use mode, of any requests in any order, whatever the host is like at each of them and
  -- whenever sessions end, one at most starts a relay, claims a browser or launches one.
  pub count_served-once :
      (vs : List (Visit F K)) (s : AppState F K P) → IsSingle s.single_use → count_served h s vs ≤ 1
  unfolding count_served visit
  count_served-once [] s k = omega arith
  count_served-once (v ∷ vs) s k =
      elim (handler-IsSpent (found s v) v.query v.headers v.answers (found-IsSingle s v k)) [
        | inl same ↦ rw same.calls (
            count_served-once vs (visit h s v).state
              (subst IsSingle (sym same.single_use) (found-IsSingle s v k)))
        | inr spent ↦ ground (arith, spent_none vs (visit h s v).state spent)
      ]
