-- ===== src/Config/Validity.antt =====
-- What every configuration that `load` accepts satisfies.
use browserserve.Common.{
  ℕ, ◌<◌, ◌^◌, Bool, true, false, ◌&&◌, Option, none, some, is_empty, ◌≡◌, refl, subst, ◌⊎◌, inl,
  inr, arith, Bool-cases,
}
use browserserve.Common.Result.{ok, ok_injective, >>=-eq-ok, ok_or-eq-ok}
use browserserve.Common.Text.{Bytes, trim}
use browserserve.Common.Decimal.{parse_unsigned-lt}
use browserserve.Config.Settings.{RuntimeConfig, PoolConfig, Loaded}
use browserserve.Config.Loading.{
  Env, read_base, apply_values, apply_switches, port_or, read_port, read_token, validate, load,
  is_no_sessions, one_session, not_blank,
}

module _ {F : Type 0} (is_percent : F → Bool) where
  -- No ceiling of 0, percentages in their range, a grace period and a frame size, and no
  -- contradiction about the sandbox.
  pub record IsValid (c : RuntimeConfig F) : Type 0 where
    pub sessions : is_no_sessions c.pool.max_sessions ≡ false
    pub cpu : is_percent c.pressure.max_cpu_percent ≡ true
    pub memory : is_percent c.pressure.max_memory_percent ≡ true
    pub grace : 0 < c.session.kill_grace_ms
    pub frame : 0 < c.chrome.max_frame_bytes
    pub sandbox : (c.chrome.require_sandbox && c.chrome.no_sandbox) ≡ false

-- Single-use means one session and no calibration.
abbrev pub IsSingleSession : {F : Type 0} → RuntimeConfig F → Type 0
IsSingleSession c =
    (c.session.single_use ≡ false) ⊎ ((c.pool.max_sessions ≡ some 1) × (c.pool.calibrate ≡ false))

abbrev pub IsToken : Option Bytes → Type 0
IsToken none = Unit {0}
IsToken (some token) = is_empty (trim token) ≡ false

one_session-is_single :
    (p : PoolConfig) (b : Bool)
    → (b ≡ false)
      ⊎ (((one_session p b).max_sessions ≡ some 1) × ((one_session p b).calibrate ≡ false))
one_session-is_single p true = inr (refl, refl)
one_session-is_single p false = inl refl

apply_switches-IsSingleSession :
    {F : Type 0} (env : Env) (c : RuntimeConfig F) → IsSingleSession (apply_switches env c)
unfolding apply_switches
apply_switches-IsSingleSession env c = one_session-is_single _ _

port_or-lt : (v : Option Bytes) (p : ℕ) → port_or v ≡ ok p → p < 2 ^ 16
port_or-lt none p h = subst (λ q. q < 2 ^ 16) (ok_injective 9222 p h) (ground arith)
port_or-lt (some v) p h = parse_unsigned-lt (2 ^ 16) p v (omega arith) (ok_or-eq-ok _ _ p h)

read_port-lt : (env : Env) (p : ℕ) → read_port env ≡ ok p → p < 2 ^ 16
unfolding read_port
read_port-lt env p h = port_or-lt _ p h

not_blank-IsToken : (v t : Option Bytes) → not_blank v ≡ ok t → IsToken t
not_blank-IsToken none t h = subst IsToken (ok_injective none t h) tt
not_blank-IsToken (some v) t h = elim (Bool-cases (is_empty (trim v))) [
  | inl blank ↦ ground (arith, rw blank at h)
  | inr word ↦ subst IsToken (ok_injective (some v) t (rw word at h)) word
]

read_token-IsToken : (env : Env) (t : Option Bytes) → read_token env ≡ ok t → IsToken t
unfolding read_token
read_token-IsToken env t h = not_blank-IsToken _ t h

module _ {F : Type 0} (f95 : F) (is_percent : F → Bool)
    (from_yaml : Bytes → Option (RuntimeConfig F)) where
  validate-IsValid : (c : RuntimeConfig F) → validate is_percent c ≡ ok tt → IsValid is_percent c
  unfolding validate
  validate-IsValid c h = record {
    sessions = ground arith;
    cpu = ground arith;
    memory = ground arith;
    grace = ground arith;
    frame = ground arith;
    sandbox = ground arith;
  }

  -- Every configuration that `load` accepts is valid, single-use means one session and no
  -- calibration, the port is a 16-bit number, and a token is not blank.
  pub load-IsValid :
      (text : Option Bytes) (env : Env) (l : Loaded F)
      → load f95 is_percent from_yaml text env ≡ ok l
      → IsValid is_percent l.config
        × IsSingleSession l.config
        × (l.serve.port < 2 ^ 16)
        × IsToken l.serve.token
  unfolding load
  load-IsValid text env l h =
      let (base, _, h1) = >>=-eq-ok (read_base f95 from_yaml text) _ l h in
      let (values, _, h2) = >>=-eq-ok (apply_values env base) _ l h1 in
      let (port, is_port, h3) = >>=-eq-ok (read_port env) _ l h2 in
      let (token, is_token, h4) = >>=-eq-ok (read_token env) _ l h3 in
      let (tt, is_valid, h5) = >>=-eq-ok (validate is_percent (apply_switches env values)) _ l h4 in
      subst
        (λ k.
          IsValid is_percent k.config
          × IsSingleSession k.config
          × (k.serve.port < 2 ^ 16)
          × IsToken k.serve.token)
        (ok_injective _ l h5)
        (
          validate-IsValid _ is_valid,
          apply_switches-IsSingleSession env values,
          read_port-lt env port is_port,
          read_token-IsToken env token is_token,
        )
