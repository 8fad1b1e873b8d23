-- ===== src/Config/Chosen.antt =====
-- config.rs: the number that a variable, the file or the default gives.
use browserserve.Common.{
  ℕ, ◌^◌, ◌==◌, Bool-cases, Option, none, some, ◌≡◌, refl, sym, Bool, ◌⊎◌, inl, inr, true, false,
}
use browserserve.Common.Result.{Result, ok, err, ok_or, >>=-eq-ok, ok_or-eq-ok, ok_injective}
use browserserve.Common.Text.{Bytes, codes, trim}
use browserserve.Common.Decimal.{parse_unsigned}
use browserserve.Config.Settings.{ConfigError}
use browserserve.Config.Loading.{
  Env, parse_or, not_zero, parse_sessions, read_number, read_sessions,
}

-- The variable is not set and nothing changes, or it is set to this number.
abbrev pub Chosen : Env → Bytes → ℕ → ℕ → ℕ → Type 0
Chosen env key bound old new =
    ((env key ≡ none) × (new ≡ old))
    ⊎ (value : Bytes) × (env key ≡ some value) × (parse_unsigned bound (trim value) ≡ some new)

parse_or-eq-ok :
    (key : Bytes) (bound old new : ℕ) (o : Option Bytes)
    → parse_or key bound old o ≡ ok new
    → ((o ≡ none) × (new ≡ old))
      ⊎ (value : Bytes) × (o ≡ some value) × (parse_unsigned bound (trim value) ≡ some new)
parse_or-eq-ok key bound old new none h = inl (refl, ok_injective new old (sym h))
parse_or-eq-ok key bound old new (some v) h = inr (v, refl, ok_or-eq-ok _ _ new h)

pub read_number-Chosen :
    (env : Env) (key : Bytes) (bound old new : ℕ)
    → read_number env key bound old ≡ ok new
    → Chosen env key bound old new
unfolding read_number
read_number-Chosen env key bound old new h = parse_or-eq-ok key bound old new (env key) h

-- The same for the ceiling, which may be left open.
abbrev pub ChosenSessions : Env → Option ℕ → Option ℕ → Type 0
ChosenSessions env old new =
    ((env (codes "BROWSERSERVE_MAX_SESSIONS") ≡ none) × (new ≡ old))
    ⊎ (value : Bytes) × (n : ℕ) × (env (codes "BROWSERSERVE_MAX_SESSIONS") ≡ some value)
      × (parse_unsigned (2 ^ 32) (trim value) ≡ some n)
      × (new ≡ some n)

-- Single use leaves one session, whatever was chosen.
abbrev pub IsCeiling : Env → Bool → Option ℕ → Option ℕ → Type 0
IsCeiling env true old new = new ≡ some 1
IsCeiling env false old new = ChosenSessions env old new

not_ok :
    {A : Type 0} (new : Option ℕ) (e : ConfigError)
    → ◌≡◌ {A = Result ConfigError (Option ℕ)} (err e) (ok new)
    → A
not_ok new e h = cc

not_zero-eq-ok : (n : ℕ) (new : Option ℕ) → not_zero n ≡ ok new → new ≡ some n
not_zero-eq-ok n new h = elim (Bool-cases (n == 0)) [
  | inl zero_sessions ↦ not_ok _ _ (rw zero_sessions at h)
  | inr some_sessions ↦ sym (ok_injective _ new (rw some_sessions at h))
]

parse_sessions-eq-ok :
    (old new : Option ℕ) (o : Option Bytes)
    → parse_sessions old o ≡ ok new
    → ((o ≡ none) × (new ≡ old))
      ⊎ (value : Bytes) × (n : ℕ) × (o ≡ some value)
        × (parse_unsigned (2 ^ 32) (trim value) ≡ some n)
        × (new ≡ some n)
parse_sessions-eq-ok old new none h = inl (refl, ok_injective new old (sym h))
parse_sessions-eq-ok old new (some v) h =
    let (n, is_n, h1) = >>=-eq-ok (ok_or (parse_unsigned (2 ^ 32) (trim v)) _) _ new h in
    inr (v, n, refl, ok_or-eq-ok _ _ n is_n, not_zero-eq-ok n new h1)

pub read_sessions-ChosenSessions :
    (env : Env) (old new : Option ℕ) → read_sessions env old ≡ ok new → ChosenSessions env old new
unfolding read_sessions
read_sessions-ChosenSessions env old new h = parse_sessions-eq-ok old new _ h
