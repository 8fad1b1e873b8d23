-- ===== src/Server/Proxied.antt =====
-- server/ws.rs: the proxy of a session.
use browserserve.Common.{Bool, true, false, Option, none, some, List, [], ◌∷◌, ◌++◌, ◌≡◌, ◌⊎◌}
use browserserve.Common.Result.{Result, ok}
use browserserve.Common.Text.{Bytes}
use browserserve.Proxy.Upstream.{ProxyUpstream}
use browserserve.Proxy.Parse.{parse}
use browserserve.Server.App.{RelayOptions, HeaderValue, visible}
use browserserve.Server.SingleUse.{SingleUse}
use browserserve.Server.Sessions.{Call, starts_relay, creates_seeded, RequestedProxy, claim_call}

-- The calls that handed a browser out: one claim or one launch, with this proxy.
abbrev pub Handed : {P : Type 0} → Option ProxyUpstream → List (Call P) → List (Call P) → Type 0
Handed {P} relay before calls =
    (calls ≡ before ++ (claim_call relay ∷ []))
    ⊎ (payload : P) × (calls ≡ before ++ (creates_seeded payload relay ∷ []))

-- What an upgraded response without and with a proxy header goes with, on a server with this policy.
abbrev pub IsRouted :
    {P : Type 0} → Result Bytes RelayOptions → Option HeaderValue → Bool → List (Call P) → Type 0
IsRouted policy none proxied calls = (proxied ≡ false) × Handed none [] calls
IsRouted policy (some value) proxied calls =
    (raw : Bytes) × (u : ProxyUpstream) × (options : RelayOptions) × (value ≡ visible raw)
    × (parse raw ≡ ok u)
    × (policy ≡ ok options)
    × (proxied ≡ true)
    × Handed (some u) (starts_relay u options ∷ []) calls

-- What the header's value was read as.
abbrev Asked : Result Bytes RelayOptions → Option HeaderValue → Option RequestedProxy → Type 0
Asked policy none o = o ≡ none
Asked policy (some value) none = ⊥
Asked policy (some value) (some (u, options)) =
    (raw : Bytes) × (value ≡ visible raw) × (parse raw ≡ ok u) × (policy ≡ ok options)
