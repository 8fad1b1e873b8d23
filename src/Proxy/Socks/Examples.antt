-- ===== src/Proxy/Socks/Examples.antt =====
-- A handshake with a login, and one without.
use browserserve.Common.{◌∷◌, [], ◌++◌, none, some, ◌≡◌, refl}
use browserserve.Common.Result.{ok}
use browserserve.Common.Text.{Bytes, codes}
use browserserve.Proxy.Socks.{Stream, connect}
use browserserve.Proxy.Socks.Handshake.{accepting, domain, server_reads, connect-accepting}

abbrev bound : Bytes
bound = 3 ∷ 97 ∷ 46 ∷ 98 ∷ 0 ∷ 80 ∷ []

abbrev opened : Stream
opened = record { incoming = accepting 1 0 3 (bound ++ codes "hi"); sent = []; writes = 3 }

connect-accepting_example :
    let out = connect (λ host. none) (codes "a.com") 443 (some (codes "me", codes "pw")) opened in
    (out.0 ≡ ok tt)
    × (server_reads out.1.sent
        ≡ some (record { user = codes "me"; pass = codes "pw"; host = codes "a.com"; port = 443 }))
    × (out.1.incoming ≡ codes "hi")
connect-accepting_example =
    connect-accepting (λ host. none) (codes "me") (codes "pw") (codes "a.com") bound (codes "hi")
      443 1 0 3 0 refl refl refl refl (domain 3 (97 ∷ 46 ∷ 98 ∷ 0 ∷ 80 ∷ []) refl)

abbrev asks_nothing : Stream
asks_nothing = record { incoming = 5 ∷ 0 ∷ 5 ∷ 0 ∷ 0 ∷ 1 ∷ bound; sent = []; writes = 9 }
