-- ===== src/Proxy/Socks/Handshake.antt =====
-- What a SOCKS5 server reads in the client's bytes, and what the client sends without being asked.
use browserserve.Common.{
  ℕ, zero, suc, ◌+◌, ◌*◌, true, false, not, Option, none, some, [], ◌∷◌, ◌++◌, length, take, drop,
  ltb, ◌==◌, if◌then◌else◌, ◌≡◌, refl, ap, sym, ◌∙◌, arith, append_assoc, take-length_append,
  drop-length_append, length-append, subst, ◌≢◌,
}
use browserserve.Common.Result.{ok, err, and_then}
use browserserve.Common.Text.{Bytes, strip_prefix}
use browserserve.Proxy.Address.{IpAddr}
use browserserve.Proxy.Socks.{
  Stream, unreachable, not_socks5, Talk, ◌>>=◌, connect, write_all, read_exact, authenticate,
  log_in, request, read_reply, read_bound, fits_u8, login_message, connect_message, greeting,
  target_bytes,
}

==_no : (m : ℕ) → m ≢ 2 → (m == 2) ≡ false
==_no m h = ground arith

-- A field of RFC 1928 and 1929: its length in one byte, then its bytes.
abbrev pub field : Bytes → Option (Bytes × Bytes)
field [] = none
field (n ∷ rest) = some (take n rest, drop n rest)

-- What a server that asks for a login is told.
pub record Told : Type 0 where
  pub user : Bytes
  pub pass : Bytes
  pub host : Bytes
  pub port : ℕ

abbrev port_of : Bytes → Option ℕ
port_of (h ∷ l ∷ []) = some (h * 256 + l)
port_of _ = none

-- The greeting with the methods 0 and 2, the login, then the request by host name.
unfoldable pub server_reads : Bytes → Option Told
server_reads s = and_then (strip_prefix (5 ∷ 2 ∷ 0 ∷ 2 ∷ 1 ∷ []) s) (λ a.
    and_then (field a) (λ user. and_then (field user.1) (λ pass.
      and_then (strip_prefix (5 ∷ 1 ∷ 0 ∷ 3 ∷ []) pass.1) (λ b. and_then (field b) (λ host.
        and_then (port_of host.1)
          (λ port. some (record { user = user.0; pass = pass.0; host = host.0; port = port })))))))

field-append : (a b : Bytes) → field (length a ∷ (a ++ b)) ≡ some (a, b)
field-append a b = rw (take-length_append a b, drop-length_append a b) refl

server_reads-messages :
    (user pass host : Bytes) (port : ℕ)
    → server_reads (
        (greeting (some (user, pass)) ++ login_message user pass)
        ++ connect_message (3 ∷ length host ∷ host) port)
      ≡ some (record { user = user; pass = pass; host = host; port = port })
unfolding server_reads strip_prefix
server_reads-messages user pass host port =
    rw
      (
        append_assoc user (length pass ∷ pass) (connect_message (3 ∷ length host ∷ host) port),
        take-length_append user,
        drop-length_append user,
        take-length_append pass,
        drop-length_append pass,
        take-length_append host,
        drop-length_append host,
      )
      (ap (λ n. some (record { user = user; pass = pass; host = host; port = n })) (omega arith))

bind-ok :
    {A B : Type 0} (m : Talk A) (f : A → Talk B) (a : A) (s t : Stream)
    → m s ≡ (ok a, t)
    → (m >>= f) s ≡ f a t
bind-ok m f a s t e = rw e refl

abbrev stream : Bytes → Bytes → ℕ → Stream
stream incoming sent writes = record { incoming = incoming; sent = sent; writes = writes }

read_exact-append :
    (n : ℕ) (bytes rest sent : Bytes) (w : ℕ)
    → length bytes ≡ n
    → read_exact n (stream (bytes ++ rest) sent w) ≡ (ok bytes, stream rest sent w)
unfolding read_exact
read_exact-append n bytes rest sent w h =
    subst (λ k. read_exact k (stream (bytes ++ rest) sent w) ≡ (ok bytes, stream rest sent w)) h
      (rw (enough, take-length_append bytes rest, drop-length_append bytes rest) refl)
  where
    enough : ltb (length (bytes ++ rest)) (length bytes) ≡ false
    enough = ground (arith, length-append bytes rest)

write_all-ok :
    (b incoming sent : Bytes) (w : ℕ)
    → write_all b (stream incoming sent (suc w)) ≡ (ok tt, stream incoming (sent ++ b) w)
unfolding write_all
write_all-ok b incoming sent w = refl

log_in-ok :
    (user pass rest sent : Bytes) (v w : ℕ)
    → fits_u8 user ≡ true
    → fits_u8 pass ≡ true
    → log_in user pass (stream (v ∷ 0 ∷ rest) sent (suc w))
      ≡ (ok tt, stream rest (sent ++ login_message user pass) w)
unfolding log_in
log_in-ok user pass rest sent v w hu hp =
    rw (hu, hp)
      (bind-ok (write_all (login_message user pass)) _ tt _ _ (write_all-ok _ _ sent w)
        ∙ bind-ok (read_exact 2) _ (v ∷ 0 ∷ []) _ _
            (read_exact-append 2 (v ∷ 0 ∷ []) rest _ w refl))

-- The bound address of a reply with its port, by the kind of the address (RFC 1928, section 6): IPv4,
-- IPv6, or a name behind its length.
pub data IsBound : ℕ → Bytes → Type 0 where
  ipv4 : (bound : Bytes) → length bound ≡ 6 → IsBound 1 bound
  ipv6 : (bound : Bytes) → length bound ≡ 18 → IsBound 4 bound
  domain : (n : ℕ) (bound : Bytes) → length bound ≡ n + 2 → IsBound 3 (n ∷ bound)

read_bound-ok :
    {kind : ℕ} {bound : Bytes} (rest sent : Bytes) (w : ℕ)
    → IsBound kind bound
    → read_bound kind (stream (bound ++ rest) sent w) ≡ (ok tt, stream rest sent w)
unfolding read_bound
read_bound-ok rest sent w (ipv4 bound h) =
    bind-ok (read_exact 6) _ bound _ _ (read_exact-append 6 bound rest sent w h)
read_bound-ok rest sent w (ipv6 bound h) =
    bind-ok (read_exact 18) _ bound _ _ (read_exact-append 18 bound rest sent w h)
read_bound-ok rest sent w (domain n bound h) =
    bind-ok (read_exact 1) _ (n ∷ []) _ _ (read_exact-append 1 (n ∷ []) (bound ++ rest) sent w refl)
    ∙ bind-ok (read_exact (n + 2)) _ bound _ _ (read_exact-append (n + 2) bound rest sent w h)

read_reply-ok :
    {kind : ℕ} {bound : Bytes} (rest sent : Bytes) (r w : ℕ)
    → IsBound kind bound
    → read_reply (stream (5 ∷ 0 ∷ r ∷ kind ∷ (bound ++ rest)) sent w) ≡ (ok tt, stream rest sent w)
unfolding read_reply
read_reply-ok {kind = kind} {bound = bound} rest sent r w h =
    bind-ok (read_exact 4) _ (5 ∷ 0 ∷ r ∷ kind ∷ []) _ _
      (read_exact-append 4 (5 ∷ 0 ∷ r ∷ kind ∷ []) (bound ++ rest) sent w refl)
    ∙ read_bound-ok rest sent w h

-- A proxy that asks for the login, accepts it and opens the connection.
abbrev pub accepting : ℕ → ℕ → ℕ → Bytes → Bytes
accepting v r kind bound = 5 ∷ 2 ∷ v ∷ 0 ∷ 5 ∷ 0 ∷ r ∷ kind ∷ bound

connect-sent :
    (parse_ip : Bytes → Option IpAddr) (user pass host bound rest : Bytes) (port v r kind w : ℕ)
    → fits_u8 user ≡ true
    → fits_u8 pass ≡ true
    → fits_u8 host ≡ true
    → parse_ip host ≡ none
    → IsBound kind bound
    → connect parse_ip host port
        (some (user, pass))
        (stream (accepting v r kind (bound ++ rest)) [] (suc (suc (suc w))))
      ≡ (
        ok tt,
        stream rest
            ((greeting (some (user, pass)) ++ login_message user pass)
              ++ connect_message (3 ∷ length host ∷ host) port)
            w,
      )
unfolding connect authenticate request
connect-sent parse_ip user pass host bound rest port v r kind w hu hp hh name hb =
    bind-ok (write_all (greeting (some (user, pass)))) _ tt _ _ (write_all-ok _ _ [] _)
    ∙ bind-ok (read_exact 2) _ (5 ∷ 2 ∷ []) _ _ (read_exact-append 2 (5 ∷ 2 ∷ []) _ _ _ refl)
    ∙ bind-ok (log_in user pass) _ tt _ _ (log_in-ok user pass _ _ v _ hu hp)
    ∙ ap
        (λ t. request t port (
          stream (5 ∷ 0 ∷ r ∷ kind ∷ (bound ++ rest))
            (greeting (some (user, pass)) ++ login_message user pass) (suc w)))
        target
    ∙ bind-ok (write_all (connect_message (3 ∷ length host ∷ host) port)) _ tt _ _
        (write_all-ok _ _ _ w)
    ∙ read_reply-ok rest _ r w hb
  where
    target : target_bytes host (parse_ip host) ≡ some (3 ∷ length host ∷ host)
    target = rw (name, hh) refl

-- When the proxy asks for the login, accepts it and opens the connection, the handshake succeeds:
-- a server that reads what was sent gets the user, the password, the host name and the port, and
-- the bytes behind the reply, whatever kind of address it has, are left in the stream for the
-- tunnel. The host is a name. The user, the password and the
-- name are shorter than 256 bytes, and the stream takes three writes.
pub connect-accepting :
    (parse_ip : Bytes → Option IpAddr) (user pass host bound rest : Bytes)
    (port v r kind writes : ℕ)
    → fits_u8 user ≡ true
    → fits_u8 pass ≡ true
    → fits_u8 host ≡ true
    → parse_ip host ≡ none
    → IsBound kind bound
    → let out = connect parse_ip host port (some (user, pass)) (record {
      incoming = accepting v r kind (bound ++ rest);
      sent = [];
      writes = suc (suc (suc writes));
    }) in
      (out.0 ≡ ok tt)
      × (server_reads out.1.sent
          ≡ some (record { user = user; pass = pass; host = host; port = port }))
      × (out.1.incoming ≡ rest)
connect-accepting parse_ip user pass host bound rest port v r kind writes hu hp hh name hb =
    rw (connect-sent parse_ip user pass host bound rest port v r kind writes hu hp hh name hb)
      (refl, server_reads-messages user pass host port, refl)

authenticate-silent :
    (m : ℕ) (login other : Bytes × Bytes)
    → m ≢ 2
    → authenticate m (some login) ≡ authenticate m (some other)
unfolding authenticate
authenticate-silent m (user, pass) (user', pass') h = rw (==_no m h) refl

-- Unless the proxy asks for the login, the handshake ends with the same result and the same bytes
-- read and sent for any two logins.
connect-silent :
    (parse_ip : Bytes → Option IpAddr) (host : Bytes) (port v m w : ℕ) (login other : Bytes × Bytes)
    (rest : Bytes)
    → m ≢ 2
    → connect parse_ip host port
        (some login)
        (record { incoming = v ∷ m ∷ rest; sent = []; writes = w })
      ≡ connect parse_ip host port
          (some other)
          (record { incoming = v ∷ m ∷ rest; sent = []; writes = w })
unfolding connect write_all
connect-silent parse_ip host port v m zero login other rest h = refl
connect-silent parse_ip host port v m (suc w) login other rest h =
    read login ∙ rw (authenticate-silent m login other h) refl ∙ sym (read other)
  where
    chosen : Bytes × Bytes → Talk (Unit {0})
    chosen l =
        if not (v == 5)
        then (λ s. (err (unreachable not_socks5), s))
        else (authenticate m (some l) >>= λ x. request (target_bytes host (parse_ip host)) port)

    read :
        (l : Bytes × Bytes)
        → connect parse_ip host port (some l) (stream (v ∷ m ∷ rest) [] (suc w))
          ≡ chosen l (stream rest (greeting (some l)) w)
    read l =
        bind-ok (read_exact 2) _ (v ∷ m ∷ []) _ _ (read_exact-append 2 (v ∷ m ∷ []) rest _ w refl)
