-- ===== src/Proxy/Head.antt =====
-- proxy/head.rs: reading, parsing and rewriting a message head. `memmem::find`, the parser of
-- httparse and `String::from_utf8_lossy` are parameters.
pub mod Reading
pub mod Requests
pub mod OneHop
pub mod Rewriting
mod Examples
use browserserve.Common.{
  ℕ, zero, suc, ◌+◌, ◌*◌, ◌^◌, Bool, true, false, not, ◌&&◌, ◌||◌, Option, none, some, List, [],
  ◌∷◌, ◌++◌, length, take, drop, is_empty, any, ltb, leb, ◌==◌, if◌then◌else◌, map,
}
use browserserve.Common.Result.{Result, ok, err, ok_or, ◌>>=◌, and_then}
use browserserve.Common.Text.{
  Bytes, codes, contains, eq_ignore_case, lowercase, rsplit_once, split_once, strip_prefix, trim,
}
use browserserve.Common.Decimal.{parse_unsigned}

abbrev pub max_head_bytes : ℕ
max_head_bytes = 32 * 1024

pub record Head : Type 0 where
  pub head : Bytes
  pub rest : Bytes

-- What one read of the stream gives: no bytes at its end.
pub data Read : Type 0 where
  bytes : Bytes → Read
  broken : Read

-- `waiting`: no more has been read yet.
pub data HeadOutcome : Type 0 where
  got : Head → HeadOutcome
  closed too_large ended_early read_failed waiting : HeadOutcome

abbrev pub blank_line : Bytes
blank_line = 13 ∷ 10 ∷ 13 ∷ 10 ∷ []

module _ (find : Bytes → Bytes → Option ℕ) where
  unfoldable pub find_head_end : Bytes → Option ℕ
  find_head_end buf = and_then (find buf blank_line) (λ i. some (i + 4))

  -- The head at the start of the buffer, or a refusal, or what comes of the next read.
  abbrev pub look : Bytes → HeadOutcome → HeadOutcome
  look buf next = elim (find_head_end buf) [
    | some end ↦ got (record { head = take end buf; rest = drop end buf })
    | none ↦ if leb max_head_bytes (length buf) then too_large else next
  ]

  unfoldable pub read_head : Bytes → List Read → HeadOutcome
  read_head buf [] = look buf waiting
  read_head buf (broken ∷ reads) = look buf read_failed
  read_head buf (bytes chunk ∷ reads) =
      let more = read_head (buf ++ chunk) reads in
      look buf (if is_empty chunk then if is_empty buf then closed else ended_early else more)

abbrev pub Headers : Type 0
Headers = List (Bytes × Bytes)

pub record Forward : Type 0 where
  pub host : Bytes
  pub port : ℕ
  pub method : Bytes
  pub absolute : Bytes
  pub origin_form : Bytes
  pub headers : Headers

pub data Request : Type 0 where
  connect : Bytes → ℕ → Request
  forward : Forward → Request

-- `slice_panic`: byte 7 of the target is inside a character.
pub data RequestError : Type 0 where
  malformed bad_connect_target not_a_proxy_request bad_target slice_panic : RequestError

-- A complete head as httparse gives it.
pub record Parsed : Type 0 where
  pub method : Option Bytes
  pub path : Option Bytes
  pub headers : Headers

abbrev not_zero : Option ℕ → Option ℕ
not_zero none = none
not_zero (some n) = if n == 0 then none else some n

abbrev bracketed : Option (Bytes × Bytes) → Option (Bytes × Option Bytes)
bracketed none = none
bracketed (some (host, after)) = some (host, strip_prefix (codes ":") after)

abbrev plain : Bytes → Option (Bytes × Bytes) → Bytes × Option Bytes
plain s none = (s, none)
plain s (some (host, port)) = (host, some port)

-- The host and the text of the port.
unfoldable pub cut_authority : Bytes → Option (Bytes × Option Bytes)
cut_authority s = elim (strip_prefix (codes "[") s) [
  | some inner ↦ bracketed (split_once b']' inner)
  | none ↦ some (plain s (rsplit_once b':' s))
]

unfoldable pub authority_port : Option Bytes → Option ℕ → Option ℕ
authority_port (some p) default = not_zero (parse_unsigned (2 ^ 16) p)
authority_port none default = default

unfoldable pub split_authority : Bytes → Option ℕ → Option (Bytes × ℕ)
split_authority s default =
    if contains b'@' s || is_empty s
    then none
    else and_then (cut_authority s) (λ parts.
      and_then (authority_port parts.1 default)
        (λ port. if is_empty parts.0 then none else some (parts.0, port)))

abbrev pub is_path_start : ℕ → Bool
is_path_start c = c == b'/' || c == b'?'

-- `rest.find(['/', '?'])`: what is in front of it, and the rest from it on.
unfoldable pub cut_path : Bytes → Bytes × Bytes
cut_path [] = ([], [])
cut_path (c ∷ cs) =
    let parts = cut_path cs in if is_path_start c then ([], c ∷ cs) else (c ∷ parts.0, parts.1)

-- A target without a path has the path `/`; a query alone gets one in front.
abbrev pub origin : Bytes → Bytes
origin [] = codes "/"
origin (c ∷ cs) = if c == b'?' then b'/' ∷ c ∷ cs else c ∷ cs

-- Whether the text may be cut in front of what follows.
abbrev pub is_boundary : Bytes → Bool
is_boundary [] = true
is_boundary (c ∷ cs) = not (leb 128 c && ltb c 192)

unfoldable pub forward_target : Bytes → Bytes → Headers → Result RequestError Request
forward_target method target headers = do
  authority ← ok_or (split_authority (cut_path (drop 7 target)).0 (some 80)) bad_target
  ok (
      forward (record {
        host = authority.0;
        port = authority.1;
        method = method;
        absolute = target;
        origin_form = origin (cut_path (drop 7 target)).1;
        headers = headers;
      }))

unfoldable pub route : Bytes → Bytes → Headers → Result RequestError Request
route method target headers =
    if eq_ignore_case method (codes "CONNECT")
    then (do
      authority ← ok_or (split_authority target none) bad_connect_target
      ok (connect authority.0 authority.1))
    else if not (ltb 7 (length target))
    then err not_a_proxy_request
    else if not (is_boundary (drop 7 target))
    then err slice_panic
    else if eq_ignore_case (take 7 target) (codes "http://")
    then forward_target method target headers
    else err not_a_proxy_request

unfoldable pub parse_request : (Bytes → Option Parsed) → Bytes → Result RequestError Request
parse_request parse head = do
  parsed ← ok_or (parse head) malformed
  method ← ok_or parsed.method malformed
  target ← ok_or parsed.path malformed
  route method target parsed.headers

-- `split(',')`
abbrev onto_first : ℕ → List Bytes → List Bytes
onto_first c [] = (c ∷ []) ∷ []
onto_first c (t ∷ ts) = (c ∷ t) ∷ ts

unfoldable pub split_commas : Bytes → List Bytes
split_commas [] = [] ∷ []
split_commas (c ∷ cs) = if c == b',' then [] ∷ split_commas cs else onto_first c (split_commas cs)

abbrev pub one_hop : List Bytes
one_hop =
    codes "connection"
    ∷ codes "keep-alive"
    ∷ codes "proxy-authorization"
    ∷ codes "proxy-authenticate"
    ∷ codes "proxy-connection"
    ∷ codes "te"
    ∷ codes "trailer"
    ∷ codes "upgrade"
    ∷ []

-- The tokens that are not empty, trimmed and in lower case.
unfoldable pub tokens : List Bytes → List Bytes
tokens [] = []
tokens (t ∷ ts) =
    let token = lowercase (trim t) in if is_empty token then tokens ts else token ∷ tokens ts

unfoldable pub named_by_connection : (Bytes → Bytes) → Headers → List Bytes
named_by_connection lossy [] = []
named_by_connection lossy ((name, value) ∷ headers) =
    let rest = named_by_connection lossy headers in
    if eq_ignore_case name (codes "connection")
    then tokens (split_commas (lossy value)) ++ rest
    else rest

unfoldable pub hop_by_hop : (Bytes → Bytes) → Headers → List Bytes
hop_by_hop lossy headers = one_hop ++ named_by_connection lossy headers

abbrev pub crlf : Bytes
crlf = 13 ∷ 10 ∷ []

abbrev pub is_dropped : List Bytes → Bytes → Bool
is_dropped names name = any (eq_ignore_case name) names

unfoldable pub header_lines : List Bytes → Headers → Bytes
header_lines names [] = []
header_lines names ((name, value) ∷ headers) =
    let rest = header_lines names headers in
    if is_dropped names name then rest else name ++ (codes ": " ++ (value ++ (crlf ++ rest)))

abbrev pub auth_line : Option Bytes → Bytes
auth_line none = []
auth_line (some auth) = codes "Proxy-Authorization: " ++ (auth ++ crlf)

unfoldable pub rewrite_request : (Bytes → Bytes) → Bytes → Bytes → Headers → Option Bytes → Bytes
rewrite_request lossy method target headers proxy_auth =
    (method ++ (codes " " ++ (target ++ (codes " HTTP/1.1" ++ crlf))))
    ++ (header_lines (hop_by_hop lossy headers) headers
        ++ (auth_line proxy_auth ++ (codes "Connection: close" ++ blank_line)))
