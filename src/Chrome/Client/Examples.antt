-- ===== src/Chrome/Client/Examples.antt =====
-- Tests of the client's calls, and inputs at which its properties apply.
use browserserve.Common.{ℕ, none, some, List, [], ◌∷◌, map, ◌≡◌, refl, arith}
use browserserve.Common.Result.{Result, ok, err}
use browserserve.Common.Text.{codes}
use browserserve.Chrome.Pipe.{PipeError, closed}
use browserserve.Chrome.Client.{
  CdpMessage, Command, returned, pipe_error, protocol, with_first_id, send_command, await_reply,
  call_on, call_all,
}
use browserserve.Chrome.Client.Replies.{Exchange, answer, drop_late, call_all-late}

abbrev get_cookies : Command ℕ
get_cookies = record { method = codes "Storage.getCookies"; params = 0; session_id = none }

abbrev event : CdpMessage ℕ ℕ
event = record { id = none; error = none; result = none }

abbrev reply : ℕ → ℕ → CdpMessage ℕ ℕ
reply id value = record { id = some id; error = none; result = some value }

-- Replies to another client's commands 1 and 2 come in late.
abbrev incoming : List (Result PipeError (CdpMessage ℕ ℕ))
incoming = ok (reply 1 5) ∷ ok event ∷ ok (reply 100 7) ∷ ok (reply 2 6) ∷ err closed ∷ []

late_replies :
    call_all 0 0 (get_cookies ∷ get_cookies ∷ []) (with_first_id 100 [] incoming)
    ≡ returned (ok 7) ∷ returned (err (pipe_error closed)) ∷ []
unfolding with_first_id send_command await_reply call_on call_all
late_replies = refl

-- A client that numbers from 1 takes the late reply.
wrong_reply : call_all 0 0 (get_cookies ∷ []) (with_first_id 1 [] incoming) ≡ returned (ok 5) ∷ []
unfolding with_first_id send_command await_reply call_on call_all
wrong_reply = refl

abbrev exchanges : List (Exchange ℕ ℕ)
exchanges =
    record { command = get_cookies; before = event ∷ reply 9 9 ∷ []; error = none; result = some 7 }
    ∷ record {
      command = get_cookies;
      before = reply 1 7 ∷ [];
      error = some (record { code = some 32000; message = none });
      result = none;
    }
    ∷ []

two_answers :
    map (answer 0 0) exchanges
    ≡ returned (ok 7)
      ∷ returned (err (protocol (codes "Storage.getCookies") 32000 (codes "unknown")))
      ∷ []
two_answers = refl

call_all-late_example :
    call_all 0 0 (get_cookies ∷ get_cookies ∷ []) (with_first_id 100 [] (drop_late 100 incoming))
    ≡ call_all 0 0 (get_cookies ∷ get_cookies ∷ []) (with_first_id 100 [] incoming)
call_all-late_example =
    call_all-late 0 0 100 (get_cookies ∷ get_cookies ∷ []) [] incoming (omega arith)
