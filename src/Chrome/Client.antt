-- ===== src/Chrome/Client.antt =====
-- chrome/client.rs: commands to the browser, and the replies that belong to them. A message is what
-- the code reads of its JSON; the pipe answers each send and gives each receive.
pub mod Replies
mod Examples
use browserserve.Common.{
  ℕ, ◌+◌, ◌%◌, ◌^◌, Bool, true, false, Option, none, some, List, [], ◌∷◌, ◌++◌, drop, ◌==◌,
  if◌then◌else◌,
}
use browserserve.Common.Result.{Result, ok, err}
use browserserve.Common.Text.{Bytes, codes}
use browserserve.Chrome.Pipe.{PipeError}

-- `Z` is i64 and `V` the JSON values.
pub data CdpError (Z : Type 0) : Type 0 where
  pipe_error : PipeError → CdpError Z
  protocol : Bytes → Z → Bytes → CdpError Z

-- The members of `error`, where they are of their types.
pub record ErrorReply (Z : Type 0) : Type 0 where
  pub code : Option Z
  pub message : Option Bytes

-- The members of a message that `call_on` reads; `id` is there when it is a u64.
pub record CdpMessage (Z V : Type 0) : Type 0 where
  pub id : Option ℕ
  pub error : Option (ErrorReply Z)
  pub result : Option V

-- `method`, `params` and `session_id` of a call.
pub record Command (V : Type 0) : Type 0 where
  pub method : Bytes
  pub params : V
  pub session_id : Option Bytes

pub record Envelope (V : Type 0) : Type 0 where
  pub id : ℕ
  pub command : Command V

-- The client, with its pipe: what was sent, what the next sends fail with (no entry for success),
-- and what the next receives give.
pub record CdpClient (Z V : Type 0) : Type 0 where
  pub next_id : ℕ
  pub sent : List (Envelope V)
  pub send_faults : List (Option PipeError)
  pub incoming : List (Result PipeError (CdpMessage Z V))

-- A call that has returned, or one that waits for a message.
pub data Called (Z V : Type 0) : Type 0 where
  returned : Result (CdpError Z) V → Called Z V
  pending : Called Z V

abbrev pub send_fault : List (Option PipeError) → Option PipeError
send_fault [] = none
send_fault (f ∷ fs) = f

-- `msg.get("id").and_then(Value::as_u64) == Some(id)`
abbrev pub is_reply : Option ℕ → ℕ → Bool
is_reply none id = false
is_reply (some other) id = other == id

abbrev pub or_default : {A : Type 0} → A → Option A → A
or_default a none = a
or_default a (some b) = b

module _ {Z V : Type 0} where
  unfoldable pub with_first_id :
      ℕ → List (Option PipeError) → List (Result PipeError (CdpMessage Z V)) → CdpClient Z V
  with_first_id first_id send_faults incoming = record {
    next_id = first_id;
    sent = [];
    send_faults = send_faults;
    incoming = incoming;
  }

  -- After `pipe.send` of the envelope.
  abbrev pub on_sent : ℕ → Option PipeError → CdpClient Z V → Result PipeError ℕ × CdpClient Z V
  on_sent id none client = (ok id, client)
  on_sent id (some e) client = (err e, client)

  -- A command that fails is in `sent` too: its number is used.
  unfoldable pub send_command : Command V → CdpClient Z V → Result PipeError ℕ × CdpClient Z V
  send_command c client = on_sent client.next_id (send_fault client.send_faults) (record client {
    next_id = (client.next_id + 1) % 2 ^ 64;
    sent = client.sent ++ (record { id = client.next_id; command = c } ∷ []);
    send_faults = drop 1 client.send_faults;
  })

module _ {Z V : Type 0} where
  -- A call that waits holds up those behind it.
  abbrev pub behind : Called Z V → List (Called Z V) → List (Called Z V)
  behind pending later = pending ∷ []
  behind (returned r) later = returned r ∷ later

module _ {Z V : Type 0} (zero_code : Z) (null : V) where
  -- What the reply to a command makes of its call.
  abbrev pub reply_outcome : Bytes → Option (ErrorReply Z) → Option V → Result (CdpError Z) V
  reply_outcome method (some e) result =
      err (protocol method (or_default zero_code e.code) (or_default (codes "unknown") e.message))
  reply_outcome method none result = ok (or_default null result)

  -- The loop of `call_on`, with the messages it leaves.
  unfoldable pub await_reply :
      ℕ
      → Bytes
      → List (Result PipeError (CdpMessage Z V))
      → Called Z V × List (Result PipeError (CdpMessage Z V))
  await_reply id method [] = (pending, [])
  await_reply id method (err e ∷ rest) = (returned (err (pipe_error e)), rest)
  await_reply id method (ok m ∷ rest) =
      let later = await_reply id method rest in
      if is_reply m.id id then (returned (reply_outcome method m.error m.result), rest) else later

  abbrev pub on_numbered : Bytes → Result PipeError ℕ × CdpClient Z V → Called Z V × CdpClient Z V
  on_numbered method (err e, client) = (returned (err (pipe_error e)), client)
  on_numbered method (ok id, client) =
      let answer = await_reply id method client.incoming in
      (answer.0, record client { incoming = answer.1 })

  unfoldable pub call_on : Command V → CdpClient Z V → Called Z V × CdpClient Z V
  call_on c client = on_numbered c.method (send_command c client)

  -- One call after another.
  unfoldable pub call_all : List (Command V) → CdpClient Z V → List (Called Z V)
  call_all [] client = []
  call_all (c ∷ cs) client =
      let (called, next) = call_on c client in behind called (call_all cs next)
