-- ===== src/Chrome/Client/Replies.antt =====
-- chrome/client.rs: replies, late replies and events among what the pipe carries.
use browserserve.Common.{
  ℕ, ◌+◌, ◌%◌, ◌^◌, ◌≤◌, ◌<◌, Bool, true, false, not, Option, none, some, List, [], ◌∷◌, ◌++◌, map,
  length, retain, ltb, ◌≡◌, refl, ap, ◌∙◌, arith, Bool-cases, inl, inr,
}
use browserserve.Common.Result.{Result, ok, err}
use browserserve.Common.Text.{Bytes, codes}
use browserserve.Chrome.Pipe.{PipeError}
use browserserve.Chrome.Client.{
  CdpError, protocol, CdpMessage, ErrorReply, Command, CdpClient, Called, returned, is_reply,
  with_first_id, send_fault, on_sent, send_command, await_reply, on_numbered, call_on, behind,
  call_all,
}

module _ {Z V : Type 0} where
  -- A reply to a command with a number before the first of this client's.
  abbrev pub is_late : ℕ → Result PipeError (CdpMessage Z V) → Bool
  is_late first (err e) = false
  is_late first (ok m) = elim m.id [ none ↦ false | some id ↦ ltb id first ]

  abbrev pub drop_late :
      ℕ → List (Result PipeError (CdpMessage Z V)) → List (Result PipeError (CdpMessage Z V))
  drop_late first incoming = retain (λ r. not (is_late first r)) incoming

  abbrev on_time : ℕ → CdpClient Z V → CdpClient Z V
  on_time first client = record client { incoming = drop_late first client.incoming }

  is_late-is_reply :
      (first id : ℕ) (m : CdpMessage Z V)
      → first ≤ id
      → is_late first (ok m) ≡ true
      → is_reply m.id id ≡ false
  is_late-is_reply first id m h late = of_id m.id late
    where
      of_id :
          (o : Option ℕ)
          → (elim o as (λ x. Bool) [ none ↦ false | some other ↦ ltb other first ]) ≡ true
          → is_reply o id ≡ false
      of_id none k = refl
      of_id (some other) k = ground (arith, h, k)

module _ {Z V : Type 0} (zero_code : Z) (null : V) where
  await_reply-late :
      (first id : ℕ) (method : Bytes) (incoming : List (Result PipeError (CdpMessage Z V)))
      → first ≤ id
      → await_reply zero_code null id method (drop_late first incoming) ≡ (
        (await_reply zero_code null id method incoming).0,
        drop_late first (await_reply zero_code null id method incoming).1,
      )
  unfolding await_reply
  await_reply-late first id method [] h = refl
  await_reply-late first id method (err e ∷ rest) h = refl
  await_reply-late first id method (ok m ∷ rest) h = elim (Bool-cases (is_late first (ok m))) [
    | inl late ↦
        rw (late, is_late-is_reply first id m h late) (await_reply-late first id method rest h)
    | inr timely ↦ elim (Bool-cases (is_reply m.id id)) [
      | inl mine ↦ rw (timely, mine) refl
      | inr other ↦ rw (timely, other) (await_reply-late first id method rest h)
    ]
  ]

  on_numbered-late :
      (first id : ℕ) (method : Bytes) (o : Option PipeError) (client : CdpClient Z V)
      → first ≤ id
      → on_numbered zero_code null method (on_sent id o (on_time first client)) ≡ (
        (on_numbered zero_code null method (on_sent id o client)).0,
        on_time first (on_numbered zero_code null method (on_sent id o client)).1,
      )
  on_numbered-late first id method (some e) client h = refl
  on_numbered-late first id method none client h =
      ap (λ answer. (answer.0, record client { incoming = answer.1 }))
        (await_reply-late first id method client.incoming h)

  call_on-late :
      (first : ℕ) (c : Command V) (client : CdpClient Z V)
      → first ≤ client.next_id
      → call_on zero_code null c (on_time first client)
        ≡ ((call_on zero_code null c client).0, on_time first (call_on zero_code null c client).1)
  unfolding call_on send_command
  call_on-late first c client h =
      on_numbered-late first client.next_id c.method (send_fault client.send_faults) _ h

  next_id-on_numbered :
      (id : ℕ) (method : Bytes) (o : Option PipeError) (client : CdpClient Z V)
      → (on_numbered zero_code null method (on_sent id o client)).1.next_id ≡ client.next_id
  next_id-on_numbered id method (some e) client = refl
  next_id-on_numbered id method none client = refl

  next_id-call_on :
      (c : Command V) (client : CdpClient Z V)
      → (call_on zero_code null c client).1.next_id ≡ (client.next_id + 1) % 2 ^ 64
  unfolding call_on send_command
  next_id-call_on c client =
      next_id-on_numbered client.next_id c.method (send_fault client.send_faults) _

  call_all-on_time :
      (first : ℕ) (cs : List (Command V)) (client : CdpClient Z V)
      → first ≤ client.next_id
      → client.next_id + length cs < 2 ^ 64
      → call_all zero_code null cs (on_time first client) ≡ call_all zero_code null cs client
  unfolding call_all
  call_all-on_time first [] client h k = refl
  call_all-on_time first (c ∷ cs) client h k =
      let next = next_id-call_on c client in
      ap (λ p. behind p.0 (call_all zero_code null cs p.1)) (call_on-late first c client h)
      ∙ ap (behind (call_on zero_code null c client).0) (
          call_all-on_time first cs (call_on zero_code null c client).1 (omega (arith, next, h, k))
            (omega (arith, next, h, k)))

  -- A client that numbers its commands from `first` gives every call the same result when the replies
  -- with smaller numbers, which an earlier client of the pipe left behind, are taken out of what the
  -- pipe carries: it never takes one of them for its own, as long as its numbers stay below 2^64.
  pub call_all-late :
      (first : ℕ) (cs : List (Command V)) (faults : List (Option PipeError))
      (incoming : List (Result PipeError (CdpMessage Z V)))
      → first + length cs < 2 ^ 64
      → call_all zero_code null cs (with_first_id first faults (drop_late first incoming))
        ≡ call_all zero_code null cs (with_first_id first faults incoming)
  unfolding with_first_id
  call_all-late first cs faults incoming h =
      call_all-on_time first cs (with_first_id first faults incoming) (omega arith) h

-- A command, what the pipe carries before its reply, and the reply's `error` and `result`.
pub record Exchange (Z V : Type 0) : Type 0 where
  pub command : Command V
  pub before : List (CdpMessage Z V)
  pub error : Option (ErrorReply Z)
  pub result : Option V

module _ {Z V : Type 0} where
  -- What a browser sends that answers the commands in order, the first of them being number `id`.
  abbrev pub carried : ℕ → List (Exchange Z V) → List (Result PipeError (CdpMessage Z V))
  carried id [] = []
  carried id (x ∷ xs) =
      map ok x.before
      ++ (ok (record { id = some id; error = x.error; result = x.result }) ∷ carried (id + 1) xs)

  abbrev pub NoReply : ℕ → List (CdpMessage Z V) → Type 0
  NoReply id [] = Unit {0}
  NoReply id (m ∷ ms) = (is_reply m.id id ≡ false) × NoReply id ms

  -- Before the reply to a command there is no other message with its number.
  abbrev pub AreUnrelated : ℕ → List (Exchange Z V) → Type 0
  AreUnrelated id [] = Unit {0}
  AreUnrelated id (x ∷ xs) = NoReply id x.before × AreUnrelated (id + 1) xs

module _ {Z V : Type 0} (zero_code : Z) (null : V) where
  abbrev pub told_code : Option Z → Z
  told_code none = zero_code
  told_code (some code) = code

  abbrev pub told_text : Option Bytes → Bytes
  told_text none = codes "unknown"
  told_text (some text) = text

  -- What a call is to return by its reply alone: the error, with code 0 and the message "unknown"
  -- where it has none, or the result, or null.
  abbrev pub told : Bytes → Option (ErrorReply Z) → Option V → Result (CdpError Z) V
  told method none (some value) = ok value
  told method none none = ok null
  told method (some e) result = err (protocol method (told_code e.code) (told_text e.message))

  abbrev pub answer : Exchange Z V → Called Z V
  answer x = returned (told x.command.method x.error x.result)
