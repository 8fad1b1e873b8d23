-- ===== src/Chrome/Pipe.antt =====
-- chrome/pipe.rs: frames that end in a zero byte. `memchr::memchr` is a parameter; a reader has the
-- pieces that its reads will give, and an empty one stands for the end of the stream.
pub mod Framing
mod Examples
use browserserve.Common.{
  ℕ, suc, ◌+◌, ◌≤◌, ◌<◌, Bool, true, false, Option, none, some, List, [], ◌∷◌, ◌++◌, length, take,
  drop, is_empty, ltb, if◌then◌else◌,
}
use browserserve.Common.Result.{Result, ok, err}
use browserserve.Common.Text.{Bytes}

-- `io_failed` stands for every error that is not a broken pipe.
pub data PipeError : Type 0 where
  closed frame_too_large io_failed : PipeError

-- One write or read of the pipe.
pub data IoError : Type 0 where
  broken_pipe other : IoError

unfoldable pub map_closed : IoError → PipeError
map_closed broken_pipe = closed
map_closed other = io_failed

-- The bytes written, and what the writes to come will answer: no entry for success.
pub record CdpWriter : Type 0 where
  pub written : Bytes
  pub faults : List (Option IoError)

abbrev next_fault : List (Option IoError) → Option IoError
next_fault [] = none
next_fault (f ∷ fs) = f

unfoldable pub write_all : Bytes → CdpWriter → Result IoError (Unit {0}) × CdpWriter
write_all bytes w = elim (next_fault w.faults) [
  | none ↦ (ok tt, record { written = w.written ++ bytes; faults = drop 1 w.faults })
  | some e ↦ (err e, record w { faults = drop 1 w.faults })
]

abbrev and_zero : Result IoError (Unit {0}) × CdpWriter → Result PipeError (Unit {0}) × CdpWriter
and_zero (err e, w) = (err (map_closed e), w)
and_zero (ok done, w) = last (write_all (0 ∷ []) w)
  where
    last : Result IoError (Unit {0}) × CdpWriter → Result PipeError (Unit {0}) × CdpWriter
    last (err e, w) = (err (map_closed e), w)
    last (ok done, w) = (ok tt, w)

unfoldable pub send_raw : Bytes → CdpWriter → Result PipeError (Unit {0}) × CdpWriter
send_raw frame w = and_zero (write_all frame w)

pub data Piece : Type 0 where
  read : Bytes → Piece
  failed : IoError → Piece

-- What a call has found in the buffer: a frame with the bytes behind it, or none yet.
pub data Taken : Type 0 where
  frame : Bytes → Bytes → Taken
  partial : Taken

-- What a call of `recv_raw` ends with: a frame, an error, or no more pieces so far.
pub data Received : Type 0 where
  received : Bytes → Received
  refused : PipeError → Received
  waiting : Received

-- The outcome, the buffer and the pieces that are left.
abbrev pub Reader : Type 0
Reader = Bytes × List Piece

module _ (memchr : ℕ → Bytes → Option ℕ) (max_frame : ℕ) where
  -- The frame in front of the zero byte at an index.
  abbrev pub cut_frame : Bytes → Option ℕ → Result PipeError Taken
  cut_frame buf (some pos) =
      if ltb max_frame pos
      then err frame_too_large
      else ok (frame (take pos buf) (drop 1 (drop pos buf)))
  cut_frame buf none = if ltb max_frame (length buf) then err frame_too_large else ok partial

  unfoldable pub take_frame : Bytes → Result PipeError Taken
  take_frame buf = cut_frame buf (memchr 0 buf)

  abbrev pub on_taken :
      Bytes → List Piece → Result PipeError Taken → Received × Reader → Received × Reader
  on_taken buf pieces (err e) more = (refused e, (buf, pieces))
  on_taken buf pieces (ok (frame f rest)) more = (received f, (rest, pieces))
  on_taken buf pieces (ok partial) more = more

  abbrev pub at_buffer : Bytes → List Piece → Received × Reader → Received × Reader
  at_buffer buf pieces more = on_taken buf pieces (take_frame buf) more

  unfoldable pub recv_raw : Bytes → List Piece → Received × Reader
  recv_raw buf [] = at_buffer buf [] (waiting, (buf, []))
  recv_raw buf (failed e ∷ pieces) =
      at_buffer buf (failed e ∷ pieces) (refused (map_closed e), (buf, pieces))
  recv_raw buf (read bytes ∷ pieces) =
      let more = recv_raw (buf ++ bytes) pieces in
      at_buffer buf (read bytes ∷ pieces)
        (if is_empty bytes then (refused closed, (buf, pieces)) else more)
