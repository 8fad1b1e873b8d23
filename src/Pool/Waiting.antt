-- ===== src/Pool/Waiting.antt =====
-- pool.rs: the counter `waiting` and the bound of the queue.
use browserserve.Common.{
  ℕ, zero, suc, ◌≤◌, ◌<◌, List, [], ◌∷◌, length, ◌≡◌, arith, inl, inr, Option-cases,
}
use browserserve.Pool.Semaphore.{Semaphore, TryAcquire, permit}
use browserserve.Pool.State.{PoolOptions, usize_mod}
use browserserve.Pool.World.{World, Event, try_slot, join, test_bound, get_slot, leave, pick, start}
use browserserve.Pool.Steps.{step, run, enter_line, serve_place, test_place, leave_place}
use browserserve.Pool.Tally.{length-pick}
use browserserve.Pool.Queue.{
  Ranked, Bounded, waiters, waiters-le, pick-Ranked, pick-Bounded, length-admit, admit-Ranked,
  admit-Bounded,
}

module _ (k : Semaphore) {S : Type 0} where
  pub record LineInv (m : ℕ) (w : World k.Sem S) : Type 0 where
    pub counted : w.pool.waiting ≡ length w.line
    pub small : length w.line < usize_mod
    pub ranked : Ranked w.line
    pub bounded : Bounded m w.line
    pub bound : w.pool.options.max_queue ≡ m

  enter_line-LineInv :
      {m : ℕ} (w : World k.Sem S) (n : ℕ) → LineInv m w → LineInv m (enter_line k w n)
  unfolding enter_line
  enter_line-LineInv w zero v = v
  enter_line-LineInv w (suc n) v = ground arith

  test_place-LineInv :
      {m : ℕ} (w : World k.Sem S) (i : ℕ)
      → LineInv m w
      → LineInv m (test_place k w i (pick i w.line))
  unfolding test_place
  test_place-LineInv {m} w i v = elim (Option-cases (pick i w.line)) [
    | inl missing ↦ rw missing v
    | inr ((p, rest), found) ↦ rw found (
        ground (
          arith,
          length-admit i w.line,
          admit-Ranked i w.line v.ranked,
          admit-Bounded m i w.line p rest found,
        ))
  ]

  leave_place-LineInv :
      {m : ℕ} (w : World k.Sem S) (i : ℕ)
      → LineInv m w
      → LineInv m (leave_place k w (pick i w.line))
  unfolding leave_place
  leave_place-LineInv {m} w i v = elim (Option-cases (pick i w.line)) [
    | inl missing ↦ rw missing v
    | inr ((p, rest), found) ↦ rw found (
        ground (
          arith,
          length-pick i w.line p rest found,
          pick-Ranked i w.line p rest found v.ranked,
          pick-Bounded m i w.line p rest found v.bounded,
        ))
  ]

  serve_place-LineInv :
      {m : ℕ} (w : World k.Sem S) (i : ℕ) (t : TryAcquire k.Sem)
      → LineInv m w
      → LineInv m (serve_place k w (pick i w.line) t)
  unfolding serve_place
  serve_place-LineInv {m} w i (permit s) v = elim (Option-cases (pick i w.line)) [
    | inl missing ↦ rw missing v
    | inr ((p, rest), found) ↦ rw found (
        ground (
          arith,
          length-pick i w.line p rest found,
          pick-Ranked i w.line p rest found v.ranked,
          pick-Bounded m i w.line p rest found v.bounded,
        ))
  ]
  serve_place-LineInv {m} w i t v = elim (Option-cases (pick i w.line)) [
    | inl missing ↦ rw missing v
    | inr ((p, rest), found) ↦ rw found v
  ]

  step-LineInv : {m : ℕ} (w : World k.Sem S) (e : Event S) → LineInv m w → LineInv m (step k w e)
  unfolding step
  step-LineInv w try_slot v = ground arith
  step-LineInv w join v = enter_line-LineInv w w.refused v
  step-LineInv w (test_bound i) v = test_place-LineInv w i v
  step-LineInv w (get_slot i) v = serve_place-LineInv w i (k.try_acquire w.pool.semaphore) v
  step-LineInv w (leave i) v = leave_place-LineInv w i v
  step-LineInv w _ v = ground arith

  run-LineInv :
      {m : ℕ} (w : World k.Sem S) (es : List (Event S)) → LineInv m w → LineInv m (run k w es)
  unfolding run
  run-LineInv w [] v = v
  run-LineInv w (e ∷ es) v = run-LineInv (step k w e) es (step-LineInv w e v)

  start-LineInv : (o : PoolOptions) → LineInv o.max_queue (start k o)
  unfolding start
  start-LineInv o = ground arith

  -- In any interleaving, also of the counter's updates with the tests of it, no more claimers
  -- wait than `max_queue`, and the counter, which never wraps, is the number of queue guards alive.
  pub run-waiters :
      (o : PoolOptions) (es : List (Event S))
      → (waiters (run k (start k o) es).line ≤ o.max_queue)
        × ((run k (start k o) es).pool.waiting ≡ length (run k (start k o) es).line)
  run-waiters o es =
      let v = run-LineInv (start k o) es (start-LineInv o) in
      (waiters-le o.max_queue (run k (start k o) es).line v.ranked v.bounded, v.counted)
