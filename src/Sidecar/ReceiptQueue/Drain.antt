-- ===== src/Sidecar/ReceiptQueue/Drain.antt =====
-- sidecar/receipt_persistence_queue.mjs: what happens to the open promises while appends succeed, and
-- after one fails.
use aegisone_core.Prelude.{
  ℕ, zero, suc, ◌+◌, ◌*◌, ◌-◌, ◌≤◌, ◌<◌, ◌≡◌, refl, Bool, true, false, List, [], ◌∷◌, ◌++◌, all,
  none, arith, length, if◌then◌else◌, if-cases,
}
use aegisone_core.Sidecar.ReceiptQueue.{
  Item, Flush, no_flush, appending, settled, ReceiptQueue, Notice, durable, all_durable, Event,
  timer_fires, append_done, flush_finishes, shutdown_polls, step, run,
}
use aegisone_core.Sidecar.ReceiptQueue.Counted.{IsSound, is_running}
use aegisone_core.Sidecar.ReceiptQueue.Order.{pending, in_flight, Serves, run-Serves}
use aegisone_core.Sidecar.ReceiptQueue.Rounds.{
  round, rounds, CanDrain, relax, timer_fires-CanDrain, shutdown_polls-CanDrain,
  append_done-CanDrain, flush_finishes-CanDrain,
}

module _ (ms : ℕ) where
  round-CanDrain : (q : ReceiptQueue) (w : ℕ) → CanDrain q w → CanDrain (run (round ms) q).0 (w - 1)
  unfolding run
  round-CanDrain q w d =
      let (d1, t1) = timer_fires-CanDrain q w d in
      let q1 = (step timer_fires q).0 in
      let (d2, t2) = shutdown_polls-CanDrain q1 w d1 t1 in
      let q2 = (step shutdown_polls q1).0 in
      let (d3, t3) = append_done-CanDrain ms q2.running q2 w d2 t2 in
      let q3 = (step (append_done ms) q2).0 in flush_finishes-CanDrain q3.running q3 w d3 t3

  rounds-CanDrain : (n : ℕ) (q : ReceiptQueue) → CanDrain q n → CanDrain (run (rounds ms n) q).0 0
  unfolding run
  rounds-CanDrain zero q d = d
  rounds-CanDrain (suc n) q d =
      rounds-CanDrain n _ (relax (omega arith) (round-CanDrain q (suc n) d))

pending_none :
    (f : Flush) (is : List Item)
    → 2 * length is + (if is_running f then 1 else 0) ≤ 0
    → in_flight f ++ is ≡ []
pending_none no_flush [] h = refl
pending_none no_flush (i ∷ is) h = ground arith
pending_none (appending batch) is h = ground arith
pending_none settled is h = ground arith

abbrev pub is_durable : Notice → Bool
is_durable (durable i ms) = true
is_durable _ = false

all-append :
    (ns ms : List Notice)
    → all is_durable ns ≡ true
    → all is_durable ms ≡ true
    → all is_durable (ns ++ ms) ≡ true
all-append [] ms a b = b
all-append (n ∷ ns) ms a b = ground (arith, all-append ns ms)

all_durable-all : (ms : ℕ) (batch : List Item) → all is_durable (all_durable ms batch) ≡ true
all_durable-all ms [] = refl
all_durable-all ms (i ∷ batch) = all_durable-all ms batch

-- The events of a round.
abbrev is_tick : Event → Bool
is_tick timer_fires = true
is_tick shutdown_polls = true
is_tick (append_done ms) = true
is_tick flush_finishes = true
is_tick _ = false

abbrev AllDurable : ReceiptQueue × List Notice → Type 0
AllDurable r = all is_durable r.1 ≡ true

step-AllDurable :
    (e : Event) (f : Flush) (q : ReceiptQueue)
    → is_tick e ≡ true
    → AllDurable (step e (record q { running = f }))
unfolding step
step-AllDurable timer_fires f q h = if-cases AllDurable q.timer _ _ (λ e. refl) (λ e. refl)
step-AllDurable shutdown_polls f q h = if-cases AllDurable q.closed _ _ (λ e. refl) (λ e. refl)
step-AllDurable (append_done ms) no_flush q h = refl
step-AllDurable (append_done ms) (appending batch) q h = all_durable-all ms batch
step-AllDurable (append_done ms) settled q h = refl
step-AllDurable flush_finishes no_flush q h = refl
step-AllDurable flush_finishes (appending batch) q h = refl
step-AllDurable flush_finishes settled q h = refl
step-AllDurable _ f q h = ground (arith, h)

run-AllDurable :
    (es : List Event) (q : ReceiptQueue) → all is_tick es ≡ true → AllDurable (run es q)
unfolding run
run-AllDurable [] q h = refl
run-AllDurable (e ∷ es) q h =
    all-append (step e q).1 _ (step-AllDurable e q.running q (ground (arith, h)))
      (run-AllDurable es _ (ground (arith, h)))

rounds-all : (ms n : ℕ) → all is_tick (rounds ms n) ≡ true
rounds-all ms zero = refl
rounds-all ms (suc n) = rounds-all ms n

work_bound : (f : Flush) (l : ℕ) → 2 * l + (if is_running f then 1 else 0) ≤ 2 * l + 1
work_bound f l = ground arith

-- Where nothing has failed and a batch takes at least one receipt, enough rounds in which the append
-- succeeds, two for each queued receipt and one more, leave no promise open: each was resolved as durable, in the order
-- of the queue.
pub rounds-drain :
    (ms : ℕ) (q : ReceiptQueue)
    → IsSound q
    → 0 < q.config.max_batch_size
    → q.fail_closed ≡ none
    → let (q', ns) = run (rounds ms (2 * length q.queue + 1)) q in
      (pending q' ≡ []) × Serves (pending q) ns [] × (all is_durable ns ≡ true)
rounds-drain ms q v fills healthy =
    let n = 2 * length q.queue + 1 in
    let (q', ns) = run (rounds ms n) q in
    let d = rounds-CanDrain ms n q (record {
      sound = v;
      fills = fills;
      healthy = ground (arith, healthy);
      within = work_bound q.running (length q.queue);
    }) in
    let none_left = pending_none q'.running q'.queue d.within in
    (
      none_left,
      rw⁻¹ none_left (run-Serves (rounds ms n) q v),
      run-AllDurable (rounds ms n) q (rounds-all ms n),
    )
