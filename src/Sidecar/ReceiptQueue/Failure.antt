-- ===== src/Sidecar/ReceiptQueue/Failure.antt =====
-- sidecar/receipt_persistence_queue.mjs: what a failed append leaves behind.
use aegisone_core.Prelude.{
  ◌≡◌, refl, Bool, true, false, List, [], ◌∷◌, ◌++◌, Option, none, some, arith, all, ◌||◌, ◌&&◌,
  not, is_empty, if-cases, ap, sym,
}
use aegisone_core.Sidecar.ReceiptQueue.{
  Reason, flush_failed, Item, Flush, no_flush, appending, settled, ReceiptQueue, Notice, refused,
  rejected, flush, enqueue, is_open, finish_flush, begin_flush, or_flush_failed, all_rejected,
  expire, Event, starts, enqueues, timer_fires, append_done, append_failed, flush_finishes,
  shutdown_begins, shutdown_polls, shutdown_expires, step, run,
}
use aegisone_core.Json.{Value}
use aegisone_core.Sidecar.ReceiptQueue.Counted.{has_failed}
use aegisone_core.Sidecar.ReceiptQueue.Order.{pending}

abbrev pub is_refused : Notice → Bool
is_refused (refused r) = true
is_refused _ = false

abbrev has_batch : Flush → Bool
has_batch (appending batch) = true
has_batch _ = false

-- A queue that has failed, holds no receipt and appends none.
record IsDead (q : ReceiptQueue) : Type 0 where
  failed : has_failed q ≡ true
  emptied : is_empty q.queue ≡ true
  idle : has_batch q.running ≡ false

abbrev StaysDead : ReceiptQueue × List Notice → Type 0
StaysDead r = IsDead r.0 × (all is_refused r.1 ≡ true)

-- Nothing is flushed.
flush-IsDead : (q : ReceiptQueue) → IsDead q → IsDead (flush q)
unfolding flush
flush-IsDead q d =
    if-cases IsDead (q.flush_active || is_empty q.queue) q (begin_flush q) (λ e. d)
      (λ e. ground (arith, d.emptied))

enqueue-IsDead :
    (receipt : Value) (q : ReceiptQueue)
    → IsDead q
    → enqueue receipt q ≡ (q, refused (or_flush_failed q.fail_closed) ∷ [])
unfolding enqueue
enqueue-IsDead receipt q d =
    let shut : is_open q ≡ false = ground (arith, d.failed) in rw (shut, enqueue) refl

finish_flush-IsDead :
    (a : Option Reason) (q : ReceiptQueue)
    → let q' = record q { fail_closed = a } in IsDead q' → IsDead (finish_flush q')
unfolding finish_flush
finish_flush-IsDead none q d = ground (arith, d.failed)
finish_flush-IsDead (some r) q d = record { failed = refl; emptied = d.emptied; idle = refl }

expire-IsDead : (q : ReceiptQueue) → IsDead q → IsDead (expire q)
expire-IsDead q d =
    if-cases IsDead (is_empty q.queue && not q.flush_active) q
      (record q { fail_closed = some flush_failed }) (λ e. d)
      (λ e. record { failed = refl; emptied = d.emptied; idle = d.idle })

step_of-StaysDead :
    (e : Event) (f : Flush) (q : ReceiptQueue)
    → let q' = record q { running = f } in IsDead q' → StaysDead (step e q')
unfolding step
step_of-StaysDead starts f q d =
    (record { failed = d.failed; emptied = d.emptied; idle = d.idle }, refl)
step_of-StaysDead (enqueues receipt) f q d = rw (enqueue-IsDead receipt _ d) (d, refl)
step_of-StaysDead timer_fires f q d =
    if-cases StaysDead q.timer _ _
      (λ e.
        (flush-IsDead _ (record { failed = d.failed; emptied = d.emptied; idle = d.idle }), refl))
      (λ e. (d, refl))
step_of-StaysDead (append_done ms) (appending batch) q d = ground (arith, d.idle)
step_of-StaysDead (append_done ms) no_flush q d = (d, refl)
step_of-StaysDead (append_done ms) settled q d = (d, refl)
step_of-StaysDead (append_failed timed_out) (appending batch) q d = ground (arith, d.idle)
step_of-StaysDead (append_failed timed_out) no_flush q d = (d, refl)
step_of-StaysDead (append_failed timed_out) settled q d = (d, refl)
step_of-StaysDead flush_finishes settled q d =
    (finish_flush-IsDead q.fail_closed (record q { running = settled }) d, refl)
step_of-StaysDead flush_finishes no_flush q d = (d, refl)
step_of-StaysDead flush_finishes (appending batch) q d = (d, refl)
step_of-StaysDead shutdown_begins f q d =
    (record { failed = d.failed; emptied = d.emptied; idle = d.idle }, refl)
step_of-StaysDead shutdown_polls f q d =
    if-cases StaysDead q.closed _ _ (λ e. (flush-IsDead _ d, refl)) (λ e. (d, refl))
step_of-StaysDead shutdown_expires f q d =
    if-cases StaysDead q.closed _ _ (λ e. (expire-IsDead _ d, refl)) (λ e. (d, refl))

all-append :
    (ns ms : List Notice)
    → all is_refused ns ≡ true
    → all is_refused ms ≡ true
    → all is_refused (ns ++ ms) ≡ true
all-append [] ms a b = b
all-append (n ∷ ns) ms a b = ground (arith, all-append ns ms)

run-StaysDead : (es : List Event) (q : ReceiptQueue) → IsDead q → StaysDead (run es q)
unfolding run
run-StaysDead [] q d = (d, refl)
run-StaysDead (e ∷ es) q d =
    let (d', ns) = step_of-StaysDead e q.running q d in
    let (d'', ms) = run-StaysDead es (step e q).0 d' in (d'', all-append (step e q).1 _ ns ms)

all_rejected-append :
    (is js : List Item) → all_rejected (is ++ js) ≡ all_rejected is ++ all_rejected js
all_rejected-append [] js = refl
all_rejected-append (i ∷ is) js = ap (rejected i ∷◌) (all_rejected-append is js)

fails_of :
    (f : Flush) (timed_out : Bool) (batch : List Item) (q : ReceiptQueue)
    → f ≡ appending batch
    → let q' = record q { running = f } in
      ((step (append_failed timed_out) q').1 ≡ all_rejected (pending q'))
      × IsDead (step (append_failed timed_out) q').0
unfolding step
fails_of (appending is) timed_out batch q e =
    (sym (all_rejected-append is q.queue), record { failed = refl; emptied = refl; idle = refl })
fails_of no_flush timed_out batch q e = ground (arith, e)
fails_of settled timed_out batch q e = ground (arith, e)

-- When an append fails, exactly the open promises are rejected, in their order, and whatever
-- happens afterwards, every notice is a refusal and the queue stays failed and empty.
pub append_failed-rejects :
    (timed_out : Bool) (batch : List Item) (q : ReceiptQueue) (es : List Event)
    → q.running ≡ appending batch
    → let (q', ns) = step (append_failed timed_out) q in
      let (q'', later) = run es q' in
      (ns ≡ all_rejected (pending q))
      × (all is_refused later ≡ true)
      × (has_failed q'' ≡ true)
      × (is_empty q''.queue ≡ true)
append_failed-rejects timed_out batch q es e =
    let (same, d) = fails_of q.running timed_out batch q e in
    let (d', later) = run-StaysDead es _ d in (same, later, d'.failed, d'.emptied)
