-- ===== src/Sidecar/ReceiptQueue/Order.antt =====
-- sidecar/receipt_persistence_queue.mjs: which promises are settled, and in what order.
use aegisone_core.Prelude.{
  ℕ, Str, ◌≡◌, refl, false, not, ◌&&◌, ◌||◌, List, [], ◌∷◌, ◌++◌, Option, none, some, arith, length,
  is_empty, append-take-drop, leb, inl, inr, Option-cases, Bool-cases, if-cases, ap, sym, ◌∙◌,
}
use aegisone_core.Js.{utf8}
use aegisone_core.Json.{Value}
use aegisone_core.Json.Canonical.{canonicalize_json}
use aegisone_core.Sidecar.ReceiptQueue.Config.{QueueConfig}
use aegisone_core.Sidecar.ReceiptQueue.{
  Reason, queue_saturated, flush_failed, Item, Flush, no_flush, appending, settled, ReceiptQueue,
  Notice, accepted, refused, durable, rejected, new_queue, flush, flush_or_schedule, enqueue_line,
  enqueue, is_open, finish_flush, push_item, begin_flush, schedule_flush, all_durable, all_rejected,
  Event, starts, enqueues, timer_fires, append_done, append_failed, flush_finishes, shutdown_begins,
  shutdown_polls, shutdown_expires, step, run,
}
use aegisone_core.Sidecar.ReceiptQueue.Counted.{IsSound, is_running, new_queue-IsSound}
use aegisone_core.Sidecar.ReceiptQueue.Invariant.{step-IsSound}
use mathlib.Core.List.{append_assoc}

abbrev pub in_flight : Flush → List Item
in_flight (appending batch) = batch
in_flight _ = []

-- The receipts whose promises are open.
abbrev pub pending : ReceiptQueue → List Item
pending q = in_flight q.running ++ q.queue

-- The abstract queue: an accepted receipt joins at the end, and a promise is settled only for the
-- first one.
pub data Serves : List Item → List Notice → List Item → Type 0 where
  rests : (is : List Item) → Serves is [] is
  accepts :
      (i : Item) {is ks : List Item} {ns : List Notice}
      → Serves (is ++ (i ∷ [])) ns ks
      → Serves is (accepted i ∷ ns) ks
  refuses :
      (r : Reason) {is ks : List Item} {ns : List Notice}
      → Serves is ns ks
      → Serves is (refused r ∷ ns) ks
  persists :
      (i : Item) (ms : ℕ) {is ks : List Item} {ns : List Notice}
      → Serves is ns ks
      → Serves (i ∷ is) (durable i ms ∷ ns) ks
  rejects :
      (i : Item) {is ks : List Item} {ns : List Notice}
      → Serves is ns ks
      → Serves (i ∷ is) (rejected i ∷ ns) ks

Serves-append :
    {is js ks : List Item} {ns ms : List Notice}
    → Serves is ns js
    → Serves js ms ks
    → Serves is (ns ++ ms) ks
Serves-append (rests is) t = t
Serves-append (accepts i s) t = accepts i (Serves-append s t)
Serves-append (refuses r s) t = refuses r (Serves-append s t)
Serves-append (persists i ms s) t = persists i ms (Serves-append s t)
Serves-append (rejects i s) t = rejects i (Serves-append s t)

rests_eq : {is js : List Item} → is ≡ js → Serves is [] js
rests_eq {is} e = rw e (rests _)

all_durable-Serves :
    (ms : ℕ) (batch is : List Item) → Serves (batch ++ is) (all_durable ms batch) is
all_durable-Serves ms [] is = rests is
all_durable-Serves ms (i ∷ batch) is = persists i ms (all_durable-Serves ms batch is)

all_rejected-Serves : (batch is : List Item) → Serves (batch ++ is) (all_rejected batch) is
all_rejected-Serves [] is = rests is
all_rejected-Serves (i ∷ batch) is = rejects i (all_rejected-Serves batch is)

all_rejected_rest : (is : List Item) → Serves is (all_rejected is) []
all_rejected_rest [] = rests []
all_rejected_rest (i ∷ is) = rejects i (all_rejected_rest is)

in_flight_of_idle : (f : Flush) → is_running f ≡ false → in_flight f ≡ []
in_flight_of_idle no_flush h = refl
in_flight_of_idle (appending batch) h = ground arith
in_flight_of_idle settled h = refl

pending-flush :
    (q : ReceiptQueue) → q.flush_active ≡ is_running q.running → pending q ≡ pending (flush q)
unfolding flush
pending-flush q busy =
    if-cases (λ r. pending q ≡ pending r) (q.flush_active || is_empty q.queue) q (begin_flush q)
      (λ e. refl)
      λ e.
        let idle : is_running q.running ≡ false = ground (arith, busy, e) in
        ap (λ is. is ++ q.queue) (in_flight_of_idle q.running idle)
        ∙ sym (append-take-drop q.config.max_batch_size q.queue)

pending-flush_or_schedule :
    (q : ReceiptQueue)
    → q.flush_active ≡ is_running q.running
    → pending q ≡ pending (flush_or_schedule q)
unfolding flush_or_schedule
pending-flush_or_schedule q busy =
    if-cases (λ r. pending q ≡ pending r) (leb q.config.max_batch_size (length q.queue)) (flush q)
      (schedule_flush q) (λ e. pending-flush q busy) (λ e. refl)

abbrev pub KeepsOrder : ReceiptQueue → ReceiptQueue × List Notice → Type 0
KeepsOrder q r = Serves (pending q) r.1 (pending r.0)

enqueue_line-KeepsOrder :
    (line : Str) (q : ReceiptQueue)
    → q.flush_active ≡ is_running q.running
    → KeepsOrder q (enqueue_line line q)
unfolding enqueue_line
enqueue_line-KeepsOrder line q busy =
    let i : Item = record { line = line; byte_length = length (utf8 line) } in
    if-cases (KeepsOrder q) _ _ _ (λ e. refuses queue_saturated (rests _))
      λ e. accepts i (
        rests_eq (
          append_assoc (in_flight q.running) q.queue (i ∷ [])
          ∙ pending-flush_or_schedule (push_item i q) busy))

enqueue-KeepsOrder :
    (receipt : Value) (q : ReceiptQueue)
    → q.flush_active ≡ is_running q.running
    → KeepsOrder q (enqueue receipt q)
unfolding enqueue
enqueue-KeepsOrder receipt q busy = elim (Bool-cases (is_open q)) [
  | inr e ↦ rw (e, enqueue) (refuses _ (rests _))
  | inl e ↦
      rw (e, enqueue)
        (elim (Option-cases (canonicalize_json receipt)) [
          | inl n ↦ rw n (rests _)
          | inr (t, n) ↦ rw n (enqueue_line-KeepsOrder _ q busy)
        ])
]

finish_flush-pending :
    (failure : Option Reason) (q : ReceiptQueue)
    → let q' = record q { fail_closed = failure; running = settled } in
      pending q' ≡ pending (finish_flush q')
unfolding finish_flush
finish_flush-pending (some r) q = refl
finish_flush-pending none q =
    if-cases (λ r. q.queue ≡ pending r) (is_empty q.queue) _ _ (λ e. refl)
      λ e.
        pending-flush_or_schedule
          (record q { fail_closed = none; running = no_flush; flush_active = false }) refl

step_of-KeepsOrder :
    (e : Event) (f : Flush) (q : ReceiptQueue)
    → q.flush_active ≡ is_running f
    → let q' = record q { running = f } in KeepsOrder q' (step e q')
unfolding step
step_of-KeepsOrder starts f q busy = rests _
step_of-KeepsOrder (enqueues receipt) f q busy = enqueue-KeepsOrder receipt _ busy
step_of-KeepsOrder timer_fires f q busy =
    if-cases (KeepsOrder (record q { running = f })) q.timer _ _
      (λ e. rests_eq (pending-flush (record q { running = f; timer = false }) busy)) (λ e. rests _)
step_of-KeepsOrder (append_done ms) (appending batch) q busy = all_durable-Serves ms batch q.queue
step_of-KeepsOrder (append_done ms) no_flush q busy = rests _
step_of-KeepsOrder (append_done ms) settled q busy = rests _
step_of-KeepsOrder (append_failed timed_out) (appending batch) q busy =
    Serves-append (all_rejected-Serves batch q.queue) (all_rejected_rest q.queue)
step_of-KeepsOrder (append_failed timed_out) no_flush q busy = rests _
step_of-KeepsOrder (append_failed timed_out) settled q busy = rests _
step_of-KeepsOrder flush_finishes settled q busy = rests_eq (finish_flush-pending q.fail_closed q)
step_of-KeepsOrder flush_finishes no_flush q busy = rests _
step_of-KeepsOrder flush_finishes (appending batch) q busy = rests _
step_of-KeepsOrder shutdown_begins f q busy = rests _
step_of-KeepsOrder shutdown_polls f q busy =
    if-cases (KeepsOrder (record q { running = f })) q.closed _ _
      (λ e. rests_eq (pending-flush (record q { running = f }) busy)) (λ e. rests _)
step_of-KeepsOrder shutdown_expires f q busy =
    if-cases (KeepsOrder (record q { running = f })) q.closed _ _
      (λ e.
        if-cases (λ r. Serves (in_flight f ++ q.queue) [] (pending r))
          (is_empty q.queue && not q.flush_active) (record q { running = f })
          (record q { running = f; fail_closed = some flush_failed }) (λ x. rests _) (λ x. rests _))
      (λ e. rests _)

pub run-Serves : (es : List Event) (q : ReceiptQueue) → IsSound q → KeepsOrder q (run es q)
unfolding run
run-Serves [] q v = rests _
run-Serves (e ∷ es) q v =
    Serves-append (step_of-KeepsOrder e q.running q v.counted.busy)
      (run-Serves es _ (step-IsSound e q v))

-- Whatever happens to a new queue, the notices that it gives are those of the abstract queue: each
-- promise that is settled is the oldest open one of an accepted receipt, each is settled at most
-- once, and those still open are the batch in flight and the queue.
pub run-new_queue-Serves :
    (c : QueueConfig) (es : List Event)
    → Serves [] (run es (new_queue c)).1 (pending (run es (new_queue c)).0)
unfolding new_queue
run-new_queue-Serves c es = run-Serves es (new_queue c) (new_queue-IsSound c)
