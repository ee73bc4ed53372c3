-- ===== src/Sidecar/ReceiptQueue/Invariant.antt =====
-- sidecar/receipt_persistence_queue.mjs: what holds of the queue between two events.
use aegisone_core.Prelude.{
  ◌+◌, ◌≤◌, ◌<◌, Str, ◌≡◌, refl, Bool, true, false, not, ◌&&◌, ◌||◌, List, [], ◌∷◌, Option, none,
  some, arith, length, is_empty, length-append, if-cases, ltb, leb, inl, inr, Option-cases,
  Bool-cases,
}
use aegisone_core.Js.{utf8}
use aegisone_core.Json.{Value}
use aegisone_core.Json.Canonical.{canonicalize_json}
use aegisone_core.Sidecar.ReceiptQueue.Config.{QueueConfig}
use aegisone_core.Sidecar.ReceiptQueue.{
  Reason, flush_failed, Item, Flush, no_flush, appending, settled, ReceiptQueue, Notice, new_queue,
  flush, flush_or_schedule, enqueue_line, enqueue, is_open, finish_flush, push_item, append_fails,
  expire, Event, starts, enqueues, timer_fires, append_done, append_failed, flush_finishes,
  shutdown_begins, shutdown_polls, shutdown_expires, step, run,
}
use aegisone_core.Sidecar.ReceiptQueue.Counted.{
  total_bytes-append, IsCounted, IsSound, new_queue-IsSound, begin_flush-IsCounted, touch, retime,
  rerun, close,
}

-- A flush takes care of the queue, whether it starts or is running.
pub flush-IsSound : (q : ReceiptQueue) → IsCounted q → IsSound (flush q)
unfolding flush
flush-IsSound q v = elim (Bool-cases (q.flush_active || is_empty q.queue)) [
  | inl e ↦ rw e (record { counted = v; driven = ground arith })
  | inr e ↦ rw e (record { counted = begin_flush-IsCounted q v; driven = ground arith })
]

pub flush_or_schedule-IsSound : (q : ReceiptQueue) → IsCounted q → IsSound (flush_or_schedule q)
unfolding flush_or_schedule
flush_or_schedule-IsSound q v = elim (Bool-cases (leb q.config.max_batch_size (length q.queue))) [
  | inl e ↦ rw e (flush-IsSound q v)
  | inr e ↦ rw e (record { counted = retime v _; driven = ground arith })
]

push_item-IsCounted :
    (i : Item) (q : ReceiptQueue)
    → leb q.config.max_items (length q.queue)
        || ltb q.config.max_bytes (q.queued_bytes + i.byte_length)
      ≡ false
    → is_open q ≡ true
    → IsCounted q
    → IsCounted (push_item i q)
push_item-IsCounted i q room op v =
    let longer = length-append q.queue (i ∷ []) in
    let fits : length q.queue < q.config.max_items = ground (arith, room) in
    let small : q.queued_bytes + i.byte_length ≤ q.config.max_bytes = ground (arith, room) in
    record {
      busy = v.busy;
      bytes = omega (arith, v.bytes, total_bytes-append q.queue (i ∷ []));
      items_within = omega (arith, fits, longer);
      bytes_within = small;
      depth_synced = refl;
      bytes_synced = refl;
      depth_seen = omega arith;
      bytes_seen = omega arith;
      depth_peak = omega (arith, fits, longer, v.depth_peak);
      bytes_peak = omega (arith, small, v.bytes_peak);
      failed = ground (arith, op);
    }

enqueue_line-IsSound :
    (line : Str) (q : ReceiptQueue) → is_open q ≡ true → IsSound q → IsSound (enqueue_line line q).0
unfolding enqueue_line
enqueue_line-IsSound line q op v =
    let i : Item = record { line = line; byte_length = length (utf8 line) } in
    elim (Bool-cases (
      leb q.config.max_items (length q.queue)
      || ltb q.config.max_bytes (q.queued_bytes + i.byte_length))) [
        | inl e ↦ rw e (record {
          counted = touch v.counted q.timer q.started _ refl refl refl refl;
          driven = v.driven;
        })
        | inr e ↦ rw e (flush_or_schedule-IsSound _ (push_item-IsCounted i q e op v.counted))
      ]

enqueue-IsSound : (receipt : Value) (q : ReceiptQueue) → IsSound q → IsSound (enqueue receipt q).0
unfolding enqueue
enqueue-IsSound receipt q v = elim (Bool-cases (is_open q)) [
  | inl e ↦
      rw (e, enqueue)
        (elim (Option-cases (canonicalize_json receipt)) [
          | inl n ↦ rw n v
          | inr (t, n) ↦ rw n (enqueue_line-IsSound _ q e v)
        ])
  | inr e ↦ rw (e, enqueue) v
]

append_fails-IsSound :
    (timed_out : Bool) (batch : List Item) (q : ReceiptQueue)
    → q.flush_active ≡ true
    → IsCounted q
    → IsSound (append_fails timed_out batch q).0
append_fails-IsSound timed_out batch q active v = record {
  counted = record {
    busy = active;
    bytes = refl;
    items_within = omega arith;
    bytes_within = omega arith;
    depth_synced = refl;
    bytes_synced = refl;
    depth_seen = omega arith;
    bytes_seen = omega arith;
    depth_peak = omega (arith, v.depth_peak);
    bytes_peak = omega (arith, v.bytes_peak);
    failed = refl;
  };
  driven = refl;
}

pub finish_flush-IsSound :
    (failure : Option Reason) (q : ReceiptQueue)
    → let q' = record q { fail_closed = failure } in IsSound q' → IsSound (finish_flush q')
unfolding finish_flush
finish_flush-IsSound (some r) q v = record {
  counted = rerun v.counted no_flush false refl;
  driven = ground (arith, v.counted.failed);
}
finish_flush-IsSound none q v = elim (Bool-cases (is_empty q.queue)) [
  | inl b ↦ rw b (record { counted = rerun v.counted no_flush false refl; driven = ground arith })
  | inr b ↦ rw b (flush_or_schedule-IsSound _ (rerun v.counted no_flush false refl))
]

abbrev IsAfter : ReceiptQueue × List Notice → Type 0
IsAfter r = IsSound r.0

expire-IsSound : (q : ReceiptQueue) → IsSound q → q.closed ≡ true → IsSound (expire q)
expire-IsSound q v e =
    if-cases IsSound (is_empty q.queue && not q.flush_active) q
      (record q { fail_closed = some flush_failed }) (λ x. v)
      λ x. record {
        counted = record {
          busy = v.counted.busy;
          bytes = v.counted.bytes;
          items_within = v.counted.items_within;
          bytes_within = v.counted.bytes_within;
          depth_synced = v.counted.depth_synced;
          bytes_synced = v.counted.bytes_synced;
          depth_seen = v.counted.depth_seen;
          bytes_seen = v.counted.bytes_seen;
          depth_peak = v.counted.depth_peak;
          bytes_peak = v.counted.bytes_peak;
          failed = ground (arith, e);
        };
        driven = v.driven;
      }

step_of-IsSound :
    (e : Event) (f : Flush) (q : ReceiptQueue)
    → let q' = record q { running = f } in IsSound q' → IsSound (step e q').0
unfolding step
step_of-IsSound starts f q v = record {
  counted = touch v.counted q.timer true q.metrics refl refl refl refl;
  driven = v.driven;
}
step_of-IsSound (enqueues receipt) f q v = enqueue-IsSound receipt _ v
step_of-IsSound timer_fires f q v =
    if-cases IsAfter q.timer _ _ (λ e. flush-IsSound _ (retime v.counted false)) (λ e. v)
step_of-IsSound (append_done ms) (appending batch) q v = record {
  counted =
      touch (rerun v.counted settled q.flush_active v.counted.busy) q.timer q.started _ refl refl
        refl refl;
  driven = ground (arith, v.counted.busy);
}
step_of-IsSound (append_done ms) no_flush q v = v
step_of-IsSound (append_done ms) settled q v = v
step_of-IsSound (append_failed timed_out) (appending batch) q v =
    append_fails-IsSound timed_out batch _ v.counted.busy v.counted
step_of-IsSound (append_failed timed_out) no_flush q v = v
step_of-IsSound (append_failed timed_out) settled q v = v
step_of-IsSound flush_finishes settled q v =
    finish_flush-IsSound q.fail_closed (record q { running = settled }) v
step_of-IsSound flush_finishes no_flush q v = v
step_of-IsSound flush_finishes (appending batch) q v = v
step_of-IsSound shutdown_begins f q v = record {
  counted = close (retime v.counted false);
  driven = ground arith;
}
step_of-IsSound shutdown_polls f q v =
    if-cases IsAfter q.closed _ _ (λ e. flush-IsSound _ v.counted) (λ e. v)
step_of-IsSound shutdown_expires f q v = if-cases IsAfter q.closed _ _ (expire-IsSound _ v) (λ e. v)

-- Every event keeps the queue sound.
pub step-IsSound : (e : Event) (q : ReceiptQueue) → IsSound q → IsSound (step e q).0
step-IsSound e q v = step_of-IsSound e q.running q v

run-IsSound : (es : List Event) (q : ReceiptQueue) → IsSound q → IsSound (run es q).0
unfolding run
run-IsSound [] q v = v
run-IsSound (e ∷ es) q v = run-IsSound es (step e q).0 (step-IsSound e q v)

-- Whatever happens to a new queue, its counters of depth and bytes are what it holds, their peaks
-- lie between what it holds and the limits of the configuration, a flush is active exactly while its
-- promise runs, a queue that has failed is empty or closed, and where receipts wait, the timer is
-- set, a flush is active, or the queue is closed.
pub run-new_queue-IsSound : (c : QueueConfig) (es : List Event) → IsSound (run es (new_queue c)).0
run-new_queue-IsSound c es = run-IsSound es (new_queue c) (new_queue-IsSound c)
