-- ===== src/Sidecar/ReceiptQueue.antt =====
-- sidecar/receipt_persistence_queue.mjs: `ReceiptPersistenceQueue`. A call or a callback is an event;
-- what it tells its callers is a list of notices. Of a flush, the callbacks of `then` or `catch` and
-- of `finally` are two events, as other code may run between them.
pub mod Config
pub mod Counted
pub mod Invariant
pub mod Order
pub mod Rounds
pub mod Drain
pub mod Failure
pub mod Limits
use aegisone_core.Prelude.{
  ℕ, ◌+◌, ◌-◌, max, Str, Bool, true, false, not, ◌&&◌, ◌||◌, List, [], ◌∷◌, ◌++◌, map, Option, none,
  some, if◌then◌else◌, ltb, leb, length, take, drop, is_empty,
}
use aegisone_core.Js.{utf8}
use aegisone_core.Json.{Value}
use aegisone_core.Json.Canonical.{canonicalize_json}
use Config.{QueueConfig}

pub data Reason : Type 0 where
  queue_saturated flush_failed : Reason

-- A queued receipt; its promise is the item's own.
pub record Item : Type 0 where
  pub line : Str
  pub byte_length : ℕ

-- The running flush: none, a batch that is being appended, or one whose promises are settled.
pub data Flush : Type 0 where
  no_flush : Flush
  appending : List Item → Flush
  settled : Flush

pub record Metrics : Type 0 where
  pub accepted : ℕ
  pub saturated : ℕ
  pub flush_failures : ℕ
  pub flush_count : ℕ
  pub flush_timeouts : ℕ
  pub flushed_receipts : ℕ
  pub queue_depth : ℕ
  pub queue_bytes : ℕ
  pub max_queue_depth : ℕ
  pub max_queue_bytes : ℕ
  pub last_flush_ms : ℕ
  pub persistence_flush_ms_total : ℕ

pub record ReceiptQueue : Type 0 where
  pub config : QueueConfig
  pub queue : List Item
  pub queued_bytes : ℕ
  pub timer : Bool
  pub flush_active : Bool
  pub running : Flush
  pub started : Bool
  pub closed : Bool
  pub fail_closed : Option Reason
  pub metrics : Metrics

-- What the callers learn.
pub data Notice : Type 0 where
  accepted : Item → Notice
  refused : Reason → Notice
  durable : Item → ℕ → Notice
  rejected : Item → Notice

abbrev pub total_bytes : List Item → ℕ
total_bytes [] = 0
total_bytes (i ∷ is) = i.byte_length + total_bytes is

abbrev no_metrics : Metrics
no_metrics = record {
  accepted = 0;
  saturated = 0;
  flush_failures = 0;
  flush_count = 0;
  flush_timeouts = 0;
  flushed_receipts = 0;
  queue_depth = 0;
  queue_bytes = 0;
  max_queue_depth = 0;
  max_queue_bytes = 0;
  last_flush_ms = 0;
  persistence_flush_ms_total = 0;
}

-- `constructor`, behind the validation.
unfoldable pub new_queue : QueueConfig → ReceiptQueue
new_queue c = record {
  config = c;
  queue = [];
  queued_bytes = 0;
  timer = false;
  flush_active = false;
  running = no_flush;
  started = false;
  closed = false;
  fail_closed = none;
  metrics = no_metrics;
}

-- `#syncDepthMetrics`.
abbrev pub sync_depth : ReceiptQueue → ReceiptQueue
sync_depth q = record q {
  metrics = record q.metrics {
    queue_depth = length q.queue;
    queue_bytes = q.queued_bytes;
    max_queue_depth = max q.metrics.max_queue_depth (length q.queue);
    max_queue_bytes = max q.metrics.max_queue_bytes q.queued_bytes;
  };
}

-- `#scheduleFlush`.
abbrev pub schedule_flush : ReceiptQueue → ReceiptQueue
schedule_flush q = record q { timer = q.timer || not q.closed }

-- The part of `flush` up to the append.
abbrev pub begin_flush : ReceiptQueue → ReceiptQueue
begin_flush q =
    let batch = take q.config.max_batch_size q.queue in
    sync_depth (record q {
      timer = false;
      flush_active = true;
      running = appending batch;
      queue = drop q.config.max_batch_size q.queue;
      queued_bytes = q.queued_bytes - total_bytes batch;
    })

-- `flush`.
unfoldable pub flush : ReceiptQueue → ReceiptQueue
flush q = if q.flush_active || is_empty q.queue then q else begin_flush q

-- `flush` if a batch is full, else the timer.
unfoldable pub flush_or_schedule : ReceiptQueue → ReceiptQueue
flush_or_schedule q =
    let flushed = flush q in
    if leb q.config.max_batch_size (length q.queue) then flushed else schedule_flush q

abbrev pub or_flush_failed : Option Reason → Reason
or_flush_failed none = flush_failed
or_flush_failed (some r) = r

abbrev pub push_item : Item → ReceiptQueue → ReceiptQueue
push_item i q = sync_depth (record q {
  queue = q.queue ++ (i ∷ []);
  queued_bytes = q.queued_bytes + i.byte_length;
  metrics = record q.metrics { accepted = q.metrics.accepted + 1 };
})

abbrev pub is_open : ReceiptQueue → Bool
is_open q = elim q.fail_closed [ none ↦ q.started && not q.closed | some r ↦ false ]

-- `enqueue` of a printed receipt.
unfoldable pub enqueue_line : Str → ReceiptQueue → ReceiptQueue × List Notice
enqueue_line line q =
    let item : Item = record { line = line; byte_length = length (utf8 line) } in
    if leb q.config.max_items (length q.queue)
      || ltb q.config.max_bytes (q.queued_bytes + item.byte_length)
    then (
      record q { metrics = record q.metrics { saturated = q.metrics.saturated + 1 } },
      refused queue_saturated ∷ [],
    )
    else (flush_or_schedule (push_item item q), accepted item ∷ [])

-- `enqueue`; where the receipt cannot be printed it throws before it changes anything.
unfoldable pub enqueue : Value → ReceiptQueue → ReceiptQueue × List Notice
enqueue receipt q = elim (is_open q) [
  | false ↦ (q, refused (or_flush_failed q.fail_closed) ∷ [])
  | true ↦ elim (canonicalize_json receipt) [
    | none ↦ (q, [])
    | some t ↦ enqueue_line (t ++ 10 ∷ []) q
  ]
]

abbrev pub all_durable : ℕ → List Item → List Notice
all_durable ms is = map (λ i. durable i ms) is

abbrev pub all_rejected : List Item → List Notice
all_rejected is = map rejected is

-- The callback of `then`, with the elapsed time in whole milliseconds.
abbrev pub append_succeeds : ℕ → List Item → ReceiptQueue → ReceiptQueue × List Notice
append_succeeds ms batch q = (
  record q {
    running = settled;
    metrics = record q.metrics {
      flush_count = q.metrics.flush_count + 1;
      flushed_receipts = q.metrics.flushed_receipts + length batch;
      last_flush_ms = ms;
      persistence_flush_ms_total = q.metrics.persistence_flush_ms_total + ms;
    };
  },
  all_durable ms batch,
)

-- The callback of `catch`; the flag says that the error is the timeout.
abbrev pub append_fails : Bool → List Item → ReceiptQueue → ReceiptQueue × List Notice
append_fails timed_out batch q = (
  sync_depth (record q {
    running = settled;
    fail_closed = some flush_failed;
    queue = [];
    queued_bytes = 0;
    metrics = record q.metrics {
      flush_failures = q.metrics.flush_failures + 1;
      flush_timeouts = q.metrics.flush_timeouts + (if timed_out then 1 else 0);
    };
  }),
  all_rejected batch ++ all_rejected q.queue,
)

-- The callback of `finally`.
unfoldable pub finish_flush : ReceiptQueue → ReceiptQueue
finish_flush q =
    let q' = record q { running = no_flush; flush_active = false } in
    elim q.fail_closed [
      | some r ↦ q'
      | none ↦ if is_empty q.queue then q' else flush_or_schedule q'
    ]

pub data Event : Type 0 where
  starts : Event
  enqueues : Value → Event
  timer_fires : Event
  append_done : ℕ → Event
  append_failed : Bool → Event
  flush_finishes : Event
  shutdown_begins : Event
  shutdown_polls : Event
  shutdown_expires : Event

abbrev pub expire : ReceiptQueue → ReceiptQueue
expire q =
    if is_empty q.queue && not q.flush_active
    then q
    else record q { fail_closed = some flush_failed }

-- One event. One that cannot happen in the state, such as the end of an append that does not run,
-- changes nothing.
unfoldable pub step : Event → ReceiptQueue → ReceiptQueue × List Notice
step starts q = (record q { started = true }, [])
step (enqueues receipt) q = enqueue receipt q
step timer_fires q = if q.timer then (flush (record q { timer = false }), []) else (q, [])
step (append_done ms) q = elim q.running [
  | appending batch ↦ append_succeeds ms batch q
  | _ ↦ (q, [])
]
step (append_failed timed_out) q = elim q.running [
  | appending batch ↦ append_fails timed_out batch q
  | _ ↦ (q, [])
]
step flush_finishes q = elim q.running [ settled ↦ (finish_flush q, []) | _ ↦ (q, []) ]
step shutdown_begins q = (record q { closed = true; timer = false }, [])
step shutdown_polls q = if q.closed then (flush q, []) else (q, [])
step shutdown_expires q = if q.closed then (expire q, []) else (q, [])

unfoldable pub run : List Event → ReceiptQueue → ReceiptQueue × List Notice
run [] q = (q, [])
run (e ∷ es) q =
    let (q', notices) = step e q in let (q'', later) = run es q' in (q'', notices ++ later)
