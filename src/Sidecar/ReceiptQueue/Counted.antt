-- ===== src/Sidecar/ReceiptQueue/Counted.antt =====
-- sidecar/receipt_persistence_queue.mjs: the counters of the queue, and the changes that leave them
-- alone.
use aegisone_core.Prelude.{
  ℕ, zero, suc, ◌+◌, ◌-◌, ◌≤◌, ◌≡◌, refl, Bool, true, false, not, ◌||◌, List, [], ◌∷◌, ◌++◌, none,
  some, arith, length, take, drop, is_empty, length-drop, append-take-drop, ap, ◌∙◌,
}
use aegisone_core.Sidecar.ReceiptQueue.Config.{QueueConfig}
use aegisone_core.Sidecar.ReceiptQueue.{
  Item, Flush, Metrics, no_flush, ReceiptQueue, total_bytes, new_queue, begin_flush,
}

abbrev pub is_running : Flush → Bool
is_running no_flush = false
is_running _ = true

abbrev pub has_failed : ReceiptQueue → Bool
has_failed q = elim q.fail_closed [ none ↦ false | some r ↦ true ]

pub total_bytes-append :
    (xs ys : List Item) → total_bytes (xs ++ ys) ≡ total_bytes xs + total_bytes ys
total_bytes-append [] ys = omega arith
total_bytes-append (x ∷ xs) ys = omega (arith, total_bytes-append xs ys)

pub total_bytes-drop :
    (n : ℕ) (is : List Item) → total_bytes (drop n is) ≡ total_bytes is - total_bytes (take n is)
total_bytes-drop n is =
    omega
      (arith, ap total_bytes (append-take-drop n is), total_bytes-append (take n is) (drop n is))

pub is_empty-drop :
    (n : ℕ) (is : List Item) (b : Bool) → is_empty is || b ≡ true → is_empty (drop n is) || b ≡ true
is_empty-drop zero is b h = h
is_empty-drop (suc n) [] b h = refl
is_empty-drop (suc n) (i ∷ is) b h = ground arith

-- The counters agree with the queue, its peaks lie between what it holds and the configuration, a
-- flush is active exactly while its promise runs, and a queue that has failed is empty or closed.
pub record IsCounted (q : ReceiptQueue) : Type 0 where
  pub busy : q.flush_active ≡ is_running q.running
  pub bytes : q.queued_bytes ≡ total_bytes q.queue
  pub items_within : length q.queue ≤ q.config.max_items
  pub bytes_within : q.queued_bytes ≤ q.config.max_bytes
  pub depth_synced : q.metrics.queue_depth ≡ length q.queue
  pub bytes_synced : q.metrics.queue_bytes ≡ q.queued_bytes
  pub depth_seen : length q.queue ≤ q.metrics.max_queue_depth
  pub bytes_seen : q.queued_bytes ≤ q.metrics.max_queue_bytes
  pub depth_peak : q.metrics.max_queue_depth ≤ q.config.max_items
  pub bytes_peak : q.metrics.max_queue_bytes ≤ q.config.max_bytes
  pub failed : not (has_failed q) || (is_empty q.queue || q.closed) ≡ true

-- Where the queue waits, its timer is set, a flush is active, or it is closed.
abbrev pub IsDriven : ReceiptQueue → Type 0
IsDriven q = is_empty q.queue || (q.timer || (q.flush_active || q.closed)) ≡ true

pub record IsSound (q : ReceiptQueue) : Type 0 where
  pub counted : IsCounted q
  pub driven : IsDriven q

pub new_queue-IsSound : (c : QueueConfig) → IsSound (new_queue c)
unfolding new_queue
new_queue-IsSound c = record {
  counted = record {
    busy = refl;
    bytes = refl;
    items_within = omega arith;
    bytes_within = omega arith;
    depth_synced = refl;
    bytes_synced = refl;
    depth_seen = omega arith;
    bytes_seen = omega arith;
    depth_peak = omega arith;
    bytes_peak = omega arith;
    failed = refl;
  };
  driven = refl;
}

pub begin_flush-IsCounted : (q : ReceiptQueue) → IsCounted q → IsCounted (begin_flush q)
begin_flush-IsCounted q v =
    let n = q.config.max_batch_size in
    let fewer = length-drop n q.queue in
    record {
      busy = refl;
      bytes = omega (arith, total_bytes-drop n q.queue, v.bytes);
      items_within = omega (arith, fewer, v.items_within);
      bytes_within = omega (arith, v.bytes_within);
      depth_synced = refl;
      bytes_synced = refl;
      depth_seen = omega arith;
      bytes_seen = omega arith;
      depth_peak = omega (arith, fewer, v.items_within, v.depth_peak);
      bytes_peak = omega (arith, v.bytes_within, v.bytes_peak);
      failed = ground (arith, v.failed, is_empty-drop n q.queue q.closed);
    }

-- What the counters of the queue are not about may change.
module _ {q : ReceiptQueue} (v : IsCounted q) where
  pub touch :
      (timer started : Bool) (m : Metrics)
      → m.queue_depth ≡ q.metrics.queue_depth
      → m.queue_bytes ≡ q.metrics.queue_bytes
      → m.max_queue_depth ≡ q.metrics.max_queue_depth
      → m.max_queue_bytes ≡ q.metrics.max_queue_bytes
      → IsCounted (record q { timer = timer; started = started; metrics = m })
  touch timer started m d b dp bp = record {
    busy = v.busy;
    bytes = v.bytes;
    items_within = v.items_within;
    bytes_within = v.bytes_within;
    depth_synced = d ∙ v.depth_synced;
    bytes_synced = b ∙ v.bytes_synced;
    depth_seen = rw dp v.depth_seen;
    bytes_seen = rw bp v.bytes_seen;
    depth_peak = rw dp v.depth_peak;
    bytes_peak = rw bp v.bytes_peak;
    failed = v.failed;
  }

  pub retime : (timer : Bool) → IsCounted (record q { timer = timer })
  retime timer = touch timer q.started q.metrics refl refl refl refl

  pub rerun :
      (running : Flush) (active : Bool)
      → active ≡ is_running running
      → IsCounted (record q { running = running; flush_active = active })
  rerun running active e = record {
    busy = e;
    bytes = v.bytes;
    items_within = v.items_within;
    bytes_within = v.bytes_within;
    depth_synced = v.depth_synced;
    bytes_synced = v.bytes_synced;
    depth_seen = v.depth_seen;
    bytes_seen = v.bytes_seen;
    depth_peak = v.depth_peak;
    bytes_peak = v.bytes_peak;
    failed = v.failed;
  }

  pub close : IsCounted (record q { closed = true })
  close = record {
    busy = v.busy;
    bytes = v.bytes;
    items_within = v.items_within;
    bytes_within = v.bytes_within;
    depth_synced = v.depth_synced;
    bytes_synced = v.bytes_synced;
    depth_seen = v.depth_seen;
    bytes_seen = v.bytes_seen;
    depth_peak = v.depth_peak;
    bytes_peak = v.bytes_peak;
    failed = ground arith;
  }
