-- ===== src/Sidecar/ReceiptQueue/Rounds.antt =====
-- sidecar/receipt_persistence_queue.mjs: the work that is left while appends succeed.
use aegisone_core.Prelude.{
  ℕ, zero, suc, ◌+◌, ◌*◌, ◌-◌, ◌≤◌, ◌<◌, ◌≡◌, refl, Bool, true, false, ◌||◌, List, [], ◌∷◌, ◌++◌,
  Option, none, some, arith, length, is_empty, length-drop, if◌then◌else◌, leb, if-cases,
}
use aegisone_core.Sidecar.ReceiptQueue.{
  Reason, Item, Flush, no_flush, appending, settled, ReceiptQueue, Notice, flush, flush_or_schedule,
  finish_flush, begin_flush, schedule_flush, Event, timer_fires, append_done, flush_finishes,
  shutdown_polls, step,
}
use aegisone_core.Sidecar.ReceiptQueue.Counted.{
  IsSound, IsCounted, is_running, has_failed, retime, rerun,
}
use aegisone_core.Sidecar.ReceiptQueue.Invariant.{
  step-IsSound, flush-IsSound, finish_flush-IsSound, flush_or_schedule-IsSound,
}

-- The timer and the shutdown get their turn, an append ends well, and its flush finishes.
abbrev pub round : ℕ → List Event
round ms = timer_fires ∷ shutdown_polls ∷ append_done ms ∷ flush_finishes ∷ []

abbrev pub rounds : ℕ → ℕ → List Event
rounds ms zero = []
rounds ms (suc n) = round ms ++ rounds ms n

-- What is left to do.
abbrev pub work : ReceiptQueue → ℕ
work q = 2 * length q.queue + (if is_running q.running then 1 else 0)

pub record CanDrain (q : ReceiptQueue) (w : ℕ) : Type 0 where
  pub sound : IsSound q
  pub fills : 0 < q.config.max_batch_size
  pub healthy : has_failed q ≡ false
  pub within : work q ≤ w

pub relax : {q : ReceiptQueue} {w k : ℕ} → w ≤ k → CanDrain q w → CanDrain q k
relax h d = record {
  sound = d.sound;
  fills = d.fills;
  healthy = d.healthy;
  within = omega (arith, h, d.within);
}

abbrev pub is_taken : ReceiptQueue → Bool
is_taken q = is_running q.running || is_empty q.queue

pub length_pos : (is : List Item) → is_empty is ≡ false → 0 < length is
length_pos [] h = ground arith
length_pos (i ∷ is) h = omega arith

pub length_none : (is : List Item) → is_empty is ≡ true → length is ≡ 0
length_none [] h = refl
length_none (i ∷ is) h = ground arith

pub begin_flush-work :
    (q : ReceiptQueue)
    → 0 < q.config.max_batch_size
    → is_empty q.queue ≡ false
    → work (begin_flush q) < 2 * length q.queue
begin_flush-work q fills some_left =
    omega (arith, length-drop q.config.max_batch_size q.queue, length_pos q.queue some_left)

pub flush-CanDrain :
    (q : ReceiptQueue) (w : ℕ)
    → IsCounted q
    → 0 < q.config.max_batch_size
    → has_failed q ≡ false
    → work q ≤ w
    → CanDrain (flush q) w × (is_taken (flush q) ≡ true)
unfolding flush
flush-CanDrain q w v fills healthy within =
    let sound = flush-IsSound q v in
    if-cases (λ r. IsSound r → CanDrain r w × (is_taken r ≡ true))
      (q.flush_active || is_empty q.queue) q (begin_flush q)
      (λ e u. (
        record { sound = u; fills = fills; healthy = healthy; within = within },
        ground (arith, e, v.busy),
      ))
      (λ e u. (
        record {
          sound = u;
          fills = fills;
          healthy = healthy;
          within = omega (arith, within, begin_flush-work q fills (ground (arith, e)));
        },
        refl,
      ))
      sound

pub timer_fires-CanDrain :
    (q : ReceiptQueue) (w : ℕ)
    → CanDrain q w
    → let q' = (step timer_fires q).0 in CanDrain q' w × (is_taken q' || q'.closed ≡ true)
unfolding step
timer_fires-CanDrain q w d =
    if-cases
      (λ (r : ReceiptQueue × List Notice). CanDrain r.0 w × (is_taken r.0 || r.0.closed ≡ true))
      q.timer _ _
      (λ e.
        let (d', t) =
          flush-CanDrain (record q { timer = false }) w (retime d.sound.counted false) d.fills
            d.healthy d.within in
        (d', ground (arith, t)))
      (λ e. (d, ground (arith, e, d.sound.driven, d.sound.counted.busy)))

pub shutdown_polls-CanDrain :
    (q : ReceiptQueue) (w : ℕ)
    → CanDrain q w
    → is_taken q || q.closed ≡ true
    → let q' = (step shutdown_polls q).0 in CanDrain q' w × (is_taken q' ≡ true)
unfolding step
shutdown_polls-CanDrain q w d t =
    if-cases (λ (r : ReceiptQueue × List Notice). CanDrain r.0 w × (is_taken r.0 ≡ true)) q.closed _
      _ (λ e. flush-CanDrain q w d.sound.counted d.fills d.healthy d.within)
      (λ e. (d, ground (arith, t, e)))

-- A flush whose append has ended, or nothing to do.
abbrev pub can_finish : ReceiptQueue → Bool
can_finish q = elim q.running [
  | settled ↦ true
  | appending batch ↦ false
  | no_flush ↦ is_empty q.queue
]

pub append_done-CanDrain :
    (ms : ℕ) (f : Flush) (q : ReceiptQueue) (w : ℕ)
    → let q1 = record q { running = f } in
      CanDrain q1 w
      → is_taken q1 ≡ true
      → let q' = (step (append_done ms) q1).0 in CanDrain q' w × (can_finish q' ≡ true)
unfolding step
append_done-CanDrain ms no_flush q w d t = (d, t)
append_done-CanDrain ms settled q w d t = (d, refl)
append_done-CanDrain ms (appending batch) q w d t = (
  record {
    sound = step-IsSound (append_done ms) _ d.sound;
    fills = d.fills;
    healthy = d.healthy;
    within = d.within;
  },
  refl,
)

pub flush_or_schedule-CanDrain :
    (q : ReceiptQueue) (w : ℕ)
    → IsCounted q
    → 0 < q.config.max_batch_size
    → has_failed q ≡ false
    → work q ≤ w
    → CanDrain (flush_or_schedule q) w
unfolding flush_or_schedule
flush_or_schedule-CanDrain q w v fills healthy within =
    if-cases (λ r. IsSound r → CanDrain r w) (leb q.config.max_batch_size (length q.queue))
      (flush q) (schedule_flush q) (λ e u. (flush-CanDrain q w v fills healthy within).0)
      (λ e u. record { sound = u; fills = fills; healthy = healthy; within = within })
      (flush_or_schedule-IsSound q v)

pub finish_flush-CanDrain :
    (failure : Option Reason) (q : ReceiptQueue) (w : ℕ)
    → let q1 = record q { running = settled; fail_closed = failure } in
      CanDrain q1 w → CanDrain (finish_flush q1) (w - 1)
unfolding finish_flush
finish_flush-CanDrain (some r) q w d = ground (arith, d.healthy)
finish_flush-CanDrain none q w d =
    let q' = record q { running = no_flush; flush_active = false; fail_closed = none } in
    if-cases (λ r. IsSound r → CanDrain r (w - 1)) (is_empty q.queue) q' (flush_or_schedule q')
      (λ e u. record {
        sound = u;
        fills = d.fills;
        healthy = refl;
        within = omega (arith, d.within);
      })
      (λ e u.
        flush_or_schedule-CanDrain q' (w - 1) (rerun d.sound.counted no_flush false refl) d.fills
          refl (omega (arith, d.within)))
      (finish_flush-IsSound none (record q { running = settled }) d.sound)

pub flush_finishes-CanDrain :
    (f : Flush) (q : ReceiptQueue) (w : ℕ)
    → let q1 = record q { running = f } in
      CanDrain q1 w → can_finish q1 ≡ true → CanDrain (step flush_finishes q1).0 (w - 1)
unfolding step
flush_finishes-CanDrain no_flush q w d t = record {
  sound = d.sound;
  fills = d.fills;
  healthy = d.healthy;
  within = omega (arith, length_none q.queue t);
}
flush_finishes-CanDrain settled q w d t = finish_flush-CanDrain q.fail_closed q w d
flush_finishes-CanDrain (appending batch) q w d t = ground (arith, t)
