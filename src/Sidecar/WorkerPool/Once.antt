-- ===== src/Sidecar/WorkerPool/Once.antt =====
-- sidecar/deterministic_worker_pool.mjs: each task's promise is resolved at most once.
use aegisone_core.Prelude.{
  ℕ, ◌+◌, ◌-◌, ◌≤◌, ◌<◌, ◌≡◌, refl, Str, true, false, List, [], ◌∷◌, ◌++◌, arith, if◌then◌else◌,
  ◌==◌, length, ◌||◌, ◌&&◌, ap, Option-cases, Bool-cases, inl, inr, is_empty, ◌∙◌, if-cases, sym,
  leb, length-append,
}
use aegisone_core.Sidecar.WorkerPool.State.{
  PoolConfig, Task, Pool, new_pool, state_at, dispatch, start, sync_depth,
}
use aegisone_core.Sidecar.WorkerPool.Counting.{queued_count, queued_count-append}
use aegisone_core.Sidecar.WorkerPool.Retire.{start-Frees, start_staffs}
use aegisone_core.Sidecar.WorkerPool.{
  Notice, accepted, enqueue, submit, dismiss, Event, starts, submits, messages, errors, exits,
  times_out, shutdown_begins, shutdown_ends, step, run,
}
use aegisone_core.Sidecar.WorkerPool.Valid.{
  open_count, issued, resolved_count, IsValid, Keeps, dispatch-Hands, same-Keeps,
  handle_message-Keeps, handle_worker_failure-Keeps, handle_task_timeout-Keeps, handle_exit-Keeps,
}

dismiss_count : (ts : List Task) (id : ℕ) → resolved_count id (dismiss ts) ≡ queued_count id ts
dismiss_count [] id = refl
dismiss_count (t ∷ ts) id = omega (arith, dismiss_count ts id)

start_settled : (p : Pool) → IsValid p → is_empty (start p).idle || is_empty (start p).queue ≡ true
unfolding start
start_settled p v =
    let f = start-Frees p v.idle_free in
    let same = ap is_empty f.same_queue in
    elim (Bool-cases (is_empty p.workers)) [
      | inl e ↦ let none_waits = v.staffed e in ground (arith, same, none_waits)
      | inr e ↦ rw (start, e) v.settled
    ]

-- A started pool is valid.
start-Keeps : (p : Pool) → IsValid p → Keeps p (start p, [])
start-Keeps p v =
    let f = start-Frees p v.idle_free in
    let queue_same = ap length f.same_queue in
    let config_same = ap (λ c. c.max_queue_depth) f.same_config in
    let count_same = ap (λ c. c.worker_count) f.same_config in
    let some_worker = start_staffs p v.count_pos in
    record {
      valid = record {
        idle_free = f.idle_free;
        next_pos = omega (arith, v.next_pos, f.same_next);
        settled = start_settled p v;
        queue_within = omega (arith, v.queue_within, queue_same, config_same);
        count_pos = omega (arith, v.count_pos, count_same);
        staffed = λ x. ground (arith, x, some_worker);
        drained = λ x. ap is_empty f.same_queue ∙ v.drained (sym f.same_closed ∙ x);
      };
      balanced = λ id.
          let queued = ap (queued_count id) f.same_queue in
          let next = ap (issued id) f.same_next in omega (arith, f.counted id, queued, next);
    }

issued_next :
    (id next : ℕ) → 0 < next → issued id (next + 1) ≡ issued id next + (if next == id then 1 else 0)
issued_next id next h = ground arith

-- The queue that a dispatch leaves of an accepted task fits.
queue_fits :
    (idle : List ℕ) (ts : List Task) (t : Task) (m n : ℕ)
    → is_empty idle && leb m (length ts) ≡ false
    → is_empty idle || is_empty ts ≡ true
    → n ≡ length (ts ++ (t ∷ [])) - length idle
    → n ≤ m
queue_fits [] ts t m n room settled h =
    let longer = length-append ts (t ∷ []) in ground (arith, room, h, longer)
queue_fits (u ∷ us) [] t m n room settled h = omega (arith, h)
queue_fits (u ∷ us) (x ∷ ts) t m n room settled h = ground (arith, settled)

accept-Keeps :
    (raw : Str) (now : ℕ) (p : Pool)
    → p.closed ≡ false
    → IsValid p
    → is_empty p.workers ≡ false
    → is_empty p.idle && leb p.config.max_queue_depth (length p.queue) ≡ false
    → Keeps p (dispatch now (enqueue raw now p), accepted p.next_task_id ∷ [])
accept-Keeps raw now p op v some_worker room =
    let t : Task = record { id = p.next_task_id; raw_input = raw; enqueued_at_ms = now } in
    let h = dispatch-Hands now (enqueue raw now p) v.idle_free in
    let config_same = ap (λ c. c.max_queue_depth) h.same_config in
    let count_same = ap (λ c. c.worker_count) h.same_config in
    record {
      valid = record {
        idle_free = h.idle_free;
        next_pos = omega (arith, h.same_next);
        settled = h.settled;
        queue_within =
            rw config_same
              (queue_fits p.idle p.queue t p.config.max_queue_depth _ room v.settled h.left);
        count_pos = omega (arith, v.count_pos, count_same);
        staffed =
            λ x. let same = ap is_empty h.same_workers in ground (arith, x, same, some_worker);
        drained = λ x. let same = h.same_closed in ground (arith, x, same, op);
      };
      balanced = λ id.
          let next = ap (issued id) h.same_next in
          omega (
            arith,
            h.counted id,
            next,
            issued_next id p.next_task_id v.next_pos,
            queued_count-append id p.queue t,
          );
    }

Keeps-trans : (p q : Pool) (r : Pool × List Notice) → Keeps p (q, []) → Keeps q r → Keeps p r
Keeps-trans p q r a b = record {
  valid = b.valid;
  balanced = λ id. omega (arith, a.balanced id, b.balanced id);
}

submit-Keeps : (raw : Str) (now : ℕ) (p : Pool) → IsValid p → Keeps p (submit raw now p)
unfolding submit
submit-Keeps raw now p v =
    let q = start p in
    let s = start-Keeps p v in
    let w = s.valid in
    let f = start-Frees p v.idle_free in
    if-cases (Keeps p) p.closed _ _ (λ e. same-Keeps p _ v (λ id. refl))
      λ e.
        if-cases (Keeps p) (is_empty q.idle && leb q.config.max_queue_depth (length q.queue)) _ _
          (λ full. Keeps-trans p q _ s (record {
            valid = record {
              idle_free = w.idle_free;
              next_pos = w.next_pos;
              settled = w.settled;
              queue_within = w.queue_within;
              count_pos = w.count_pos;
              staffed = w.staffed;
              drained = w.drained;
            };
            balanced = λ id. omega arith;
          }))
          (λ room.
            Keeps-trans p q _ s
              (accept-Keeps raw now q (f.same_closed ∙ e) w (start_staffs p v.count_pos) room))

shutdown_begins-Keeps :
    (p : Pool) → IsValid p → Keeps p (record p { closed = true; queue = [] }, dismiss p.queue)
shutdown_begins-Keeps p v = record {
  valid = record {
    idle_free = v.idle_free;
    next_pos = v.next_pos;
    settled = ground arith;
    queue_within = omega arith;
    count_pos = v.count_pos;
    staffed = λ x. refl;
    drained = λ x. refl;
  };
  balanced = λ id. omega (arith, dismiss_count p.queue id);
}

shutdown_ends-Keeps :
    (p : Pool)
    → IsValid p
    → p.closed ≡ true
    → Keeps p (sync_depth (record p { workers = []; idle = [] }), [])
shutdown_ends-Keeps p v e = record {
  valid = record {
    idle_free = tt;
    next_pos = v.next_pos;
    settled = refl;
    queue_within = v.queue_within;
    count_pos = v.count_pos;
    staffed = λ x. v.drained e;
    drained = v.drained;
  };
  balanced = λ id. omega arith;
}

step-Keeps : (e : Event) (p : Pool) → IsValid p → Keeps p (step e p)
unfolding step
step-Keeps starts p v = start-Keeps p v
step-Keeps (submits raw now) p v = submit-Keeps raw now p v
step-Keeps (messages u m now) p v = elim (Option-cases (state_at u p.states)) [
  | inl n ↦ rw (n, step) (same-Keeps p [] v (λ id. refl))
  | inr (w, n) ↦ rw (n, step) (handle_message-Keeps u w m now p n v)
]
step-Keeps (errors u error now) p v = elim (Option-cases (state_at u p.states)) [
  | inl n ↦ rw (n, step) (same-Keeps p [] v (λ id. refl))
  | inr (w, n) ↦ rw (n, step) (handle_worker_failure-Keeps u w error now p n v)
]
step-Keeps (exits u code now) p v = elim (Option-cases (state_at u p.states)) [
  | inl n ↦ rw (n, step) (same-Keeps p [] v (λ id. refl))
  | inr (w, n) ↦ rw (n, step) (handle_exit-Keeps u w code now p n v)
]
step-Keeps (times_out u id now) p v = elim (Option-cases (state_at u p.states)) [
  | inl n ↦ rw (n, step) (same-Keeps p [] v (λ j. refl))
  | inr (w, n) ↦ rw (n, step) (handle_task_timeout-Keeps u w id now p n v)
]
step-Keeps shutdown_begins p v = shutdown_begins-Keeps p v
step-Keeps shutdown_ends p v =
    if-cases (Keeps p) p.closed _ _ (shutdown_ends-Keeps p v) (λ e. same-Keeps p [] v (λ id. refl))

resolved_count-append :
    (id : ℕ) (ns ms : List Notice)
    → resolved_count id (ns ++ ms) ≡ resolved_count id ns + resolved_count id ms
resolved_count-append id [] ms = omega arith
resolved_count-append id (n ∷ ns) ms = omega (arith, resolved_count-append id ns ms)

run-Keeps : (es : List Event) (p : Pool) → IsValid p → Keeps p (run es p)
unfolding run
run-Keeps [] p v = same-Keeps p [] v (λ id. refl)
run-Keeps (e ∷ es) p v =
    let k = step-Keeps e p v in
    let l = run-Keeps es (step e p).0 k.valid in
    record {
      valid = l.valid;
      balanced = λ id. omega (
        arith,
        k.balanced id,
        l.balanced id,
        resolved_count-append id (step e p).1 (run es (step e p).0).1,
      );
    }

new_pool-IsValid : (c : PoolConfig) → 0 < c.worker_count → IsValid (new_pool c)
unfolding new_pool
new_pool-IsValid c h = record {
  idle_free = tt;
  next_pos = omega arith;
  settled = refl;
  queue_within = omega arith;
  count_pos = h;
  staffed = λ x. refl;
  drained = λ x. refl;
}

new_open :
    (c : PoolConfig) (id : ℕ)
    → (open_count id (new_pool c) ≡ 0) × (issued id (new_pool c).next_task_id ≡ 0)
unfolding new_pool
new_open c id = (refl, ground arith)

-- Whatever happens to a new pool that may have workers, it stays valid: idle workers have no task
-- and stand in the idle list once, no task waits while a worker is idle, and the queue keeps to its
-- limit.
pub run-new_pool-IsValid :
    (c : PoolConfig) (es : List Event) → 0 < c.worker_count → IsValid (run es (new_pool c)).0
run-new_pool-IsValid c es h = (run-Keeps es (new_pool c) (new_pool-IsValid c h)).valid

-- Whatever happens to a new pool that may have workers, the promise of each task that it has issued
-- is either resolved once or still open in one place, with a worker or in the queue, and no other
-- promise is ever resolved.
pub run-resolves_once :
    (c : PoolConfig) (es : List Event) (id : ℕ)
    → 0 < c.worker_count
    → let (p, ns) = run es (new_pool c) in
      resolved_count id ns + open_count id p ≡ issued id p.next_task_id
run-resolves_once c es id h =
    let k = run-Keeps es (new_pool c) (new_pool-IsValid c h) in
    let none_open = new_open c id in omega (arith, k.balanced id, none_open)
