-- ===== src/Sidecar/WorkerPool/Dispatch.antt =====
-- sidecar/deterministic_worker_pool.mjs: `#dispatch` gives each task that it takes to a free worker.
use aegisone_core.Prelude.{
  ℕ, ◌+◌, ◌-◌, ◌≡◌, refl, true, List, [], ◌∷◌, none, some, arith, if◌then◌else◌, ◌==◌, length, ◌||◌,
  ap, Option-cases, inl, inr, is_empty, ◌∙◌,
}
use aegisone_core.Sidecar.WorkerPool.State.{
  Task, WorkerState, Pool, state_at, set_state, assign, dispatch_loop,
}
use aegisone_core.Sidecar.WorkerPool.Counting.{
  on_task, active_count, queued_count, is_free, IsIdle, active_count-set_state, IsIdle-set_state,
}

pub free_state :
    (u : ℕ) (ws : List WorkerState)
    → is_free u ws ≡ true
    → (w : WorkerState) × (state_at u ws ≡ some w) × (w.active_task ≡ none)
free_state u ws h = elim (Option-cases (state_at u ws)) [
  | inl e ↦ ground (arith, e)
  | inr (w, e) ↦ elim (Option-cases w.active_task) [
    | inl n ↦ (w, e, n)
    | inr (a, n) ↦ ground (arith, e, n)
  ]
]

-- What a part of the pool that hands out tasks keeps: it neither loses nor doubles a task.
pub record Hands (p : Pool) (us : List ℕ) (ts : List Task) (r : Pool) : Type 0 where
  pub counted :
      (id : ℕ)
      → active_count id r.states + queued_count id r.queue
        ≡ active_count id p.states + queued_count id ts
  pub idle_free : IsIdle r.states r.idle
  pub same_config : r.config ≡ p.config
  pub same_next : r.next_task_id ≡ p.next_task_id
  pub same_closed : r.closed ≡ p.closed
  pub same_workers : r.workers ≡ p.workers
  pub settled : is_empty r.idle || is_empty r.queue ≡ true
  pub left : length r.queue ≡ length ts - length us

-- The effect of `assign`.
record Assigned (now u : ℕ) (t : Task) (p : Pool) : Type 0 where
  state : WorkerState
  replaced : (assign now u t p).states ≡ set_state u state p.states
  counted :
      (id : ℕ)
      → active_count id (set_state u state p.states)
        ≡ active_count id p.states + (if t.id == id then 1 else 0)
  same_config : (assign now u t p).config ≡ p.config
  same_next : (assign now u t p).next_task_id ≡ p.next_task_id
  same_closed : (assign now u t p).closed ≡ p.closed
  same_workers : (assign now u t p).workers ≡ p.workers

assigned : (now u : ℕ) (t : Task) (p : Pool) → is_free u p.states ≡ true → Assigned now u t p
assigned now u t p f =
    let (w, e, n) = free_state u p.states f in
    let v : WorkerState = record w {
      busy = true;
      active_task =
          some (record { task = t; started_at_ms = now; queue_wait_ms = now - t.enqueued_at_ms });
    } in
    record {
      state = v;
      replaced = rw (e, assign) refl;
      counted = λ id.
          let none_before : on_task id w.active_task ≡ 0 = rw n refl in
          omega (arith, active_count-set_state id u w v p.states e, none_before);
      same_config = rw (e, assign) refl;
      same_next = rw (e, assign) refl;
      same_closed = rw (e, assign) refl;
      same_workers = rw (e, assign) refl;
    }

pub dispatch_loop-Hands :
    (now : ℕ) (us : List ℕ) (ts : List Task) (p : Pool)
    → IsIdle p.states us
    → Hands p us ts (dispatch_loop now us ts p)
dispatch_loop-Hands now [] ts p i = record {
  counted = λ id. refl;
  idle_free = tt;
  same_config = refl;
  same_next = refl;
  same_closed = refl;
  same_workers = refl;
  settled = refl;
  left = omega arith;
}
dispatch_loop-Hands now (u ∷ us) [] p i = record {
  counted = λ id. refl;
  idle_free = i;
  same_config = refl;
  same_next = refl;
  same_closed = refl;
  same_workers = refl;
  settled = refl;
  left = omega arith;
}
dispatch_loop-Hands now (u ∷ us) (t ∷ ts) p (f, n, i) =
    let a = assigned now u t p f in
    let kept : IsIdle (assign now u t p).states us =
      rw a.replaced (IsIdle-set_state u a.state p.states us n i) in
    let h = dispatch_loop-Hands now us ts (assign now u t p) kept in
    record {
      counted = λ id.
          let moved = ap (active_count id) a.replaced in
          omega (arith, h.counted id, a.counted id, moved);
      idle_free = h.idle_free;
      same_config = h.same_config ∙ a.same_config;
      same_next = h.same_next ∙ a.same_next;
      same_closed = h.same_closed ∙ a.same_closed;
      same_workers = h.same_workers ∙ a.same_workers;
      settled = h.settled;
      left = omega (arith, h.left);
    }
