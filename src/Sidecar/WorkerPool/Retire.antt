-- ===== src/Sidecar/WorkerPool/Retire.antt =====
-- sidecar/deterministic_worker_pool.mjs: what the steps of the handlers do to the tasks that are
-- open, before the dispatch.
use aegisone_core.Prelude.{
  ℕ, zero, suc, ◌+◌, ◌-◌, ◌<◌, ◌⊎◌, ◌≡◌, refl, true, false, List, [], ◌∷◌, ◌++◌, Option, none, some,
  arith, if◌then◌else◌, length, ◌||◌, ap, inl, inr, is_empty, ◌∙◌, if-cases, sym,
}
use aegisone_core.Sidecar.WorkerPool.State.{
  ActiveTask, WorkerState, Pool, state_at, has, add_worker, add_workers, start, without, replace,
}
use aegisone_core.Sidecar.WorkerPool.Counting.{
  on_task, active_count, is_free, IsIdle, active_count-set_state, IsIdle-set_state, IsIdle-push,
  IsIdle-without, IsIdle-add_worker, has-without_self, active_count-append, has_not_free,
  is_free-set_state,
}
use aegisone_core.Sidecar.WorkerPool.{Message, complete, retire, stop_worker, add_replacement}

-- `q` is `p` with the active tasks of one worker closed.
pub record Frees (o : Option ActiveTask) (p q : Pool) : Type 0 where
  pub counted : (id : ℕ) → active_count id q.states + on_task id o ≡ active_count id p.states
  pub idle_free : IsIdle q.states q.idle
  pub same_queue : q.queue ≡ p.queue
  pub same_next : q.next_task_id ≡ p.next_task_id
  pub same_config : q.config ≡ p.config
  pub same_closed : q.closed ≡ p.closed
  pub staffed : is_empty q.workers ≡ true → is_empty p.workers ≡ true

is_empty-push : (us : List ℕ) (u : ℕ) → ¬ (is_empty (us ++ (u ∷ [])) ≡ true)
is_empty-push [] u h = ground (arith, h)
is_empty-push (x ∷ us) u h = ground (arith, h)

is_empty-replace : (u r : ℕ) (us : List ℕ) → is_empty (replace u r us) ≡ is_empty us
is_empty-replace u r [] = refl
is_empty-replace u r (x ∷ us) = ground arith

is_empty-replacement :
    (u r : ℕ) (us : List ℕ)
    → is_empty (if has u us then replace u r us else us ++ (r ∷ [])) ≡ true
    → is_empty us ≡ true
is_empty-replacement u r us =
    if-cases (λ vs. is_empty vs ≡ true → is_empty us ≡ true) (has u us) (replace u r us)
      (us ++ (r ∷ [])) (λ e h. sym (is_empty-replace u r us) ∙ h)
      (λ e h. absurd (is_empty-push us r h))

add_workers-Frees :
    (index n : ℕ) (p : Pool) → IsIdle p.states p.idle → Frees none p (add_workers index n p)
add_workers-Frees index zero p i = record {
  counted = λ id. omega arith;
  idle_free = i;
  same_queue = refl;
  same_next = refl;
  same_config = refl;
  same_closed = refl;
  staffed = λ h. h;
}
add_workers-Frees index (suc n) p i =
    let h =
      add_workers-Frees (index + 1) n (add_worker index p)
        (IsIdle-add_worker index (length p.states) p.states p.idle refl i) in
    record {
      counted = λ id. omega (arith, h.counted id, active_count-append id p.states index);
      idle_free = h.idle_free;
      same_queue = h.same_queue;
      same_next = h.same_next;
      same_config = h.same_config;
      same_closed = h.same_closed;
      staffed = λ x. absurd (is_empty-push p.workers _ (h.staffed x));
    }

pub start-Frees : (p : Pool) → IsIdle p.states p.idle → Frees none p (start p)
unfolding start
start-Frees p i =
    if-cases (Frees none p) (is_empty p.workers) (add_workers 0 p.config.worker_count p) p
      (λ e. add_workers-Frees 0 p.config.worker_count p i)
      (λ e. record {
        counted = λ id. omega arith;
        idle_free = i;
        same_queue = refl;
        same_next = refl;
        same_config = refl;
        same_closed = refl;
        staffed = λ h. h;
      })

-- A pool that may have workers has some once it is started.
pub start_staffs : (p : Pool) → 0 < p.config.worker_count → is_empty (start p).workers ≡ false
unfolding start
start_staffs p h =
    if-cases (λ q. is_empty q.workers ≡ false) (is_empty p.workers)
      (add_workers 0 p.config.worker_count p) p (λ e. added 0 p.config.worker_count p (inl h))
      (λ e. e)
  where
    added :
        (index n : ℕ) (q : Pool)
        → (0 < n) ⊎ (is_empty q.workers ≡ false)
        → is_empty (add_workers index n q).workers ≡ false
    added index zero q h = ground (arith, h)
    added index (suc n) q h =
        added (index + 1) n (add_worker index q)
          (inr (ground (arith, is_empty-push q.workers (length q.states))))

pub complete-Frees :
    (u : ℕ) (w : WorkerState) (a : ActiveTask) (m : Message) (now : ℕ) (p : Pool)
    → state_at u p.states ≡ some w
    → w.active_task ≡ some a
    → IsIdle p.states p.idle
    → Frees (some a) p (complete u w a m now p)
complete-Frees u w a m now p e k i =
    let q = complete u w a m now p in
    let busy_before : is_free u p.states ≡ false = ground (arith, e, k) in
    let away = has_not_free u p.states p.idle busy_before i in
    let v : WorkerState = record w {
      busy = false;
      active_task = none;
      throughput = w.throughput + 1;
      busy_ms_total = w.busy_ms_total + (now - a.started_at_ms);
    } in
    let kept = IsIdle-set_state u v p.states p.idle away i in
    record {
      counted = λ id.
          let before : on_task id w.active_task ≡ on_task id (some a) = ap (on_task id) k in
          omega (arith, active_count-set_state id u w v p.states e, before);
      idle_free =
          if-cases (IsIdle q.states) p.closed p.idle (p.idle ++ (u ∷ [])) (λ c. kept)
            (λ c.
              IsIdle-push u q.states p.idle (is_free-set_state u w v p.states e refl) away kept);
      same_queue = refl;
      same_next = refl;
      same_config = refl;
      same_closed = refl;
      staffed = λ h. h;
    }

stop_worker-Frees :
    (u : ℕ) (w : WorkerState) (p : Pool)
    → state_at u p.states ≡ some w
    → IsIdle p.states p.idle
    → Frees w.active_task p (stop_worker u w p)
stop_worker-Frees u w p e i = record {
  counted = λ id. omega (arith, active_count-set_state id u w _ p.states e);
  idle_free =
      IsIdle-set_state u _ p.states (without u p.idle) (has-without_self u p.idle)
        (IsIdle-without u p.states p.idle i);
  same_queue = refl;
  same_next = refl;
  same_config = refl;
  same_closed = refl;
  staffed = λ h. h;
}

pub retire-Frees :
    (u : ℕ) (w : WorkerState) (p : Pool)
    → state_at u p.states ≡ some w
    → IsIdle p.states p.idle
    → Frees w.active_task p (retire u w p)
retire-Frees u w p e i =
    let q = stop_worker u w p in
    let f = stop_worker-Frees u w p e i in
    if-cases (Frees w.active_task p) (p.closed || w.replacing) q (add_replacement u w.worker_id q)
      (λ c. f)
      λ c. record {
        counted = λ id. omega (arith, f.counted id, active_count-append id q.states w.worker_id);
        idle_free =
            IsIdle-add_worker w.worker_id (length q.states) q.states q.idle refl f.idle_free;
        same_queue = refl;
        same_next = refl;
        same_config = refl;
        same_closed = refl;
        staffed = λ h. is_empty-replacement u (length q.states) q.workers h;
      }
