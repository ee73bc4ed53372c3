-- ===== src/Sidecar/WorkerPool/Valid.antt =====
-- sidecar/deterministic_worker_pool.mjs: the handlers of the workers' events keep the pool valid and
-- account for each task.
use aegisone_core.Prelude.{
  ℕ, ◌+◌, ◌≤◌, ◌<◌, ◌≡◌, refl, Str, true, not, List, [], ◌∷◌, Option, none, some, arith,
  if◌then◌else◌, ◌==◌, length, ◌||◌, ◌&&◌, ap, Option-cases, Bool-cases, inl, inr, is_empty, ◌∙◌,
  if-cases, sym, ltb, ==_iff,
}
use aegisone_core.Sidecar.WorkerPool.State.{ActiveTask, WorkerState, Pool, state_at, dispatch}
use aegisone_core.Sidecar.WorkerPool.Counting.{on_task, active_count, queued_count, IsIdle}
use aegisone_core.Sidecar.WorkerPool.Dispatch.{Hands, dispatch_loop-Hands}
use aegisone_core.Sidecar.WorkerPool.Retire.{Frees, complete-Frees, retire-Frees}
use aegisone_core.Sidecar.WorkerPool.{
  Message, Notice, resolved, handle_message, handle_worker_failure, handle_task_timeout,
  handle_exit, complete, retire, count_failure, count_timeout, resolve_active, is_for,
}

-- How often the promise of a task is open, given out, and resolved.
abbrev pub open_count : ℕ → Pool → ℕ
open_count id p = active_count id p.states + queued_count id p.queue

abbrev pub issued : ℕ → ℕ → ℕ
issued id next = if ltb 0 id && ltb id next then 1 else 0

abbrev resolves : ℕ → Notice → ℕ
resolves id (resolved i o) = if i == id then 1 else 0
resolves id _ = 0

abbrev pub resolved_count : ℕ → List Notice → ℕ
resolved_count id [] = 0
resolved_count id (n ∷ ns) = resolves id n + resolved_count id ns

-- Idle workers have no task and stand in the idle list once; no task waits while a worker is idle,
-- before there are workers or once the pool is closed; and the queue keeps to its limit.
pub record IsValid (p : Pool) : Type 0 where
  pub idle_free : IsIdle p.states p.idle
  pub next_pos : 0 < p.next_task_id
  pub settled : is_empty p.idle || is_empty p.queue ≡ true
  pub queue_within : length p.queue ≤ p.config.max_queue_depth
  pub count_pos : 0 < p.config.worker_count
  pub staffed : is_empty p.workers ≡ true → is_empty p.queue ≡ true
  pub drained : p.closed ≡ true → is_empty p.queue ≡ true

-- A step keeps the pool valid, and a task that it resolves was open or is new.
pub record Keeps (p : Pool) (r : Pool × List Notice) : Type 0 where
  pub valid : IsValid r.0
  pub balanced :
      (id : ℕ)
      → open_count id p + issued id r.0.next_task_id
        ≡ open_count id r.0 + resolved_count id r.1 + issued id p.next_task_id

pub dispatch-Hands :
    (now : ℕ) (p : Pool) → IsIdle p.states p.idle → Hands p p.idle p.queue (dispatch now p)
unfolding dispatch
dispatch-Hands now p i =
    let h = dispatch_loop-Hands now p.idle p.queue p i in
    record {
      counted = h.counted;
      idle_free = h.idle_free;
      same_config = h.same_config;
      same_next = h.same_next;
      same_closed = h.same_closed;
      same_workers = h.same_workers;
      settled = h.settled;
      left = h.left;
    }

empty_of : {A : Type 0} (xs : List A) → length xs ≡ 0 → is_empty xs ≡ true
empty_of [] h = refl
empty_of (x ∷ xs) h = ground (arith, h)

pub length_of_empty : {A : Type 0} (xs : List A) → is_empty xs ≡ true → length xs ≡ 0
length_of_empty [] h = refl
length_of_empty (x ∷ xs) h = ground (arith, h)

-- The end of a handler: what it frees, it resolves, and then it dispatches.
pub release-Keeps :
    (o : Option ActiveTask) (now : ℕ) (p q : Pool) (ns : List Notice)
    → IsValid p
    → Frees o p q
    → ((id : ℕ) → resolved_count id ns ≡ on_task id o)
    → Keeps p (dispatch now q, ns)
release-Keeps o now p q ns v f same =
    let h = dispatch-Hands now q f.idle_free in
    let queue_same = ap length f.same_queue in
    let config_same = ap (λ c. c.max_queue_depth) (h.same_config ∙ f.same_config) in
    let count_same = ap (λ c. c.worker_count) (h.same_config ∙ f.same_config) in
    let fewer : is_empty p.queue ≡ true → is_empty (dispatch now q).queue ≡ true =
      λ x. empty_of _ (omega (arith, h.left, queue_same, length_of_empty p.queue x)) in
    let next_same = h.same_next ∙ f.same_next in
    record {
      valid = record {
        idle_free = h.idle_free;
        next_pos = omega (arith, v.next_pos, next_same);
        settled = h.settled;
        queue_within = omega (arith, v.queue_within, h.left, queue_same, config_same);
        count_pos = omega (arith, v.count_pos, count_same);
        staffed = λ x. fewer (v.staffed (f.staffed (sym (ap is_empty h.same_workers) ∙ x)));
        drained = λ x. fewer (v.drained (sym (h.same_closed ∙ f.same_closed) ∙ x));
      };
      balanced = λ id.
          let queued = ap (queued_count id) f.same_queue in
          let next = ap (issued id) next_same in
          omega (arith, h.counted id, f.counted id, same id, queued, next);
    }

pub same-Keeps :
    (p : Pool) (ns : List Notice)
    → IsValid p
    → ((id : ℕ) → resolved_count id ns ≡ 0)
    → Keeps p (p, ns)
same-Keeps p ns v n = record { valid = v; balanced = λ id. omega (arith, n id) }

pub count_failure-Keeps : (p : Pool) → IsValid p → Keeps p (count_failure p, [])
count_failure-Keeps p v = record {
  valid = record {
    idle_free = v.idle_free;
    next_pos = v.next_pos;
    settled = v.settled;
    queue_within = v.queue_within;
    count_pos = v.count_pos;
    staffed = v.staffed;
    drained = v.drained;
  };
  balanced = λ id. omega arith;
}

pub handle_message-Keeps :
    (u : ℕ) (w : WorkerState) (m : Message) (now : ℕ) (p : Pool)
    → state_at u p.states ≡ some w
    → IsValid p
    → Keeps p (handle_message u w m now p)
unfolding handle_message
handle_message-Keeps u w m now p e v = elim (Option-cases w.active_task) [
  | inl n ↦ rw (n, handle_message) (count_failure-Keeps p v)
  | inr (a, n) ↦ elim (Bool-cases (is_for m a.task.id)) [
    | inr b ↦ rw (n, handle_message, b) (count_failure-Keeps p v)
    | inl b ↦
        rw (n, handle_message, b)
          (release-Keeps (some a) now p (complete u w a m now p) _ v
            (complete-Frees u w a m now p e n v.idle_free) (λ id. omega arith))
  ]
]

resolve_active_count :
    (o : Option ActiveTask) (r t : Str) (id : ℕ)
    → resolved_count id (resolve_active o r t) ≡ on_task id o
resolve_active_count none r t id = refl
resolve_active_count (some a) r t id = omega arith

pub handle_worker_failure-Keeps :
    (u : ℕ) (w : WorkerState) (error : Str) (now : ℕ) (p : Pool)
    → state_at u p.states ≡ some w
    → IsValid p
    → Keeps p (handle_worker_failure u w error now p)
unfolding handle_worker_failure
handle_worker_failure-Keeps u w error now p e v =
    let f = retire-Frees u w (count_failure p) e v.idle_free in
    let g : Frees w.active_task p (retire u w (count_failure p)) = record {
      counted = f.counted;
      idle_free = f.idle_free;
      same_queue = f.same_queue;
      same_next = f.same_next;
      same_config = f.same_config;
      same_closed = f.same_closed;
      staffed = f.staffed;
    } in
    if-cases (Keeps p) w.replacing _ _ (λ b. same-Keeps p [] v (λ id. refl))
      λ b.
        release-Keeps w.active_task now p (retire u w (count_failure p)) _ v g
          (resolve_active_count w.active_task _ error)

pub handle_task_timeout-Keeps :
    (u : ℕ) (w : WorkerState) (id now : ℕ) (p : Pool)
    → state_at u p.states ≡ some w
    → IsValid p
    → Keeps p (handle_task_timeout u w id now p)
unfolding handle_task_timeout
handle_task_timeout-Keeps u w id now p e v = elim (Option-cases w.active_task) [
  | inl n ↦ rw (n, handle_task_timeout) (same-Keeps p [] v (λ j. refl))
  | inr (a, n) ↦ elim (Bool-cases (a.task.id == id)) [
    | inr b ↦ rw (n, handle_task_timeout, b) (same-Keeps p [] v (λ j. refl))
    | inl b ↦
        let f = retire-Frees u w (count_timeout p) e v.idle_free in
        let g : Frees (some a) p (retire u w (count_timeout p)) = record {
          counted = λ j. omega (arith, f.counted j, ap (on_task j) n);
          idle_free = f.idle_free;
          same_queue = f.same_queue;
          same_next = f.same_next;
          same_config = f.same_config;
          same_closed = f.same_closed;
          staffed = f.staffed;
        } in
        let same = (==_iff a.task.id id).0 b in
        rw (n, handle_task_timeout, b)
          (release-Keeps (some a) now p (retire u w (count_timeout p)) _ v g
            (λ j. rw same (omega arith)))
  ]
]

pub handle_exit-Keeps :
    (u : ℕ) (w : WorkerState) (code now : ℕ) (p : Pool)
    → state_at u p.states ≡ some w
    → IsValid p
    → Keeps p (handle_exit u w code now p)
unfolding handle_exit
handle_exit-Keeps u w code now p e v =
    if-cases (Keeps p) (not p.closed && not w.replacing && not (code == 0)) _ _
      (λ b. handle_worker_failure-Keeps u w _ now p e v) (λ b. same-Keeps p [] v (λ id. refl))
