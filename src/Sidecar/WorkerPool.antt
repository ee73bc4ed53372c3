-- ===== src/Sidecar/WorkerPool.antt =====
-- sidecar/deterministic_worker_pool.mjs: `DeterministicWorkerPool`. The objects that the callbacks
-- of a worker hold are places of a store, which keeps those that were replaced; a call or a
-- callback is an event, which reads the clock once in whole milliseconds. The averages of
-- `metrics()` and its copy of the worker states are left out.
pub mod State
pub mod Counting
pub mod Dispatch
pub mod Retire
pub mod Valid
pub mod Once
use aegisone_core.Prelude.{
  ℕ, zero, suc, ◌+◌, ◌-◌, max, Str, lit, Bool, true, false, not, ◌&&◌, ◌||◌, List, [], ◌∷◌, ◌++◌,
  map, Option, none, some, if◌then◌else◌, ltb, leb, ◌==◌, length, is_empty,
}
use aegisone_core.Sidecar.Settings.{Setting, absent, positive_integer, or_default, number}
use State.{
  PoolConfig, Task, ActiveTask, WorkerState, Metrics, Pool, create_worker_state, state_at,
  set_state, without, has, replace, sync_depth, start, dispatch,
}
use aegisone_core.Json.Canonical.{decimal}

-- A message of a worker.
pub record Message : Type 0 where
  pub task_id : Option ℕ
  pub ok : Bool
  pub reason_code : Option Str
  pub exec_ms : Option ℕ

-- What a task's promise is resolved with: the worker's reply and the wait, or a reason, the wait
-- and the text of an error.
pub data Outcome : Type 0 where
  reply : Message → ℕ → Outcome
  failure : Str → Option ℕ → Option Str → Outcome

pub data Notice : Type 0 where
  accepted : ℕ → Notice
  refused : Str → Notice
  resolved : ℕ → Outcome → Notice

abbrev pub worker_pool_saturated : Str
worker_pool_saturated = lit "ERR_WORKER_POOL_SATURATED"

abbrev pub worker_pool_failed : Str
worker_pool_failed = lit "ERR_WORKER_POOL_FAILED"

abbrev pub worker_timeout : Str
worker_timeout = lit "ERR_WORKER_TIMEOUT"

abbrev pub enqueue : Str → ℕ → Pool → Pool
enqueue raw now p = sync_depth (record p {
  next_task_id = p.next_task_id + 1;
  queue = p.queue ++ (record { id = p.next_task_id; raw_input = raw; enqueued_at_ms = now } ∷ []);
  metrics = record p.metrics { submitted = p.metrics.submitted + 1 };
})

-- `submit`.
unfoldable pub submit : Str → ℕ → Pool → Pool × List Notice
submit raw now p =
    let q = start p in
    if p.closed
    then (p, refused worker_pool_failed ∷ [])
    else if is_empty q.idle && leb q.config.max_queue_depth (length q.queue)
    then (
      record q { metrics = record q.metrics { refused = q.metrics.refused + 1 } },
      refused worker_pool_saturated ∷ [],
    )
    else (dispatch now (enqueue raw now q), accepted q.next_task_id ∷ [])

abbrev pub is_for : Message → ℕ → Bool
is_for m id = elim m.task_id [ none ↦ false | some i ↦ i == id ]

abbrev pub count_failure : Pool → Pool
count_failure p = record p { metrics = record p.metrics { failed = p.metrics.failed + 1 } }

abbrev or_ms : Option ℕ → ℕ → ℕ
or_ms none n = n
or_ms (some m) n = m

abbrev or_reason : Option Str → Str → Str
or_reason none r = r
or_reason (some s) r = s

abbrev pub outcome_of : Message → ℕ → Outcome
outcome_of m wait =
    if m.ok
    then reply m wait
    else failure (or_reason m.reason_code worker_pool_failed) (some wait) none

-- `#handleMessage` where the message is for the active task.
abbrev pub complete : ℕ → WorkerState → ActiveTask → Message → ℕ → Pool → Pool
complete u w a m now p =
    let busy_ms = now - a.started_at_ms in
    let exec_ms = or_ms m.exec_ms busy_ms in
    record p {
      states =
          set_state u
            (record w {
              busy = false;
              active_task = none;
              throughput = w.throughput + 1;
              busy_ms_total = w.busy_ms_total + busy_ms;
            })
            p.states;
      idle = if p.closed then p.idle else p.idle ++ (u ∷ []);
      metrics = record p.metrics {
        completed = p.metrics.completed + 1;
        exec_ms_total = p.metrics.exec_ms_total + exec_ms;
        exec_ms_max = max p.metrics.exec_ms_max exec_ms;
        busy_ms_total = p.metrics.busy_ms_total + busy_ms;
      };
    }

-- `#handleMessage`.
unfoldable pub handle_message : ℕ → WorkerState → Message → ℕ → Pool → Pool × List Notice
handle_message u w m now p = elim w.active_task [
  | none ↦ (count_failure p, [])
  | some a ↦
      if is_for m a.task.id
      then (
        dispatch now (complete u w a m now p),
        resolved a.task.id (outcome_of m a.queue_wait_ms) ∷ [],
      )
      else (count_failure p, [])
]

-- The state of a worker that failed, which is idle no more.
abbrev pub stop_worker : ℕ → WorkerState → Pool → Pool
stop_worker u w p = record p {
  states =
      set_state u
        (record w {
          busy = false;
          active_task = none;
          failed = w.failed + 1;
          replacing = w.replacing || not p.closed;
        })
        p.states;
  idle = without u p.idle;
}

-- A fresh worker in the place of another.
abbrev pub add_replacement : ℕ → ℕ → Pool → Pool
add_replacement u worker_id p = record p {
  states = p.states ++ (create_worker_state worker_id ∷ []);
  workers =
      if has u p.workers
      then replace u (length p.states) p.workers
      else p.workers ++ (length p.states ∷ []);
  idle = p.idle ++ (length p.states ∷ []);
  metrics = record p.metrics { restart_count = p.metrics.restart_count + 1 };
}

-- The end of a worker, with `#replaceWorker`.
abbrev pub retire : ℕ → WorkerState → Pool → Pool
retire u w p =
    let q = stop_worker u w p in
    if p.closed || w.replacing then q else add_replacement u w.worker_id q

abbrev pub resolve_active : Option ActiveTask → Str → Str → List Notice
resolve_active none reason error = []
resolve_active (some a) reason error = resolved a.task.id (failure reason none (some error)) ∷ []

-- `#handleWorkerFailure`.
unfoldable pub handle_worker_failure : ℕ → WorkerState → Str → ℕ → Pool → Pool × List Notice
handle_worker_failure u w error now p = if w.replacing then (p, []) else (
  dispatch now (retire u w (count_failure p)),
  resolve_active w.active_task worker_pool_failed error,
)

abbrev pub count_timeout : Pool → Pool
count_timeout p = record p {
  metrics = record p.metrics {
    failed = p.metrics.failed + 1;
    timeout_count = p.metrics.timeout_count + 1;
  };
}

-- `#handleTaskTimeout`.
unfoldable pub handle_task_timeout : ℕ → WorkerState → ℕ → ℕ → Pool → Pool × List Notice
handle_task_timeout u w id now p = elim w.active_task [
  | none ↦ (p, [])
  | some a ↦
      if a.task.id == id
      then (
        dispatch now (retire u w (count_timeout p)),
        resolved id (failure worker_timeout (some a.queue_wait_ms) none) ∷ [],
      )
      else (p, [])
]

-- The `exit` event of a worker.
unfoldable pub handle_exit : ℕ → WorkerState → ℕ → ℕ → Pool → Pool × List Notice
handle_exit u w code now p =
    if not p.closed && not w.replacing && not (code == 0)
    then handle_worker_failure u w (lit "ERR_WORKER_POOL_FAILED: worker exited " ++ decimal code)
        now p
    else (p, [])

abbrev pub dismiss : List Task → List Notice
dismiss ts = map (λ t. resolved t.id (failure worker_pool_failed none none)) ts

pub data Event : Type 0 where
  starts : Event
  submits : Str → ℕ → Event
  messages : ℕ → Message → ℕ → Event
  errors : ℕ → Str → ℕ → Event
  exits : ℕ → ℕ → ℕ → Event
  times_out : ℕ → ℕ → ℕ → Event
  shutdown_begins : Event
  shutdown_ends : Event

-- One event; `shutdown_ends` is what `shutdown` does once the workers have stopped.
unfoldable pub step : Event → Pool → Pool × List Notice
step starts p = (start p, [])
step (submits raw now) p = submit raw now p
step (messages u m now) p = elim (state_at u p.states) [
  | none ↦ (p, [])
  | some w ↦ handle_message u w m now p
]
step (errors u error now) p = elim (state_at u p.states) [
  | none ↦ (p, [])
  | some w ↦ handle_worker_failure u w error now p
]
step (exits u code now) p = elim (state_at u p.states) [
  | none ↦ (p, [])
  | some w ↦ handle_exit u w code now p
]
step (times_out u id now) p = elim (state_at u p.states) [
  | none ↦ (p, [])
  | some w ↦ handle_task_timeout u w id now p
]
step shutdown_begins p = (record p { closed = true; queue = [] }, dismiss p.queue)
step shutdown_ends p =
    if p.closed then (sync_depth (record p { workers = []; idle = [] }), []) else (p, [])

unfoldable pub run : List Event → Pool → Pool × List Notice
run [] p = (p, [])
run (e ∷ es) p =
    let (p', notices) = step e p in let (p'', later) = run es p' in (p'', notices ++ later)
