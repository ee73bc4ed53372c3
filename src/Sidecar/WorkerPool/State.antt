-- ===== src/Sidecar/WorkerPool/State.antt =====
-- sidecar/deterministic_worker_pool.mjs: the configuration, the state and the loop that hands tasks to
-- idle workers.
use aegisone_core.Prelude.{
  ℕ, zero, suc, ◌+◌, ◌-◌, max, Str, Bool, true, false, ◌&&◌, ◌||◌, List, [], ◌∷◌, ◌++◌, Option,
  none, some, if◌then◌else◌, ◌==◌, length, is_empty,
}
use aegisone_core.Sidecar.Settings.{Setting, positive_integer, or_default, number}

pub record PoolConfig : Type 0 where
  pub worker_count : ℕ
  pub max_queue_depth : ℕ
  pub task_timeout_ms : ℕ

pub record PoolSettings : Type 0 where
  pub worker_count : Setting
  pub max_queue_depth : Setting
  pub task_timeout_ms : Setting

-- `validateWorkerPoolConfig`; `none` is its error.
unfoldable pub validate_worker_pool_config : PoolSettings → Option PoolConfig
validate_worker_pool_config c =
    let task_timeout_ms = or_default c.task_timeout_ms 2000 in
    if positive_integer c.worker_count
      && positive_integer c.max_queue_depth
      && positive_integer task_timeout_ms
    then some (record {
      worker_count = number c.worker_count;
      max_queue_depth = number c.max_queue_depth;
      task_timeout_ms = number task_timeout_ms;
    })
    else none

pub record Task : Type 0 where
  pub id : ℕ
  pub raw_input : Str
  pub enqueued_at_ms : ℕ

pub record ActiveTask : Type 0 where
  pub task : Task
  pub started_at_ms : ℕ
  pub queue_wait_ms : ℕ

pub record WorkerState : Type 0 where
  pub worker_id : ℕ
  pub busy : Bool
  pub active_task : Option ActiveTask
  pub replacing : Bool
  pub throughput : ℕ
  pub failed : ℕ
  pub busy_ms_total : ℕ

pub record Metrics : Type 0 where
  pub submitted : ℕ
  pub completed : ℕ
  pub failed : ℕ
  pub refused : ℕ
  pub queue_depth : ℕ
  pub max_queue_depth : ℕ
  pub queue_wait_ms_total : ℕ
  pub queue_wait_ms_max : ℕ
  pub exec_ms_total : ℕ
  pub exec_ms_max : ℕ
  pub busy_ms_total : ℕ
  pub timeout_count : ℕ
  pub restart_count : ℕ

-- `workers` and `idle` name places of `states`.
pub record Pool : Type 0 where
  pub config : PoolConfig
  pub states : List WorkerState
  pub workers : List ℕ
  pub idle : List ℕ
  pub queue : List Task
  pub next_task_id : ℕ
  pub closed : Bool
  pub metrics : Metrics

-- `constructor`, behind the validation.
unfoldable pub new_pool : PoolConfig → Pool
new_pool c = record {
  config = c;
  states = [];
  workers = [];
  idle = [];
  queue = [];
  next_task_id = 1;
  closed = false;
  metrics = record {
    submitted = 0;
    completed = 0;
    failed = 0;
    refused = 0;
    queue_depth = 0;
    max_queue_depth = 0;
    queue_wait_ms_total = 0;
    queue_wait_ms_max = 0;
    exec_ms_total = 0;
    exec_ms_max = 0;
    busy_ms_total = 0;
    timeout_count = 0;
    restart_count = 0;
  };
}

-- `#createWorkerState`.
abbrev pub create_worker_state : ℕ → WorkerState
create_worker_state worker_id = record {
  worker_id = worker_id;
  busy = false;
  active_task = none;
  replacing = false;
  throughput = 0;
  failed = 0;
  busy_ms_total = 0;
}

abbrev pub state_at : ℕ → List WorkerState → Option WorkerState
state_at u [] = none
state_at zero (w ∷ ws) = some w
state_at (suc u) (w ∷ ws) = state_at u ws

abbrev pub set_state : ℕ → WorkerState → List WorkerState → List WorkerState
set_state u v [] = []
set_state zero v (w ∷ ws) = v ∷ ws
set_state (suc u) v (w ∷ ws) = w ∷ set_state u v ws

-- `filter((item) => item !== state)`.
abbrev pub without : ℕ → List ℕ → List ℕ
without u [] = []
without u (v ∷ vs) = if v == u then without u vs else v ∷ without u vs

abbrev pub has : ℕ → List ℕ → Bool
has u [] = false
has u (v ∷ vs) = v == u || has u vs

abbrev pub replace : ℕ → ℕ → List ℕ → List ℕ
replace u r [] = []
replace u r (v ∷ vs) = if v == u then r ∷ vs else v ∷ replace u r vs

-- `#syncDepthMetrics`.
abbrev pub sync_depth : Pool → Pool
sync_depth p = record p {
  metrics = record p.metrics {
    queue_depth = length p.queue;
    max_queue_depth = max p.metrics.max_queue_depth (length p.queue);
  };
}

abbrev pub add_worker : ℕ → Pool → Pool
add_worker worker_id p = record p {
  states = p.states ++ (create_worker_state worker_id ∷ []);
  workers = p.workers ++ (length p.states ∷ []);
  idle = p.idle ++ (length p.states ∷ []);
}

-- The loop of `start`, from an index on.
abbrev pub add_workers : ℕ → ℕ → Pool → Pool
add_workers index zero p = p
add_workers index (suc n) p = add_workers (index + 1) n (add_worker index p)

-- `start`.
unfoldable pub start : Pool → Pool
start p = if is_empty p.workers then add_workers 0 p.config.worker_count p else p

-- The body of the loop of `#dispatch`, with the worker and the task that were taken out.
abbrev pub assign : ℕ → ℕ → Task → Pool → Pool
assign now u t p = elim (state_at u p.states) [
  | none ↦ p
  | some w ↦
      let wait = now - t.enqueued_at_ms in
      record p {
        states =
            set_state u
              (record w {
                busy = true;
                active_task = some (record { task = t; started_at_ms = now; queue_wait_ms = wait });
              })
              p.states;
        metrics = record p.metrics {
          queue_wait_ms_total = p.metrics.queue_wait_ms_total + wait;
          queue_wait_ms_max = max p.metrics.queue_wait_ms_max wait;
        };
      }
]

abbrev pub dispatch_loop : ℕ → List ℕ → List Task → Pool → Pool
dispatch_loop now [] ts p = record p { idle = []; queue = ts }
dispatch_loop now (u ∷ us) [] p = record p { idle = u ∷ us; queue = [] }
dispatch_loop now (u ∷ us) (t ∷ ts) p = dispatch_loop now us ts (assign now u t p)

-- `#dispatch`.
unfoldable pub dispatch : ℕ → Pool → Pool
dispatch now p = sync_depth (dispatch_loop now p.idle p.queue p)
