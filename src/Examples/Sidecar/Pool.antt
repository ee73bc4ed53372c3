-- ===== src/Examples/Sidecar/Pool.antt =====
-- The worker pool at a few tasks.
use aegisone_core.Prelude.{ℕ, ◌+◌, ◌≡◌, refl, lit, true, List, [], ◌∷◌, none, some, arith}
use aegisone_core.Sidecar.WorkerPool.State.{PoolConfig, new_pool, start, dispatch}
use aegisone_core.Sidecar.WorkerPool.{
  Event, Message, accepted, refused, resolved, reply, failure, submits, messages, times_out,
  worker_pool_saturated, worker_timeout, submit, handle_message, handle_task_timeout, step, run,
}
use aegisone_core.Sidecar.WorkerPool.Valid.{IsValid, resolved_count, open_count, issued}
use aegisone_core.Sidecar.WorkerPool.Once.{run-new_pool-IsValid, run-resolves_once}

abbrev one_worker : PoolConfig
one_worker = record { worker_count = 1; max_queue_depth = 1; task_timeout_ms = 50 }

abbrev done : ℕ → Message
done id = record { task_id = some id; ok = true; reason_code = none; exec_ms = none }

-- Three tasks, of which the last finds the queue full; the first is answered, the second times out.
abbrev history : List Event
history =
    submits (lit "a") 10
    ∷ submits (lit "b") 11
    ∷ submits (lit "c") 12
    ∷ messages 0 (done 1) 20
    ∷ messages 0 (done 1) 21
    ∷ times_out 0 2 70
    ∷ []

notices_test :
    (run history (new_pool one_worker)).1
    ≡ accepted 1
      ∷ accepted 2
      ∷ refused worker_pool_saturated
      ∷ resolved 1 (reply (done 1) 0)
      ∷ resolved 2 (failure worker_timeout (some 9) none)
      ∷ []
unfolding run step submit start dispatch handle_message handle_task_timeout new_pool
notices_test = refl

run-new_pool-IsValid_example : IsValid (run history (new_pool one_worker)).0
run-new_pool-IsValid_example = run-new_pool-IsValid one_worker history (omega arith)

run-resolves_once_example :
    let (p, ns) = run history (new_pool one_worker) in
    resolved_count 2 ns + open_count 2 p ≡ issued 2 p.next_task_id
run-resolves_once_example = run-resolves_once one_worker history 2 (omega arith)
