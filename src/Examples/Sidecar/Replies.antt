-- ===== src/Examples/Sidecar/Replies.antt =====
-- A worker at the request of the fixture, twice.
use aegisone_core.Prelude.{◌≡◌, refl, lit, false, [], ◌∷◌, map}
use aegisone_core.Pipeline.{execute_deterministic_pipeline}
use aegisone_core.Sidecar.Worker.{
  reply_of, fresh_stores, on_message, run_worker, allows, run_worker-fresh,
  on_message-token_refused,
}
use aegisone_core.Examples.Fixture.{plain, summing, stamping, stores, raw_request}
use aegisone_core.Examples.Expected.{request_envelope}
use aegisone_core.Examples.Runs.{run_preflight}

run_worker-fresh_example :
    run_worker summing plain stamping (raw_request ∷ raw_request ∷ []) stores
    ≡ map
        (λ raw. reply_of (execute_deterministic_pipeline summing plain stamping raw fresh_stores).1)
        (raw_request ∷ raw_request ∷ [])
run_worker-fresh_example =
    run_worker-fresh summing plain stamping (raw_request ∷ raw_request ∷ []) stores

on_message-token_refused_example :
    allows (on_message summing plain stamping raw_request stores).1 ≡ false
on_message-token_refused_example =
    on_message-token_refused summing plain stamping raw_request stores request_envelope (lit "k")
      run_preflight refl
