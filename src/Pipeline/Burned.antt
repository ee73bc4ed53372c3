-- ===== src/Pipeline/Burned.antt =====
-- An execution id is used up by the first judgement of it in audit/node_runtime.ts, whatever the
-- decision.
use aegisone_core.Prelude.{◌≡◌, ℕ, Str, List, some}
use aegisone_core.Contracts.{ParsedEnvelope, OrbitTrace}
use aegisone_core.Crypto.{Crypto}
use aegisone_core.Preflight.{envelope, run_strict_preflight}
use aegisone_core.Orbit.{run_strict_orbit}
use aegisone_core.Orbit.Text.{Unicode}
use aegisone_core.Arm.{ArmStores, projected_cost}
use aegisone_core.Arm.Effects.{IsKnown, run_strict_arm-authority, begin-IsKnown_self}
use aegisone_core.Ramona.Receipt.{Signing}
use aegisone_core.Pipeline.{execute_envelope, execute_deterministic_pipeline, Call, run_calls}
use aegisone_core.Pipeline.Authority.{settle-IsKnown, run_calls-known, allowed_count}

module _ (c : Crypto) (u : Unicode) (g : Signing) where
  judged-IsKnown :
      (raw : Str) (s : ArmStores) (e : ParsedEnvelope) (orbit : OrbitTrace) (cost : ℕ)
      → run_strict_preflight c raw ≡ some (envelope e)
      → run_strict_orbit c u e.parsed_input ≡ some orbit
      → projected_cost e.parsed_input ≡ some cost
      → IsKnown e.parsed_input.execution_request.release_request.execution_id
          (execute_deterministic_pipeline c u g raw s).0.authority
  unfolding execute_deterministic_pipeline execute_envelope
  judged-IsKnown raw s e orbit cost accepted judged priced =
      rw (accepted, execute_deterministic_pipeline, judged, execute_envelope)
        (settle-IsKnown c u g e orbit _ _ _ (
          rw (run_strict_arm-authority e.parsed_input orbit e.request_hash s cost priced)
            (begin-IsKnown_self _ e.request_hash s.authority)))

  -- Once ORBIT gave a trace of an accepted input whose projected cost is a safe integer, no later
  -- sequence of calls between resets allows its execution id, whatever was decided on the input and
  -- whether or not a receipt was built.
  pub execute-burns :
      (raw : Str) (s : ArmStores) (e : ParsedEnvelope) (orbit : OrbitTrace) (cost : ℕ)
      → run_strict_preflight c raw ≡ some (envelope e)
      → run_strict_orbit c u e.parsed_input ≡ some orbit
      → projected_cost e.parsed_input ≡ some cost
      → (ks : List Call)
      → allowed_count e.parsed_input.execution_request.release_request.execution_id
          (run_calls c u g ks (execute_deterministic_pipeline c u g raw s).0)
        ≡ 0
  execute-burns raw s e orbit cost accepted judged priced ks =
      run_calls-known c u g e.parsed_input.execution_request.release_request.execution_id ks _
        (judged-IsKnown raw s e orbit cost accepted judged priced)
