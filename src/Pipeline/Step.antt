-- ===== src/Pipeline/Step.antt =====
-- One execution of the pipeline: what an ALLOW says of the layers and of the stores.
use aegisone_core.Prelude.{◌≡◌, Str, some, arith, Option-cases, inl, inr}
use aegisone_core.Contracts.{ParsedEnvelope, OrbitTrace, ArmTrace, RamonaTrace}
use aegisone_core.Crypto.{Crypto}
use aegisone_core.Preflight.{envelope, failure, run_strict_preflight}
use aegisone_core.Orbit.{run_strict_orbit}
use aegisone_core.Orbit.Text.{Unicode}
use aegisone_core.Arm.{ArmStores, run_strict_arm}
use aegisone_core.Ramona.{run_strict_ramona}
use aegisone_core.Ramona.Receipt.{Signing, build_receipt}
use aegisone_core.Pipeline.{
  ExecutionResult, executed, receipt_input, settle, execute_envelope,
  execute_deterministic_pipeline,
}

-- The traces behind an executed request.
pub record Traces (c : Crypto) (u : Unicode) (g : Signing) (raw : Str) (s : ArmStores)
    (x : ExecutionResult) : Type 0 where
  pub parsed : ParsedEnvelope
  pub orbit : OrbitTrace
  pub ramona : RamonaTrace
  pub accepted : run_strict_preflight c raw ≡ some (envelope parsed)
  pub judged : run_strict_orbit c u parsed.parsed_input ≡ some orbit
  pub observed :
      run_strict_ramona c parsed.parsed_input
        (run_strict_arm parsed.parsed_input orbit parsed.request_hash s).1
      ≡ some ramona
  pub built :
      build_receipt c g (
        receipt_input parsed orbit
          (run_strict_arm parsed.parsed_input orbit parsed.request_hash s).1
          ramona)
      ≡ some x.receipt

module _ (c : Crypto) (u : Unicode) (g : Signing) where
  pub settle-executed :
      (e : ParsedEnvelope) (orbit : OrbitTrace) (arm : ArmTrace) (s : ArmStores)
      (x : ExecutionResult)
      → (settle c u g e orbit arm s).1 ≡ some (executed x)
      → (ramona : RamonaTrace) × (run_strict_ramona c e.parsed_input arm ≡ some ramona)
        × (build_receipt c g (receipt_input e orbit arm ramona) ≡ some x.receipt)
  unfolding settle
  settle-executed e orbit arm s x h = ground arith

  execute_envelope-Traces :
      (raw : Str) (s : ArmStores) (x : ExecutionResult) (e : ParsedEnvelope)
      → run_strict_preflight c raw ≡ some (envelope e)
      → (execute_envelope c u g e s).1 ≡ some (executed x)
      → Traces c u g raw s x
  unfolding execute_envelope
  execute_envelope-Traces raw s x e accepted h =
      elim (Option-cases (run_strict_orbit c u e.parsed_input)) [
        | inl stopped ↦ absurd (ground arith)
        | inr (orbit, judged) ↦
            let (ramona, observed, built) =
              settle-executed e orbit _ _ x (rw (judged, execute_envelope) at h) in
            record {
              parsed = e;
              orbit = orbit;
              ramona = ramona;
              accepted = accepted;
              judged = judged;
              observed = observed;
              built = built;
            }
      ]

  -- An execution with a receipt went through the four layers, each on what the one before it gave.
  pub execute-Traces :
      (raw : Str) (s : ArmStores) (x : ExecutionResult)
      → (execute_deterministic_pipeline c u g raw s).1 ≡ some (executed x)
      → Traces c u g raw s x
  unfolding execute_deterministic_pipeline
  execute-Traces raw s x h = elim (Option-cases (run_strict_preflight c raw)) [
    | inl stopped ↦ absurd (ground arith)
    | inr (failure f, e) ↦ absurd (ground arith)
    | inr (envelope p, e) ↦ execute_envelope-Traces raw s x p e (ground arith)
  ]
