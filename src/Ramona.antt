-- ===== src/Ramona.antt =====
-- ram0na/engine.ts, the runtime gate. `none` is an error that `canonicalizeJson` throws.
pub mod Receipt
pub mod Laws
pub mod Replay
use aegisone_core.Prelude.{Str, Option, none, some, if◌then◌else◌, ltb}
use aegisone_core.Contracts.{
  CanonicalExecutionInput, ArmTrace, RamonaTrace, Decision, allow, refuse, ReasonCode, kill_switch,
  runtime_gpu_drift, runtime_hours_drift, runtime_cost_drift, ok_ramona,
}
use aegisone_core.Contracts.Encode.{runtime_observation_json}
use aegisone_core.Crypto.{Crypto, hash_canonical_json}

abbrev pub ramona_trace : Decision → ReasonCode → Str → RamonaTrace
ramona_trace decision reason hash = record {
  decision = decision;
  reason_code = reason;
  runtime_hash = hash;
}

-- The checks of `runStrictRamona`, in the code's order.
unfoldable pub runtime_check : CanonicalExecutionInput → ArmTrace → Str → RamonaTrace
runtime_check input arm hash =
    let observed = input.execution_request.runtime_observation in
    let resources = input.execution_request.resources in
    elim arm.decision [
      | refuse ↦ ramona_trace refuse arm.reason_code hash
      | allow ↦
          if observed.kill_switch_active
          then ramona_trace refuse kill_switch hash
          else if ltb resources.gpu_count observed.actual_gpu_count
          then ramona_trace refuse runtime_gpu_drift hash
          else if ltb resources.hours observed.actual_hours
          then ramona_trace refuse runtime_hours_drift hash
          else if ltb arm.projected_total_cost_cents observed.actual_total_cost_cents
          then ramona_trace refuse runtime_cost_drift hash
          else ramona_trace allow ok_ramona hash
    ]

-- `runStrictRamona`.
unfoldable pub run_strict_ramona : Crypto → CanonicalExecutionInput → ArmTrace → Option RamonaTrace
run_strict_ramona c input arm =
    elim (hash_canonical_json c
      (runtime_observation_json input.execution_request.runtime_observation)) [
        | none ↦ none
        | some hash ↦ some (runtime_check input arm hash)
      ]
