-- ===== src/Pipeline/Sound.antt =====
-- What a request must be for the pipeline of audit/node_runtime.ts to allow it.
use aegisone_core.Prelude.{
  ◌≢◌, ◌≤◌, ◌<◌, ◌≡◌, sym, ap, ◌∙◌, ◌↔◌, Str, false, none, some, arith, lookup,
}
use aegisone_core.Json.{safe_limit}
use aegisone_core.Contracts.{
  CanonicalExecutionInput, ParsedEnvelope, OrbitTrace, RamonaTrace, allow,
}
use aegisone_core.Crypto.{Crypto}
use aegisone_core.Preflight.{envelope, run_strict_preflight}
use aegisone_core.Preflight.Vetted.{IsVetted, run_strict_preflight-IsVetted}
use aegisone_core.Orbit.{run_strict_orbit}
use aegisone_core.Orbit.Text.{Unicode}
use aegisone_core.Orbit.Laws.{IsIntended, run_strict_orbit-allow_iff}
use aegisone_core.Arm.{ArmStores, run_strict_arm}
use aegisone_core.Arm.Cost.{exposure, HasFactors, projected_cost-exposure}
use aegisone_core.Arm.Gate.{IsWithinPolicy, IsCovered, IsUnheld, run_strict_arm-allow_iff}
use aegisone_core.Arm.Effects.{run_strict_arm-projected}
use aegisone_core.Ramona.{run_strict_ramona}
use aegisone_core.Ramona.Receipt.{Signing, signing_config, receipt_payload}
use aegisone_core.Ramona.Laws.{
  run_strict_ramona-allow_iff, final_decision-allow_iff, build_receipt-payload,
}
use aegisone_core.Pipeline.{
  ExecutionResult, executed, receipt_input, execute_deterministic_pipeline,
}
use aegisone_core.Pipeline.Step.{execute-Traces}

-- The conditions on the input and the stores under which a request may run.
pub record IsAuthorized (u : Unicode) (input : CanonicalExecutionInput) (s : ArmStores)
    : Type 0 where
  pub intended : IsIntended u input
  pub fits : exposure input < safe_limit
  pub fresh : lookup input.execution_request.release_request.execution_id s.authority ≡ none
  pub policy : IsWithinPolicy input (exposure input)
  pub covered : IsCovered input.execution_request.budget_token (exposure input) s.budgets
  pub running : input.execution_request.runtime_observation.kill_switch_active ≡ false
  pub gpus :
      input.execution_request.runtime_observation.actual_gpu_count
      ≤ input.execution_request.resources.gpu_count
  pub hours :
      input.execution_request.runtime_observation.actual_hours
      ≤ input.execution_request.resources.hours
  pub cost : input.execution_request.runtime_observation.actual_total_cost_cents ≤ exposure input

projected-exposure :
    (input : CanonicalExecutionInput) (orbit : OrbitTrace) (hash : Str) (s : ArmStores)
    → HasFactors input
    → exposure input < safe_limit
    → (run_strict_arm input orbit hash s).1.projected_total_cost_cents ≡ exposure input
projected-exposure input orbit hash s f fits =
    run_strict_arm-projected input orbit hash s (exposure input)
      (ground (arith, projected_cost-exposure input f))

-- The last two gates together, over what ORBIT said.
arm_ramona-allow_iff :
    (c : Crypto) (u : Unicode) (input : CanonicalExecutionInput) (orbit : OrbitTrace) (hash : Str)
    (s : ArmStores) (ramona : RamonaTrace)
    → HasFactors input
    → run_strict_orbit c u input ≡ some orbit
    → run_strict_ramona c input (run_strict_arm input orbit hash s).1 ≡ some ramona
    → ((orbit.decision ≡ allow)
        × ((run_strict_arm input orbit hash s).1.decision ≡ allow)
        × (ramona.decision ≡ allow))
      ↔ IsAuthorized u input s
arm_ramona-allow_iff c u input orbit hash s ramona f judged observed =
    let arm = (run_strict_arm input orbit hash s).1 in
    let (to_orbit, from_orbit) = run_strict_orbit-allow_iff c u input orbit judged in
    let (to_arm, from_arm) = run_strict_arm-allow_iff input orbit hash s f in
    let (to_ramona, from_ramona) = run_strict_ramona-allow_iff c input arm ramona observed in
    (
      (λ (o, a, r).
          let admitted = to_arm a in
          let shown = to_ramona r in
          let projected = projected-exposure input orbit hash s f admitted.fits in
          record {
            intended = to_orbit o;
            fits = admitted.fits;
            fresh = admitted.fresh;
            policy = admitted.policy;
            covered = admitted.covered;
            running = shown.running;
            gpus = shown.gpus;
            hours = shown.hours;
            cost = rw projected at shown.cost;
          }),
      (λ w.
          let upstream = from_orbit w.intended in
          let a = from_arm (record {
            fits = w.fits;
            fresh = w.fresh;
            upstream = upstream;
            policy = w.policy;
            covered = w.covered;
          }) in
          let projected = projected-exposure input orbit hash s f w.fits in
          let shown = from_ramona (record {
            upstream = a;
            running = w.running;
            gpus = w.gpus;
            hours = w.hours;
            cost = rw projected w.cost;
          }) in
          (upstream, a, shown)),
    )

-- The decision on a raw input that gives a receipt, whatever its manual approval and the keys.
pub execute-allow_iff :
    (c : Crypto) (u : Unicode) (g : Signing) (raw : Str) (s : ArmStores) (x : ExecutionResult)
    → (execute_deterministic_pipeline c u g raw s).1 ≡ some (executed x)
    → (e : ParsedEnvelope) × (run_strict_preflight c raw ≡ some (envelope e))
      × IsVetted c e.parsed_input
      × ((x.receipt.payload.decision_output.decision ≡ allow) ↔ IsAuthorized u e.parsed_input s)
unfolding receipt_payload
execute-allow_iff c u g raw s x h =
    let t = execute-Traces c u g raw s x h in
    let vetted = run_strict_preflight-IsVetted c raw t.parsed t.accepted in
    let arm = (run_strict_arm t.parsed.parsed_input t.orbit t.parsed.request_hash s).1 in
    let i = receipt_input t.parsed t.orbit arm t.ramona in
    let (hash, same) = build_receipt-payload c g i x.receipt t.built in
    let shown = ap (λ p. p.decision_output.decision) same in
    let (to_gates, from_gates) = final_decision-allow_iff i in
    let (to_request, from_request) =
      arm_ramona-allow_iff c u t.parsed.parsed_input t.orbit t.parsed.request_hash s t.ramona
        vetted.factors t.judged t.observed in
    (
      t.parsed,
      t.accepted,
      vetted,
      ((λ a. to_request (to_gates (sym shown ∙ a))), (λ w. shown ∙ from_gates (from_request w))),
    )

-- Where the pipeline gives a receipt, its raw input was accepted, and the decision is ALLOW only if
-- the request is authorized: the intent is as ORBIT demands, the exposure is a safe integer, the
-- execution id is new to the store, the policy permits the scaling, the number of devices, the hours,
-- the retries and the total cost, the budget token, if there is one, has room for the exposure, and
-- what the runtime shows stays within what was requested. An authorized request is allowed where its
-- exposure is not above the policy's threshold of manual approval and the HMAC secret and its key id
-- are configured. The accepted input is vetted: the policy version is pinned, a trust section, if
-- any, is signed, the cost factors are positive, and the tool calls are distinct and clean.
pub execute-IsAuthorized :
    (c : Crypto) (u : Unicode) (g : Signing) (raw : Str) (s : ArmStores) (x : ExecutionResult)
    → (execute_deterministic_pipeline c u g raw s).1 ≡ some (executed x)
    → (e : ParsedEnvelope) × (run_strict_preflight c raw ≡ some (envelope e))
      × IsVetted c e.parsed_input
      × (x.receipt.payload.decision_output.decision ≡ allow → IsAuthorized u e.parsed_input s)
      × (IsAuthorized u e.parsed_input s
          → IsUnheld e.parsed_input
          → signing_config g ≢ none
          → x.receipt.payload.decision_output.decision ≡ allow)
execute-IsAuthorized c u g raw s x h =
    let (e, read, vetted, (to, from)) = execute-allow_iff c u g raw s x h in
    (e, read, vetted, to, λ w _ _. from w)
