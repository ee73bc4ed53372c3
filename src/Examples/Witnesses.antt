-- ===== src/Examples/Witnesses.antt =====
-- The theorems at the request of the fixture.
use aegisone_core.Prelude.{
  ◌+◌, ◌≤◌, ◌≡◌, ◌≢◌, refl, ap, ◌↔◌, Str, lit, true, false, List, [], ◌∷◌, none, some,
  if◌then◌else◌, ltb, arith, lookup, str_eq,
}
use aegisone_core.Json.{Value, is_well_formed, safe_limit}
use aegisone_core.Json.Lexer.{ok, fail, out_of_fuel}
use aegisone_core.Json.Parse.{parse_strict_json}
use aegisone_core.Json.Canonical.{canonicalize_json}
use aegisone_core.Json.Total.{parse_strict_json-total}
use aegisone_core.Json.Printing.{canonicalize_json-total}
use aegisone_core.Contracts.{CanonicalExecutionInput, ParsedEnvelope, allow}
use aegisone_core.Preflight.{envelope, run_strict_preflight}
use aegisone_core.Preflight.Vetted.{IsVetted, run_strict_preflight-IsVetted}
use aegisone_core.Orbit.Laws.{IsIntended, run_strict_orbit-allow_iff}
use aegisone_core.Arm.{run_strict_arm, projected_cost}
use aegisone_core.Arm.Cost.{exposure, HasFactors, projected_cost-exposure}
use aegisone_core.Arm.Gate.{IsAdmitted, IsUnheld, run_strict_arm-admits}
use aegisone_core.Arm.Effects.{IsKnown}
use aegisone_core.Arm.Budget.{IsCharged}
use aegisone_core.Ramona.Receipt.{signing_config}
use aegisone_core.Ramona.Laws.{IsObserved, run_strict_ramona-allow_iff}
use aegisone_core.Pipeline.{
  executed, execute, seed, Call, run_calls, execute_deterministic_pipeline,
}
use aegisone_core.Pipeline.Sound.{IsAuthorized, execute-IsAuthorized}
use aegisone_core.Pipeline.Authority.{allowed_count, run_calls-at_most_once}
use aegisone_core.Pipeline.Budget.{
  spent, run_calls-within_budget, outcome_charge, execute-IsCharged,
}
use aegisone_core.Pipeline.Burned.{execute-burns}
use aegisone_core.Examples.Fixture.{plain, summing, stamping, token_state, stores, raw_request}
use aegisone_core.Examples.Values.{request_value}
use aegisone_core.Examples.Expected.{
  request_envelope, request_input, request_result, orbit_allows, arm_allows, ramona_allows,
}
use aegisone_core.Examples.Runs.{
  run_preflight, run_executes, run_orbit, run_cost, run_ramona, parse_request,
}

-- Two executions of the request, with another token defined in between.
abbrev two_executions : List Call
two_executions = execute raw_request ∷ seed (lit "other") 10 ∷ execute raw_request ∷ []

run_result :
    (execute_deterministic_pipeline summing plain stamping raw_request stores).1
    ≡ some (executed request_result)
run_result = ap (λ p. p.1) run_executes

execute-IsAuthorized_example :
    (e : ParsedEnvelope) × (run_strict_preflight summing raw_request ≡ some (envelope e))
    × IsVetted summing e.parsed_input
    × (request_result.receipt.payload.decision_output.decision ≡ allow
        → IsAuthorized plain e.parsed_input stores)
    × (IsAuthorized plain e.parsed_input stores
        → IsUnheld e.parsed_input
        → signing_config stamping ≢ none
        → request_result.receipt.payload.decision_output.decision ≡ allow)
execute-IsAuthorized_example =
    execute-IsAuthorized summing plain stamping raw_request stores request_result run_result

run_calls-at_most_once_example :
    (allowed_count (lit "e1") (run_calls summing plain stamping two_executions stores) ≤ 1)
    × (IsKnown (lit "e1") stores.authority
        → allowed_count (lit "e1") (run_calls summing plain stamping two_executions stores) ≡ 0)
run_calls-at_most_once_example =
    run_calls-at_most_once summing plain stamping (lit "e1") two_executions stores

found_token : lookup (lit "k") stores.budgets ≡ some token_state
unfolding lookup str_eq
found_token = refl

other_token : str_eq (lit "other") (lit "k") ≡ false
unfolding str_eq
other_token = refl

run_calls-within_budget_example :
    30 + spent (lit "k") (run_calls summing plain stamping two_executions stores) ≤ 500
run_calls-within_budget_example =
    run_calls-within_budget summing plain stamping (lit "k") token_state two_executions stores
      found_token (omega arith) (other_token, tt)

execute-IsCharged_example :
    IsCharged
      (lit "k")
      token_state
      (outcome_charge
        (lit "k")
        (execute_deterministic_pipeline summing plain stamping raw_request stores).1)
      (execute_deterministic_pipeline summing plain stamping raw_request stores).0.budgets
execute-IsCharged_example =
    execute-IsCharged summing plain stamping (lit "k") token_state stores found_token (omega arith)
      raw_request

execute-burns_example :
    allowed_count (lit "e1") (
      run_calls summing plain stamping two_executions
        (execute_deterministic_pipeline summing plain stamping raw_request stores).0)
    ≡ 0
execute-burns_example =
    execute-burns summing plain stamping raw_request stores request_envelope orbit_allows 120
      run_preflight run_orbit run_cost two_executions

request_factors : HasFactors request_input
request_factors = record {
  gpu = omega arith;
  hours = omega arith;
  price = omega arith;
  scale = omega arith;
}

-- The request where the policy requires a manual approval above 500 cents.
abbrev unheld_input : CanonicalExecutionInput
unheld_input = record request_input {
  policy_document = record request_input.policy_document {
    rules = record request_input.policy_document.rules {
      require_manual_approval_above_cents = 500;
    };
  };
}

unheld_factors : HasFactors unheld_input
unheld_factors = record {
  gpu = omega arith;
  hours = omega arith;
  price = omega arith;
  scale = omega arith;
}

run_strict_arm-admits_example :
    ((run_strict_arm unheld_input orbit_allows (lit "ca") stores).1.decision ≡ allow
      → IsAdmitted unheld_input orbit_allows stores)
    × (IsAdmitted unheld_input orbit_allows stores
        → IsUnheld unheld_input
        → (run_strict_arm unheld_input orbit_allows (lit "ca") stores).1.decision ≡ allow)
run_strict_arm-admits_example =
    run_strict_arm-admits unheld_input orbit_allows (lit "ca") stores unheld_factors

projected_cost-exposure_example :
    projected_cost request_input
    ≡ (if ltb (exposure request_input) safe_limit then some (exposure request_input) else none)
projected_cost-exposure_example = projected_cost-exposure request_input request_factors

run_strict_orbit-allow_iff_example :
    (orbit_allows.decision ≡ allow) ↔ IsIntended plain request_input
run_strict_orbit-allow_iff_example =
    run_strict_orbit-allow_iff summing plain request_input orbit_allows run_orbit

run_strict_ramona-allow_iff_example :
    (ramona_allows.decision ≡ allow) ↔ IsObserved request_input arm_allows
run_strict_ramona-allow_iff_example =
    run_strict_ramona-allow_iff summing request_input arm_allows ramona_allows run_ramona

run_strict_preflight-IsVetted_example : IsVetted summing request_input
run_strict_preflight-IsVetted_example =
    run_strict_preflight-IsVetted summing raw_request request_envelope run_preflight

parse_strict_json-total_example :
    (parse_strict_json raw_request ≢ fail out_of_fuel)
    × ((v : Value) → parse_strict_json raw_request ≡ ok v → is_well_formed v ≡ true)
parse_strict_json-total_example = parse_strict_json-total raw_request

well_formed_request : is_well_formed request_value ≡ true
well_formed_request = (parse_strict_json-total raw_request).1 request_value parse_request

canonicalize_json-total_example : (t : Str) × (canonicalize_json request_value ≡ some t)
canonicalize_json-total_example = canonicalize_json-total request_value well_formed_request
