-- ===== src/Examples/Parts.antt =====
-- The theorems on single parts, at small inputs and at parts of the fixture's request.
use aegisone_core.Prelude.{ap, ◌↔◌, ◌<◌, Str, if◌then◌else◌}
use aegisone_core.Prelude.{
  ◌+◌, ◌≤◌, ◌≡◌, ◌≢◌, refl, lit, true, false, List, [], some, arith, lookup, str_eq, has_str,
}
use aegisone_core.Prelude.{is_empty}
use aegisone_core.Js.{trim, trim_start, from_hex}
use aegisone_core.Json.{safe_limit, obj, arr, field, end, get_field}
use aegisone_core.Json.Canonical.{canonicalize_json}
use aegisone_core.Json.Reordering.{
  Reordered, ReorderedFields, same, in_object, member, exchange, then_also,
  canonicalize_json-Reordered,
}
use aegisone_core.Contracts.{ToolCall}
use aegisone_core.State.{reserve, reserved, exhausted}
use aegisone_core.State.Laws.{IsWithin, reserve-IsWithin, reserve-exact}
use aegisone_core.Preflight.Checks.{Checked}
use aegisone_core.Preflight.Calls.{parse_tool_calls}
use aegisone_core.Preflight.Reading.{Sections}
use aegisone_core.Preflight.Amounts.{Numbers, read_numbers}
use aegisone_core.Preflight.Ranges.{InRange, read_numbers-InRange}
use aegisone_core.Preflight.Reserved.{AreClean, parse_tool_calls-AreClean}
use aegisone_core.Preflight.Identity.{request_hash-Reordered}
use aegisone_core.Preflight.{Preflight, run_strict_preflight}
use aegisone_core.Preflight.Nesting.{nesting}
use aegisone_core.Preflight.Total.{run_strict_preflight-total}
use aegisone_core.Contracts.{ok_allow, replay_mismatch}
use aegisone_core.Ramona.Replay.{IsReplayed, verify_receipt_replay-ok_iff}
use aegisone_core.Pipeline.{executed, execute_deterministic_pipeline}
use aegisone_core.Pipeline.Replay.{execute-replays}
use aegisone_core.Ramona.Receipt.{verify_receipt_replay, verify_receipt_signature}
use aegisone_core.Ramona.Laws.{IsSigner, build_receipt-verified}
use aegisone_core.Pipeline.{receipt_input}
use aegisone_core.Examples.Fixture.{
  summing, stamping, token_state, stores, raw_request, raw_reordered,
}
use aegisone_core.Examples.Values.{
  request_value, reordered_value, tool_call_items, resources_fields, execution_fields,
  runtime_fields, rules_fields, pricing_fields, policy_fields, request_fields,
}
use aegisone_core.Examples.Expected.{
  request_envelope, reordered_envelope, request_input, request_receipt, orbit_allows, arm_allows,
  ramona_allows,
}
use aegisone_core.Examples.Fixture.{plain}
use aegisone_core.Examples.Expected.{request_result}
use aegisone_core.Examples.Runs.{
  run_executes, run_preflight, run_reordered, run_receipt, parse_request, parse_reordered,
}

sections_differ :
    (lit "execution_request" ≢ lit "policy_document")
    × (lit "execution_request" ≢ lit "pricing_data")
    × (lit "policy_document" ≢ lit "pricing_data")
sections_differ =
    ((λ e. absurd (ground arith)), (λ e. absurd (ground arith)), (λ e. absurd (ground arith)))

fields_reordered :
    ReorderedFields
      (field (lit "execution_request") (obj request_fields) (
        field
          (lit "policy_document")
          (obj policy_fields)
          (field (lit "pricing_data") (obj pricing_fields) end)))
      (field (lit "pricing_data") (obj pricing_fields) (
        field
          (lit "policy_document")
          (obj policy_fields)
          (field (lit "execution_request") (obj request_fields) end)))
fields_reordered =
    then_also (exchange sections_differ.0)
      (then_also (member same (exchange sections_differ.1)) (exchange sections_differ.2))

value-Reordered : Reordered request_value reordered_value
value-Reordered = in_object fields_reordered

canonicalize_json-Reordered_example :
    canonicalize_json request_value ≡ canonicalize_json reordered_value
canonicalize_json-Reordered_example =
    canonicalize_json-Reordered request_value reordered_value value-Reordered

request_hash-Reordered_example :
    (request_envelope.canonical_input ≡ reordered_envelope.canonical_input)
    × (request_envelope.request_hash ≡ reordered_envelope.request_hash)
request_hash-Reordered_example =
    request_hash-Reordered summing raw_request raw_reordered request_value reordered_value
      request_envelope reordered_envelope parse_request parse_reordered value-Reordered
      run_preflight run_reordered

pem_filled : is_empty (trim stamping.public_key_pem) ≡ false
unfolding trim trim_start
pem_filled = refl

stamping-IsSigner : IsSigner stamping
unfolding from_hex
stamping-IsSigner text value h = let stamp : lit "ab" ≡ value = ground arith in rw (← stamp) refl

build_receipt-verified_example :
    verify_receipt_signature summing stamping request_receipt ≡ some true
build_receipt-verified_example =
    build_receipt-verified summing stamping
      (receipt_input request_envelope orbit_allows arm_allows ramona_allows) request_receipt
      stamping-IsSigner pem_filled run_receipt

reserve-IsWithin_example : IsWithin (reserve (lit "k") 120 stores.budgets).0
reserve-IsWithin_example = reserve-IsWithin (lit "k") 120 stores.budgets (omega arith, tt)

found_token : lookup (lit "k") stores.budgets ≡ some token_state
unfolding lookup str_eq
found_token = refl

reserve-exact_example :
    (((reserve (lit "k") 120 stores.budgets).1 ≡ reserved) ↔ (30 + 120 ≤ 500))
    × ((reserve (lit "k") 120 stores.budgets).1 ≡ reserved
        → (30 + 120 < safe_limit)
          × ((other : Str)
              → lookup other (reserve (lit "k") 120 stores.budgets).0 ≡ (
                  if str_eq (lit "k") other
                  then some (record token_state { consumed_cents = 30 + 120 })
                  else lookup other stores.budgets)))
    × ((reserve (lit "k") 120 stores.budgets).1 ≡ exhausted
        → (reserve (lit "k") 120 stores.budgets).0 ≡ stores.budgets)
reserve-exact_example =
    reserve-exact (lit "k") 120 stores.budgets token_state found_token (omega arith)

abbrev tool_calls : List ToolCall
tool_calls = request_input.execution_request.tool_calls

parsed_tool_calls : parse_tool_calls (some (arr tool_call_items)) ≡ Checked.ok tool_calls
unfolding parse_tool_calls aegisone_core.Preflight.Calls.parse_tool_calls_from
    aegisone_core.Preflight.Calls.parse_tool_call aegisone_core.Preflight.Checks.reject_unknown_keys
    aegisone_core.Preflight.Checks.first_unknown aegisone_core.Preflight.Checks.object_keys
    aegisone_core.Preflight.Checks.index_keys aegisone_core.Preflight.Checks.array_index
    aegisone_core.Preflight.Checks.name_keys has_str str_eq get_field
    aegisone_core.Preflight.Checks.validate_integer aegisone_core.Preflight.Calls.parse_parameters
    aegisone_core.Preflight.Checks.reject_reserved
parsed_tool_calls = refl

parse_tool_calls-AreClean_example : AreClean [] tool_calls
parse_tool_calls-AreClean_example =
    parse_tool_calls-AreClean (some (arr tool_call_items)) tool_calls parsed_tool_calls

abbrev sections : Sections
sections = record {
  request = request_fields;
  policy = policy_fields;
  pricing = pricing_fields;
  actor = end;
  resources = resources_fields;
  execution = execution_fields;
  orbit = end;
  release = end;
  runtime = runtime_fields;
  rules = rules_fields;
}

abbrev numbers : Numbers
numbers = record {
  gpu_count = 2;
  hours = 3;
  max_scale_multiplier = 1;
  max_retries = 1;
  actual_gpu_count = 2;
  actual_hours = 3;
  actual_total_cost_cents = 100;
  max_total_cost_cents = 200;
  max_gpu_count = 4;
  max_hours = 5;
  require_manual_approval_above_cents = 0;
  max_retry_count = 2;
  gpu_hour_cents = 10;
}

numbers_read : read_numbers sections ≡ Checked.ok numbers
unfolding read_numbers aegisone_core.Preflight.Amounts.numeric_failure
    aegisone_core.Preflight.Amounts.numeric_checks aegisone_core.Preflight.Checks.validate_integer
    get_field str_eq aegisone_core.Preflight.Amounts.number_values
numbers_read = refl

read_numbers-InRange_example : InRange numbers
read_numbers-InRange_example = read_numbers-InRange sections numbers numbers_read

request_nesting : nesting raw_request ≡ 7
request_nesting = refl

run_strict_preflight-total_example :
    (p : Preflight) × (run_strict_preflight summing raw_request ≡ some p)
run_strict_preflight-total_example =
    run_strict_preflight-total summing raw_request (omega (arith, request_nesting))

verify_receipt_replay-ok_iff_example :
    (verify_receipt_replay summing stamping request_receipt request_receipt ≡ some (true, ok_allow))
    ↔ IsReplayed summing stamping request_receipt request_receipt
verify_receipt_replay-ok_iff_example =
    verify_receipt_replay-ok_iff summing stamping request_receipt request_receipt

run_outcome :
    (execute_deterministic_pipeline summing plain stamping raw_request stores).1
    ≡ some (executed request_result)
run_outcome = ap (λ p. p.1) run_executes

execute-replays_example :
    verify_receipt_replay summing stamping request_result.receipt request_result.receipt
    ≡ some (
        if str_eq request_result.receipt_bytes request_result.receipt_bytes
        then (true, ok_allow)
        else (false, replay_mismatch))
execute-replays_example =
    execute-replays summing plain stamping raw_request raw_request stores stores request_result
      request_result stamping-IsSigner pem_filled run_outcome run_outcome
