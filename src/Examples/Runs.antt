-- ===== src/Examples/Runs.antt =====
-- Runs of the pipeline, stage by stage.
use aegisone_core.Prelude.{
  ◌>>=◌, ℕ, Str, lit, ◌≡◌, refl, Bool, true, false, List, [], ◌∷◌, Option, none, some, has_str,
  str_eq, str_lt,
}
use aegisone_core.Json.{Value, null, obj}
use aegisone_core.Json.Lexer.{Result, ok, fail}
use aegisone_core.Json.Parse.{parse_strict_json}
use aegisone_core.Preflight.{Preflight, envelope, failure, run_strict_preflight}
use aegisone_core.Pipeline.{
  receipt_input, Outcome, execute_envelope, executed, failed, execute_deterministic_pipeline,
  ExecutionResult,
}
use aegisone_core.Contracts.{ParsedEnvelope, OrbitTrace, ArmTrace, RamonaTrace}
use aegisone_core.Contracts.Receipt.{SignedReceipt}
use aegisone_core.Arm.{ArmStores, projected_cost, multiply_checked}
use aegisone_core.Orbit.{run_strict_orbit}
use aegisone_core.Ramona.{run_strict_ramona}
use aegisone_core.Ramona.Receipt.{build_receipt}
use aegisone_core.Examples.Values.{request_value, reordered_value}
use aegisone_core.Examples.Fixture.{plain, summing, stamping, stores, raw_request, raw_reordered}
use aegisone_core.Examples.Expected.{
  request_envelope, reordered_envelope, request_result, request_input, request_receipt,
  orbit_allows, arm_allows, ramona_allows, stores_after,
}

pub run_preflight : run_strict_preflight summing raw_request ≡ some (envelope request_envelope)
unfolding run_strict_preflight aegisone_core.Json.Parse.parse_strict_json
    aegisone_core.Preflight.preflight_value aegisone_core.Json.Canonical.canonicalize_json
    aegisone_core.Json.Canonical.serialize_number aegisone_core.Preflight.finish_preflight
    aegisone_core.Preflight.read_input aegisone_core.Preflight.Reading.split_sections
    aegisone_core.Preflight.Reading.split_root aegisone_core.Preflight.Checks.reject_unknown_keys
    aegisone_core.Preflight.Checks.first_unknown aegisone_core.Preflight.Checks.object_keys
    aegisone_core.Preflight.Checks.index_keys aegisone_core.Preflight.Checks.array_index
    aegisone_core.Preflight.Checks.name_keys aegisone_core.Json.get_field
    aegisone_core.Preflight.Reading.read_texts aegisone_core.Preflight.Reading.read_lists
    aegisone_core.Contracts.reason_text aegisone_core.Crypto.canonical_policy_payload
    aegisone_core.Crypto.derive_key_id aegisone_core.Crypto.hash_canonical_json
    aegisone_core.Crypto.policy_hash aegisone_core.Crypto.sha256_text
    aegisone_core.Crypto.verify_policy_signature aegisone_core.Js.from_hex aegisone_core.Js.utf8
    aegisone_core.Js.utf8_from aegisone_core.Json.Canonical.decimal
    aegisone_core.Json.Canonical.digits_from aegisone_core.Json.Canonical.insert_key
    aegisone_core.Json.Canonical.join aegisone_core.Json.Canonical.print_pairs
    aegisone_core.Json.Canonical.quote aegisone_core.Json.Canonical.quote_from
    aegisone_core.Json.Canonical.quote_unit aegisone_core.Json.Lexer.decode_string
    aegisone_core.Json.Lexer.match_digits aegisone_core.Json.Lexer.match_number
    aegisone_core.Json.Lexer.parse_number aegisone_core.Json.Lexer.parse_string
    aegisone_core.Json.Lexer.scan_string aegisone_core.Json.Lexer.skip_whitespace
    aegisone_core.Json.Lexer.span_digits aegisone_core.Json.Parse.after_field
    aegisone_core.Json.Parse.after_item aegisone_core.Json.Parse.finish_parse
    aegisone_core.Json.Parse.lead aegisone_core.Json.Parse.parse_value
    aegisone_core.Json.Parse.read_array aegisone_core.Json.Parse.read_lead
    aegisone_core.Json.Parse.read_member aegisone_core.Json.Parse.read_object
    aegisone_core.Json.Parse.separator aegisone_core.Json.Parse.strip_prefix
    aegisone_core.Json.Parse.strip_unit aegisone_core.Orbit.Text.digits_value
    aegisone_core.Preflight.Calls.parse_parameters aegisone_core.Preflight.Calls.parse_signature
    aegisone_core.Preflight.Calls.parse_signatures aegisone_core.Preflight.Calls.parse_tool_call
    aegisone_core.Preflight.Calls.parse_tool_calls
    aegisone_core.Preflight.Calls.parse_tool_calls_from aegisone_core.Preflight.Checks.insert_index
    aegisone_core.Preflight.Checks.reject_reserved aegisone_core.Preflight.Checks.validate_integer
    aegisone_core.Preflight.Amounts.number_values aegisone_core.Preflight.Amounts.numeric_checks
    aegisone_core.Preflight.Amounts.numeric_failure aegisone_core.Preflight.Amounts.read_flags
    aegisone_core.Preflight.Amounts.read_numbers aegisone_core.Preflight.build_input
    aegisone_core.Preflight.check_trust aegisone_core.Preflight.read_trust
    aegisone_core.Preflight.typed_failure has_str str_eq str_lt
run_preflight = refl

pub run_reordered : run_strict_preflight summing raw_reordered ≡ some (envelope reordered_envelope)
unfolding run_strict_preflight aegisone_core.Json.Parse.parse_strict_json
    aegisone_core.Preflight.preflight_value aegisone_core.Json.Canonical.canonicalize_json
    aegisone_core.Json.Canonical.serialize_number aegisone_core.Preflight.finish_preflight
    aegisone_core.Preflight.read_input aegisone_core.Preflight.Reading.split_sections
    aegisone_core.Preflight.Reading.split_root aegisone_core.Preflight.Checks.reject_unknown_keys
    aegisone_core.Preflight.Checks.first_unknown aegisone_core.Preflight.Checks.object_keys
    aegisone_core.Preflight.Checks.index_keys aegisone_core.Preflight.Checks.array_index
    aegisone_core.Preflight.Checks.name_keys aegisone_core.Json.get_field
    aegisone_core.Preflight.Reading.read_texts aegisone_core.Preflight.Reading.read_lists
    aegisone_core.Contracts.reason_text aegisone_core.Crypto.canonical_policy_payload
    aegisone_core.Crypto.derive_key_id aegisone_core.Crypto.hash_canonical_json
    aegisone_core.Crypto.policy_hash aegisone_core.Crypto.sha256_text
    aegisone_core.Crypto.verify_policy_signature aegisone_core.Js.from_hex aegisone_core.Js.utf8
    aegisone_core.Js.utf8_from aegisone_core.Json.Canonical.decimal
    aegisone_core.Json.Canonical.digits_from aegisone_core.Json.Canonical.insert_key
    aegisone_core.Json.Canonical.join aegisone_core.Json.Canonical.print_pairs
    aegisone_core.Json.Canonical.quote aegisone_core.Json.Canonical.quote_from
    aegisone_core.Json.Canonical.quote_unit aegisone_core.Json.Lexer.decode_string
    aegisone_core.Json.Lexer.match_digits aegisone_core.Json.Lexer.match_number
    aegisone_core.Json.Lexer.parse_number aegisone_core.Json.Lexer.parse_string
    aegisone_core.Json.Lexer.scan_string aegisone_core.Json.Lexer.skip_whitespace
    aegisone_core.Json.Lexer.span_digits aegisone_core.Json.Parse.after_field
    aegisone_core.Json.Parse.after_item aegisone_core.Json.Parse.finish_parse
    aegisone_core.Json.Parse.lead aegisone_core.Json.Parse.parse_value
    aegisone_core.Json.Parse.read_array aegisone_core.Json.Parse.read_lead
    aegisone_core.Json.Parse.read_member aegisone_core.Json.Parse.read_object
    aegisone_core.Json.Parse.separator aegisone_core.Json.Parse.strip_prefix
    aegisone_core.Json.Parse.strip_unit aegisone_core.Orbit.Text.digits_value
    aegisone_core.Preflight.Calls.parse_parameters aegisone_core.Preflight.Calls.parse_signature
    aegisone_core.Preflight.Calls.parse_signatures aegisone_core.Preflight.Calls.parse_tool_call
    aegisone_core.Preflight.Calls.parse_tool_calls
    aegisone_core.Preflight.Calls.parse_tool_calls_from aegisone_core.Preflight.Checks.insert_index
    aegisone_core.Preflight.Checks.reject_reserved aegisone_core.Preflight.Checks.validate_integer
    aegisone_core.Preflight.Amounts.number_values aegisone_core.Preflight.Amounts.numeric_checks
    aegisone_core.Preflight.Amounts.numeric_failure aegisone_core.Preflight.Amounts.read_flags
    aegisone_core.Preflight.Amounts.read_numbers aegisone_core.Preflight.build_input
    aegisone_core.Preflight.check_trust aegisone_core.Preflight.read_trust
    aegisone_core.Preflight.typed_failure has_str str_eq str_lt
run_reordered = refl

run_envelope :
    execute_envelope summing plain stamping request_envelope stores
    ≡ (stores_after, some (executed request_result))
unfolding aegisone_core.Js.trim_start aegisone_core.Js.trim aegisone_core.Js.starts_with
    aegisone_core.Js.includes aegisone_core.Js.collapse_spaces aegisone_core.Js.utf8_from
    aegisone_core.Js.utf8 aegisone_core.Js.from_hex aegisone_core.Json.Canonical.quote_unit
    aegisone_core.Json.Canonical.quote_from aegisone_core.Json.Canonical.quote
    aegisone_core.Json.Canonical.digits_from aegisone_core.Json.Canonical.decimal
    aegisone_core.Json.Canonical.serialize_number aegisone_core.Json.Canonical.insert_key
    aegisone_core.Json.Canonical.join aegisone_core.Json.Canonical.print_pairs
    aegisone_core.Json.Canonical.canonicalize_json aegisone_core.Json.Canonical.canonicalize_items
    aegisone_core.Json.Canonical.canonicalize_fields aegisone_core.Contracts.reason_text
    aegisone_core.Contracts.decision_text aegisone_core.Contracts.Encode.tool_calls_items
    aegisone_core.Contracts.Encode.signatures_items aegisone_core.Contracts.Receipt.payload_fields
    aegisone_core.Crypto.sha256_text aegisone_core.Crypto.hash_canonical_json
    aegisone_core.Crypto.derive_key_id aegisone_core.Crypto.verify_policy_signature
    aegisone_core.Crypto.canonical_policy_payload aegisone_core.Crypto.policy_hash
    aegisone_core.Orbit.call_parameters aegisone_core.Orbit.intent_parameter_objects
    aegisone_core.Orbit.parameter_text aegisone_core.Orbit.count_nested_action_markers
    aegisone_core.Orbit.count_items aegisone_core.Orbit.count_fields
    aegisone_core.Orbit.has_multiple_actions aegisone_core.Orbit.matches_rule
    aegisone_core.Orbit.any_unsafe aegisone_core.Orbit.has_unsafe_parameters
    aegisone_core.Orbit.tool_calls_equal aegisone_core.Orbit.check_parameters
    aegisone_core.Orbit.run_strict_orbit aegisone_core.Orbit.Text.normalize_suspicious_text
    aegisone_core.Orbit.Text.ipv4_from_number aegisone_core.Orbit.Text.run_length
    aegisone_core.Orbit.Text.lengths_down aegisone_core.Orbit.Text.groups_from
    aegisone_core.Orbit.Text.dotted_lengths aegisone_core.Orbit.Text.alternatives
    aegisone_core.Orbit.Text.first_bounded aegisone_core.Orbit.Text.token_length
    aegisone_core.Orbit.Text.digits_value aegisone_core.Orbit.Text.parse_ip_token
    aegisone_core.Orbit.Text.replace_tokens aegisone_core.Orbit.Text.normalize_orbit_text
    aegisone_core.Arm.multiply_checked aegisone_core.Arm.projected_cost
    aegisone_core.Arm.refusal_reason aegisone_core.Arm.charge_budget aegisone_core.Arm.gated
    aegisone_core.Arm.run_strict_arm aegisone_core.Arm.commit_arm_allow aegisone_core.State.begin
    aegisone_core.State.commit_allow aegisone_core.State.snapshot aegisone_core.State.define
    aegisone_core.State.reserve aegisone_core.Ramona.runtime_check
    aegisone_core.Ramona.run_strict_ramona aegisone_core.Ramona.Receipt.signing_config
    aegisone_core.Ramona.Receipt.format_usd_from_cents aegisone_core.Ramona.Receipt.hmac_signature
    aegisone_core.Ramona.Receipt.sign_payload aegisone_core.Ramona.Receipt.final_decision
    aegisone_core.Ramona.Receipt.final_reason aegisone_core.Ramona.Receipt.receipt_payload
    aegisone_core.Ramona.Receipt.build_receipt
    aegisone_core.Ramona.Receipt.verify_receipt_public_signature
    aegisone_core.Ramona.Receipt.hmac_matches aegisone_core.Ramona.Receipt.verify_receipt_signature
    aegisone_core.Ramona.Receipt.verify_receipt_replay aegisone_core.Pipeline.commit_receipt
    aegisone_core.Pipeline.settle aegisone_core.Pipeline.execute_envelope
    aegisone_core.Pipeline.execute_deterministic_pipeline aegisone_core.Pipeline.run_call
    aegisone_core.Pipeline.run_calls aegisone_core.Json.get_field has_str str_eq str_lt
    aegisone_core.Prelude.lookup aegisone_core.Prelude.insert
run_envelope = refl

pub run_executes :
    execute_deterministic_pipeline summing plain stamping raw_request stores
    ≡ (stores_after, some (executed request_result))
unfolding execute_deterministic_pipeline
run_executes = rw (run_preflight, execute_deterministic_pipeline) run_envelope

pub parse_request : parse_strict_json raw_request ≡ ok request_value
unfolding parse_strict_json
parse_request = refl

pub parse_reordered : parse_strict_json raw_reordered ≡ ok reordered_value
unfolding parse_strict_json
parse_reordered = refl

pub run_orbit : run_strict_orbit summing plain request_input ≡ some orbit_allows
unfolding aegisone_core.Js.trim_start aegisone_core.Js.trim aegisone_core.Js.starts_with
    aegisone_core.Js.includes aegisone_core.Js.collapse_spaces aegisone_core.Js.utf8_from
    aegisone_core.Js.utf8 aegisone_core.Js.from_hex aegisone_core.Json.Canonical.quote_unit
    aegisone_core.Json.Canonical.quote_from aegisone_core.Json.Canonical.quote
    aegisone_core.Json.Canonical.digits_from aegisone_core.Json.Canonical.decimal
    aegisone_core.Json.Canonical.serialize_number aegisone_core.Json.Canonical.insert_key
    aegisone_core.Json.Canonical.join aegisone_core.Json.Canonical.print_pairs
    aegisone_core.Json.Canonical.canonicalize_json aegisone_core.Json.Canonical.canonicalize_items
    aegisone_core.Json.Canonical.canonicalize_fields aegisone_core.Contracts.reason_text
    aegisone_core.Contracts.decision_text aegisone_core.Contracts.Encode.tool_calls_items
    aegisone_core.Contracts.Encode.signatures_items aegisone_core.Contracts.Receipt.payload_fields
    aegisone_core.Crypto.sha256_text aegisone_core.Crypto.hash_canonical_json
    aegisone_core.Crypto.derive_key_id aegisone_core.Crypto.verify_policy_signature
    aegisone_core.Crypto.canonical_policy_payload aegisone_core.Crypto.policy_hash
    aegisone_core.Orbit.call_parameters aegisone_core.Orbit.intent_parameter_objects
    aegisone_core.Orbit.parameter_text aegisone_core.Orbit.count_nested_action_markers
    aegisone_core.Orbit.count_items aegisone_core.Orbit.count_fields
    aegisone_core.Orbit.has_multiple_actions aegisone_core.Orbit.matches_rule
    aegisone_core.Orbit.any_unsafe aegisone_core.Orbit.has_unsafe_parameters
    aegisone_core.Orbit.tool_calls_equal aegisone_core.Orbit.check_parameters
    aegisone_core.Orbit.run_strict_orbit aegisone_core.Orbit.Text.normalize_suspicious_text
    aegisone_core.Orbit.Text.ipv4_from_number aegisone_core.Orbit.Text.run_length
    aegisone_core.Orbit.Text.lengths_down aegisone_core.Orbit.Text.groups_from
    aegisone_core.Orbit.Text.dotted_lengths aegisone_core.Orbit.Text.alternatives
    aegisone_core.Orbit.Text.first_bounded aegisone_core.Orbit.Text.token_length
    aegisone_core.Orbit.Text.digits_value aegisone_core.Orbit.Text.parse_ip_token
    aegisone_core.Orbit.Text.replace_tokens aegisone_core.Orbit.Text.normalize_orbit_text
    aegisone_core.Arm.multiply_checked aegisone_core.Arm.projected_cost
    aegisone_core.Arm.refusal_reason aegisone_core.Arm.charge_budget aegisone_core.Arm.gated
    aegisone_core.Arm.run_strict_arm aegisone_core.Arm.commit_arm_allow aegisone_core.State.begin
    aegisone_core.State.commit_allow aegisone_core.State.snapshot aegisone_core.State.define
    aegisone_core.State.reserve aegisone_core.Ramona.runtime_check
    aegisone_core.Ramona.run_strict_ramona aegisone_core.Ramona.Receipt.signing_config
    aegisone_core.Ramona.Receipt.format_usd_from_cents aegisone_core.Ramona.Receipt.hmac_signature
    aegisone_core.Ramona.Receipt.sign_payload aegisone_core.Ramona.Receipt.final_decision
    aegisone_core.Ramona.Receipt.final_reason aegisone_core.Ramona.Receipt.receipt_payload
    aegisone_core.Ramona.Receipt.build_receipt
    aegisone_core.Ramona.Receipt.verify_receipt_public_signature
    aegisone_core.Ramona.Receipt.hmac_matches aegisone_core.Ramona.Receipt.verify_receipt_signature
    aegisone_core.Ramona.Receipt.verify_receipt_replay aegisone_core.Pipeline.commit_receipt
    aegisone_core.Pipeline.settle aegisone_core.Pipeline.execute_envelope
    aegisone_core.Pipeline.execute_deterministic_pipeline aegisone_core.Pipeline.run_call
    aegisone_core.Pipeline.run_calls aegisone_core.Json.get_field has_str str_eq str_lt
    aegisone_core.Prelude.lookup aegisone_core.Prelude.insert
run_orbit = refl

pub run_cost : projected_cost request_input ≡ some 120
unfolding projected_cost multiply_checked
run_cost = refl

pub run_ramona : run_strict_ramona summing request_input arm_allows ≡ some ramona_allows
unfolding aegisone_core.Js.trim_start aegisone_core.Js.trim aegisone_core.Js.starts_with
    aegisone_core.Js.includes aegisone_core.Js.collapse_spaces aegisone_core.Js.utf8_from
    aegisone_core.Js.utf8 aegisone_core.Js.from_hex aegisone_core.Json.Canonical.quote_unit
    aegisone_core.Json.Canonical.quote_from aegisone_core.Json.Canonical.quote
    aegisone_core.Json.Canonical.digits_from aegisone_core.Json.Canonical.decimal
    aegisone_core.Json.Canonical.serialize_number aegisone_core.Json.Canonical.insert_key
    aegisone_core.Json.Canonical.join aegisone_core.Json.Canonical.print_pairs
    aegisone_core.Json.Canonical.canonicalize_json aegisone_core.Json.Canonical.canonicalize_items
    aegisone_core.Json.Canonical.canonicalize_fields aegisone_core.Contracts.reason_text
    aegisone_core.Contracts.decision_text aegisone_core.Contracts.Encode.tool_calls_items
    aegisone_core.Contracts.Encode.signatures_items aegisone_core.Contracts.Receipt.payload_fields
    aegisone_core.Crypto.sha256_text aegisone_core.Crypto.hash_canonical_json
    aegisone_core.Crypto.derive_key_id aegisone_core.Crypto.verify_policy_signature
    aegisone_core.Crypto.canonical_policy_payload aegisone_core.Crypto.policy_hash
    aegisone_core.Orbit.call_parameters aegisone_core.Orbit.intent_parameter_objects
    aegisone_core.Orbit.parameter_text aegisone_core.Orbit.count_nested_action_markers
    aegisone_core.Orbit.count_items aegisone_core.Orbit.count_fields
    aegisone_core.Orbit.has_multiple_actions aegisone_core.Orbit.matches_rule
    aegisone_core.Orbit.any_unsafe aegisone_core.Orbit.has_unsafe_parameters
    aegisone_core.Orbit.tool_calls_equal aegisone_core.Orbit.check_parameters
    aegisone_core.Orbit.run_strict_orbit aegisone_core.Orbit.Text.normalize_suspicious_text
    aegisone_core.Orbit.Text.ipv4_from_number aegisone_core.Orbit.Text.run_length
    aegisone_core.Orbit.Text.lengths_down aegisone_core.Orbit.Text.groups_from
    aegisone_core.Orbit.Text.dotted_lengths aegisone_core.Orbit.Text.alternatives
    aegisone_core.Orbit.Text.first_bounded aegisone_core.Orbit.Text.token_length
    aegisone_core.Orbit.Text.digits_value aegisone_core.Orbit.Text.parse_ip_token
    aegisone_core.Orbit.Text.replace_tokens aegisone_core.Orbit.Text.normalize_orbit_text
    aegisone_core.Arm.multiply_checked aegisone_core.Arm.projected_cost
    aegisone_core.Arm.refusal_reason aegisone_core.Arm.charge_budget aegisone_core.Arm.gated
    aegisone_core.Arm.run_strict_arm aegisone_core.Arm.commit_arm_allow aegisone_core.State.begin
    aegisone_core.State.commit_allow aegisone_core.State.snapshot aegisone_core.State.define
    aegisone_core.State.reserve aegisone_core.Ramona.runtime_check
    aegisone_core.Ramona.run_strict_ramona aegisone_core.Ramona.Receipt.signing_config
    aegisone_core.Ramona.Receipt.format_usd_from_cents aegisone_core.Ramona.Receipt.hmac_signature
    aegisone_core.Ramona.Receipt.sign_payload aegisone_core.Ramona.Receipt.final_decision
    aegisone_core.Ramona.Receipt.final_reason aegisone_core.Ramona.Receipt.receipt_payload
    aegisone_core.Ramona.Receipt.build_receipt
    aegisone_core.Ramona.Receipt.verify_receipt_public_signature
    aegisone_core.Ramona.Receipt.hmac_matches aegisone_core.Ramona.Receipt.verify_receipt_signature
    aegisone_core.Ramona.Receipt.verify_receipt_replay aegisone_core.Pipeline.commit_receipt
    aegisone_core.Pipeline.settle aegisone_core.Pipeline.execute_envelope
    aegisone_core.Pipeline.execute_deterministic_pipeline aegisone_core.Pipeline.run_call
    aegisone_core.Pipeline.run_calls aegisone_core.Json.get_field has_str str_eq str_lt
    aegisone_core.Prelude.lookup aegisone_core.Prelude.insert
run_ramona = refl

pub run_receipt :
    build_receipt summing stamping
      (receipt_input request_envelope orbit_allows arm_allows ramona_allows)
    ≡ some request_receipt
unfolding aegisone_core.Js.trim_start aegisone_core.Js.trim aegisone_core.Js.starts_with
    aegisone_core.Js.includes aegisone_core.Js.collapse_spaces aegisone_core.Js.utf8_from
    aegisone_core.Js.utf8 aegisone_core.Js.from_hex aegisone_core.Json.Canonical.quote_unit
    aegisone_core.Json.Canonical.quote_from aegisone_core.Json.Canonical.quote
    aegisone_core.Json.Canonical.digits_from aegisone_core.Json.Canonical.decimal
    aegisone_core.Json.Canonical.serialize_number aegisone_core.Json.Canonical.insert_key
    aegisone_core.Json.Canonical.join aegisone_core.Json.Canonical.print_pairs
    aegisone_core.Json.Canonical.canonicalize_json aegisone_core.Json.Canonical.canonicalize_items
    aegisone_core.Json.Canonical.canonicalize_fields aegisone_core.Contracts.reason_text
    aegisone_core.Contracts.decision_text aegisone_core.Contracts.Encode.tool_calls_items
    aegisone_core.Contracts.Encode.signatures_items aegisone_core.Contracts.Receipt.payload_fields
    aegisone_core.Crypto.sha256_text aegisone_core.Crypto.hash_canonical_json
    aegisone_core.Crypto.derive_key_id aegisone_core.Crypto.verify_policy_signature
    aegisone_core.Crypto.canonical_policy_payload aegisone_core.Crypto.policy_hash
    aegisone_core.Orbit.call_parameters aegisone_core.Orbit.intent_parameter_objects
    aegisone_core.Orbit.parameter_text aegisone_core.Orbit.count_nested_action_markers
    aegisone_core.Orbit.count_items aegisone_core.Orbit.count_fields
    aegisone_core.Orbit.has_multiple_actions aegisone_core.Orbit.matches_rule
    aegisone_core.Orbit.any_unsafe aegisone_core.Orbit.has_unsafe_parameters
    aegisone_core.Orbit.tool_calls_equal aegisone_core.Orbit.check_parameters
    aegisone_core.Orbit.run_strict_orbit aegisone_core.Orbit.Text.normalize_suspicious_text
    aegisone_core.Orbit.Text.ipv4_from_number aegisone_core.Orbit.Text.run_length
    aegisone_core.Orbit.Text.lengths_down aegisone_core.Orbit.Text.groups_from
    aegisone_core.Orbit.Text.dotted_lengths aegisone_core.Orbit.Text.alternatives
    aegisone_core.Orbit.Text.first_bounded aegisone_core.Orbit.Text.token_length
    aegisone_core.Orbit.Text.digits_value aegisone_core.Orbit.Text.parse_ip_token
    aegisone_core.Orbit.Text.replace_tokens aegisone_core.Orbit.Text.normalize_orbit_text
    aegisone_core.Arm.multiply_checked aegisone_core.Arm.projected_cost
    aegisone_core.Arm.refusal_reason aegisone_core.Arm.charge_budget aegisone_core.Arm.gated
    aegisone_core.Arm.run_strict_arm aegisone_core.Arm.commit_arm_allow aegisone_core.State.begin
    aegisone_core.State.commit_allow aegisone_core.State.snapshot aegisone_core.State.define
    aegisone_core.State.reserve aegisone_core.Ramona.runtime_check
    aegisone_core.Ramona.run_strict_ramona aegisone_core.Ramona.Receipt.signing_config
    aegisone_core.Ramona.Receipt.format_usd_from_cents aegisone_core.Ramona.Receipt.hmac_signature
    aegisone_core.Ramona.Receipt.sign_payload aegisone_core.Ramona.Receipt.final_decision
    aegisone_core.Ramona.Receipt.final_reason aegisone_core.Ramona.Receipt.receipt_payload
    aegisone_core.Ramona.Receipt.build_receipt
    aegisone_core.Ramona.Receipt.verify_receipt_public_signature
    aegisone_core.Ramona.Receipt.hmac_matches aegisone_core.Ramona.Receipt.verify_receipt_signature
    aegisone_core.Ramona.Receipt.verify_receipt_replay aegisone_core.Pipeline.commit_receipt
    aegisone_core.Pipeline.settle aegisone_core.Pipeline.execute_envelope
    aegisone_core.Pipeline.execute_deterministic_pipeline aegisone_core.Pipeline.run_call
    aegisone_core.Pipeline.run_calls aegisone_core.Json.get_field has_str str_eq str_lt
    aegisone_core.Prelude.lookup aegisone_core.Prelude.insert
run_receipt = refl
