-- ===== src/Preflight/Reading.antt =====
-- preflight/engine.ts, the parts of `runStrictPreflight` between the canonical text and the policy:
-- the sections, their texts, lists, in the code's order.
use aegisone_core.Prelude.{Str, lit, List, [], ◌∷◌, Option, none, some}
use aegisone_core.Json.{Value, obj, Fields, get_field}
use aegisone_core.Contracts.{ToolCall, Signature, schema_validation, type_mismatch}
use aegisone_core.Preflight.Checks.{
  Checked, ok, ◌>>=◌, ◌>>◌, pass, required, reject_unknown_keys, reject_reserved, expect_string,
  as_record, as_filled_array,
}
use aegisone_core.Preflight.Calls.{parse_parameters, parse_tool_calls, parse_signatures}

-- The objects of the input.
pub record Sections : Type 0 where
  pub request : Fields
  pub policy : Fields
  pub pricing : Fields
  pub actor : Fields
  pub resources : Fields
  pub execution : Fields
  pub orbit : Fields
  pub release : Fields
  pub runtime : Fields
  pub rules : Fields

abbrev pub record_at : Str → Fields → Checked Fields
record_at k root = required schema_validation (as_record (get_field k root))

unfoldable pub split_root : Fields → Checked (Fields × Fields × Fields)
split_root root = do
  pass (
      reject_unknown_keys
        (lit "execution_request" ∷ lit "policy_document" ∷ lit "pricing_data" ∷ []) root)
  request ← record_at (lit "execution_request") root
  policy ← record_at (lit "policy_document") root
  pricing ← record_at (lit "pricing_data") root
  ok (request, policy, pricing)

abbrev request_keys : List Str
request_keys =
    lit "request_id"
    ∷ lit "submitted_region"
    ∷ lit "actor"
    ∷ lit "resources"
    ∷ lit "execution"
    ∷ lit "tool_calls"
    ∷ lit "parameters"
    ∷ lit "orbit_intent"
    ∷ lit "release_request"
    ∷ lit "runtime_observation"
    ∷ lit "budget_token"
    ∷ []

abbrev rules_keys : List Str
rules_keys =
    lit "max_total_cost_cents"
    ∷ lit "allow_auto_scale"
    ∷ lit "max_gpu_count"
    ∷ lit "max_hours"
    ∷ lit "require_manual_approval_above_cents"
    ∷ lit "max_retry_count"
    ∷ []

-- The sections of the root, each with no unknown key.
unfoldable pub split_sections : Fields → Checked Sections
split_sections root = do
  (request, policy, pricing) ← split_root root
  pass (reject_unknown_keys request_keys request)
  actor ← record_at (lit "actor") request
  resources ← record_at (lit "resources") request
  execution ← record_at (lit "execution") request
  orbit ← record_at (lit "orbit_intent") request
  release ← record_at (lit "release_request") request
  runtime ← record_at (lit "runtime_observation") request
  pass (reject_unknown_keys (lit "user_id" ∷ []) actor)
  pass (reject_unknown_keys (lit "gpu_type" ∷ lit "gpu_count" ∷ lit "hours" ∷ []) resources)
  pass (
      reject_unknown_keys
        (lit "auto_scale"
          ∷ lit "max_scale_multiplier"
          ∷ lit "retry_on_fail"
          ∷ lit "max_retries"
          ∷ [])
        execution)
  pass (
      reject_unknown_keys
        (lit "orbit_version"
          ∷ lit "action"
          ∷ lit "boundary"
          ∷ lit "payload"
          ∷ lit "lifecycle_state"
          ∷ lit "signatures"
          ∷ [])
        orbit)
  pass (
      reject_unknown_keys (lit "execution_id" ∷ lit "hold_state" ∷ lit "already_consumed" ∷ [])
        release)
  pass (
      reject_unknown_keys
        (lit "kill_switch_active"
          ∷ lit "actual_gpu_count"
          ∷ lit "actual_hours"
          ∷ lit "actual_total_cost_cents"
          ∷ [])
        runtime)
  pass (reject_unknown_keys (lit "gpu_hour_cents" ∷ []) pricing)
  pass (
      reject_unknown_keys
        (lit "schema_version" ∷ lit "policy_version" ∷ lit "rules" ∷ lit "trust" ∷ []) policy)
  rules ← record_at (lit "rules") policy
  pass (reject_unknown_keys rules_keys rules)
  ok (record {
    request = request;
    policy = policy;
    pricing = pricing;
    actor = actor;
    resources = resources;
    execution = execution;
    orbit = orbit;
    release = release;
    runtime = runtime;
    rules = rules;
  })

pub record Texts : Type 0 where
  pub request_id : Str
  pub submitted_region : Str
  pub user_id : Str
  pub gpu_type : Str
  pub execution_id : Str
  pub hold_state : Str
  pub orbit_version : Str
  pub action : Str
  pub boundary : Str
  pub lifecycle_state : Str
  pub schema_version : Str
  pub policy_version : Str
  pub budget_token : Option Str

abbrev text_at : Str → Fields → Checked Str
text_at k root = required type_mismatch (expect_string (get_field k root))

abbrev pub optional_text : Option Value → Checked (Option Str)
optional_text none = ok none
optional_text (some v) = do t ← required type_mismatch (expect_string (some v)); ok (some t)

unfoldable pub read_texts : Sections → Checked Texts
read_texts s = do
  request_id ← text_at (lit "request_id") s.request
  submitted_region ← text_at (lit "submitted_region") s.request
  user_id ← text_at (lit "user_id") s.actor
  gpu_type ← text_at (lit "gpu_type") s.resources
  execution_id ← text_at (lit "execution_id") s.release
  hold_state ← text_at (lit "hold_state") s.release
  orbit_version ← text_at (lit "orbit_version") s.orbit
  action ← text_at (lit "action") s.orbit
  boundary ← text_at (lit "boundary") s.orbit
  lifecycle_state ← text_at (lit "lifecycle_state") s.orbit
  schema_version ← text_at (lit "schema_version") s.policy
  policy_version ← text_at (lit "policy_version") s.policy
  budget_token ← optional_text (get_field (lit "budget_token") s.request)
  ok (record {
    request_id = request_id;
    submitted_region = submitted_region;
    user_id = user_id;
    gpu_type = gpu_type;
    execution_id = execution_id;
    hold_state = hold_state;
    orbit_version = orbit_version;
    action = action;
    boundary = boundary;
    lifecycle_state = lifecycle_state;
    schema_version = schema_version;
    policy_version = policy_version;
    budget_token = budget_token;
  })

pub record Lists : Type 0 where
  pub tool_calls : List ToolCall
  pub parameters : Option Fields
  pub signatures : List Signature
  pub orbit_tool_calls : List ToolCall

unfoldable pub read_lists : Sections → Checked Lists
read_lists s = do
  tool_calls ← parse_tool_calls (get_field (lit "tool_calls") s.request)
  parameters ← parse_parameters (get_field (lit "parameters") s.request)
  items ← required schema_validation (as_filled_array (get_field (lit "signatures") s.orbit))
  signatures ← parse_signatures items
  payload ← record_at (lit "payload") s.orbit
  pass (reject_reserved (obj payload))
  pass (reject_unknown_keys (lit "tool_calls" ∷ []) payload)
  orbit_tool_calls ← parse_tool_calls (get_field (lit "tool_calls") payload)
  ok (record {
    tool_calls = tool_calls;
    parameters = parameters;
    signatures = signatures;
    orbit_tool_calls = orbit_tool_calls;
  })
