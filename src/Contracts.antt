-- ===== src/Contracts.antt =====
-- shared/contracts.ts: the reason codes, the execution input, and what the layers hand on.
pub mod Encode
pub mod Receipt
use aegisone_core.Prelude.{ℕ, Str, lit, Bool, List, Option}
use aegisone_core.Json.{Fields}

pub data ReasonCode : Type 0 where
  schema_validation duplicate_json_keys invalid_json_syntax invalid_json_number : ReasonCode
  type_mismatch non_deterministic_input policy_version_mismatch : ReasonCode
  policy_key_id_mismatch invalid_policy_signature tool_call_sequence : ReasonCode
  orbit_multiple_actions forbidden_action_in_parameters : ReasonCode
  execution_id_already_consumed execution_id_replayed budget_token_exhausted : ReasonCode
  integer_overflow cost_limit auto_scale_denied gpu_limit hours_limit retry_limit : ReasonCode
  manual_approval_required kill_switch runtime_gpu_drift runtime_hours_drift : ReasonCode
  runtime_cost_drift receipt_signature_invalid replay_mismatch : ReasonCode
  ok_allow ok_orbit ok_arm ok_ramona : ReasonCode

unfoldable pub reason_text : ReasonCode → Str
reason_text schema_validation = lit "ERR_SCHEMA_VALIDATION"
reason_text duplicate_json_keys = lit "ERR_DUPLICATE_JSON_KEYS"
reason_text invalid_json_syntax = lit "ERR_INVALID_JSON_SYNTAX"
reason_text invalid_json_number = lit "ERR_INVALID_JSON_NUMBER"
reason_text type_mismatch = lit "ERR_TYPE_MISMATCH"
reason_text non_deterministic_input = lit "ERR_NON_DETERMINISTIC_INPUT"
reason_text policy_version_mismatch = lit "ERR_POLICY_VERSION_MISMATCH"
reason_text policy_key_id_mismatch = lit "ERR_POLICY_KEY_ID_MISMATCH"
reason_text invalid_policy_signature = lit "ERR_INVALID_POLICY_SIGNATURE"
reason_text tool_call_sequence = lit "ERR_TOOL_CALL_SEQUENCE"
reason_text orbit_multiple_actions = lit "ERR_ORBIT_MULTIPLE_ACTIONS"
reason_text forbidden_action_in_parameters = lit "ERR_FORBIDDEN_ACTION_IN_PARAMETERS"
reason_text execution_id_already_consumed = lit "ERR_EXECUTION_ID_ALREADY_CONSUMED"
reason_text execution_id_replayed = lit "ERR_EXECUTION_ID_REPLAYED"
reason_text budget_token_exhausted = lit "ERR_BUDGET_TOKEN_EXHAUSTED"
reason_text integer_overflow = lit "ERR_INTEGER_OVERFLOW"
reason_text cost_limit = lit "ERR_COST_LIMIT"
reason_text auto_scale_denied = lit "ERR_AUTO_SCALE_DENIED"
reason_text gpu_limit = lit "ERR_GPU_LIMIT"
reason_text hours_limit = lit "ERR_HOURS_LIMIT"
reason_text retry_limit = lit "ERR_RETRY_LIMIT"
reason_text manual_approval_required = lit "ERR_MANUAL_APPROVAL_REQUIRED"
reason_text kill_switch = lit "ERR_KILL_SWITCH"
reason_text runtime_gpu_drift = lit "ERR_RUNTIME_GPU_DRIFT"
reason_text runtime_hours_drift = lit "ERR_RUNTIME_HOURS_DRIFT"
reason_text runtime_cost_drift = lit "ERR_RUNTIME_COST_DRIFT"
reason_text receipt_signature_invalid = lit "ERR_RECEIPT_SIGNATURE_INVALID"
reason_text replay_mismatch = lit "ERR_REPLAY_MISMATCH"
reason_text ok_allow = lit "OK_ALLOW"
reason_text ok_orbit = lit "OK_ORBIT"
reason_text ok_arm = lit "OK_ARM"
reason_text ok_ramona = lit "OK_RAM0NA"

pub data Decision : Type 0 where
  allow refuse : Decision

unfoldable pub decision_text : Decision → Str
decision_text allow = lit "ALLOW"
decision_text refuse = lit "REFUSE"

pub record ToolCall : Type 0 where
  pub tool : Str
  pub priority : ℕ
  pub parameters : Option Fields

pub record Resources : Type 0 where
  pub gpu_type : Str
  pub gpu_count : ℕ
  pub hours : ℕ

pub record Execution : Type 0 where
  pub auto_scale : Bool
  pub max_scale_multiplier : ℕ
  pub retry_on_fail : Bool
  pub max_retries : ℕ

pub record Signature : Type 0 where
  pub alg : Str
  pub sig : Str

-- The source's `payload.tool_calls` is the field `tool_calls` here.
pub record OrbitIntent : Type 0 where
  pub orbit_version : Str
  pub action : Str
  pub boundary : Str
  pub tool_calls : List ToolCall
  pub lifecycle_state : Str
  pub signatures : List Signature

pub record ReleaseRequest : Type 0 where
  pub execution_id : Str
  pub hold_state : Str
  pub already_consumed : Bool

pub record RuntimeObservation : Type 0 where
  pub kill_switch_active : Bool
  pub actual_gpu_count : ℕ
  pub actual_hours : ℕ
  pub actual_total_cost_cents : ℕ

-- The source's `actor.user_id` is the field `user_id` here.
pub record ExecutionRequest : Type 0 where
  pub request_id : Str
  pub submitted_region : Str
  pub user_id : Str
  pub resources : Resources
  pub execution : Execution
  pub tool_calls : List ToolCall
  pub parameters : Option Fields
  pub orbit_intent : OrbitIntent
  pub release_request : ReleaseRequest
  pub runtime_observation : RuntimeObservation
  pub budget_token : Option Str

pub record PolicyTrust : Type 0 where
  pub key_version : Str
  pub key_id : Str
  pub public_key : Str
  pub signature : Str

pub record PolicyRules : Type 0 where
  pub max_total_cost_cents : ℕ
  pub allow_auto_scale : Bool
  pub max_gpu_count : ℕ
  pub max_hours : ℕ
  pub require_manual_approval_above_cents : ℕ
  pub max_retry_count : ℕ

pub record PolicyDocument : Type 0 where
  pub schema_version : Str
  pub policy_version : Str
  pub trust : Option PolicyTrust
  pub rules : PolicyRules

-- The source's `pricing_data.gpu_hour_cents` is the field `gpu_hour_cents` here.
pub record CanonicalExecutionInput : Type 0 where
  pub execution_request : ExecutionRequest
  pub policy_document : PolicyDocument
  pub gpu_hour_cents : ℕ

pub record ParsedEnvelope : Type 0 where
  pub raw_input : Str
  pub canonical_input : Str
  pub request_hash : Str
  pub parsed_input : CanonicalExecutionInput
  pub policy_hash : Str

-- `decision` is always "REFUSE" and `parse_boundary` always true, so neither is a field.
pub record TypedFailure : Type 0 where
  pub request_hash : Str
  pub decision_hash : Str
  pub reason_code : ReasonCode

pub record PreflightTrace : Type 0 where
  pub request_hash : Str
  pub policy_hash : Str
  pub policy_version : Str

pub record OrbitTrace : Type 0 where
  pub decision : Decision
  pub reason_code : ReasonCode
  pub validation_hash : Str

pub record ArmTrace : Type 0 where
  pub decision : Decision
  pub reason_code : ReasonCode
  pub projected_total_cost_cents : ℕ
  pub allowed_cost_cents : ℕ
  pub prevented_cost_cents : ℕ
  pub execution_id : Str
  pub budget_token : Option Str

pub record RamonaTrace : Type 0 where
  pub decision : Decision
  pub reason_code : ReasonCode
  pub runtime_hash : Str

pub record DecisionOutput : Type 0 where
  pub decision : Decision
  pub decision_hash : Str
  pub request_hash : Str
  pub reason_code : ReasonCode
  pub total_cost_usd : Str
  pub allowed_cost_usd : Str
  pub prevented_cost_usd : Str
  pub policy_version : Str
  pub policy_hash : Str
  pub execution_id : Str
  pub key_set_version : Str

pub record SignedReceiptPayload : Type 0 where
  pub canonical_request : Str
  pub request_hash : Str
  pub decision_output : DecisionOutput
  pub preflight : PreflightTrace
  pub orbit : OrbitTrace
  pub arm : ArmTrace
  pub ramona : RamonaTrace
