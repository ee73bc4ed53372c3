-- ===== src/Orbit.antt =====
-- orbit/engine.ts: the strict intent gate. `none` is an error that `canonicalizeJson` throws.
pub mod Text
pub mod Laws
mod Tests
use aegisone_core.Prelude.{
  ◌>>=◌, ℕ, zero, suc, ◌+◌, Str, lit, Bool, true, false, ◌&&◌, ◌||◌, not, List, [], ◌∷◌, ◌++◌, map,
  Option, none, some, if◌then◌else◌, ltb, any, length, str_eq, has_str,
}
use aegisone_core.Js.{includes}
use aegisone_core.Json.{
  Value, null, bool, num, str, arr, obj, Items, nil, cons, Fields, end, field, items_list,
}
use aegisone_core.Json.Canonical.{canonicalize_json}
use aegisone_core.Contracts.{
  CanonicalExecutionInput, ToolCall, OrbitTrace, Decision, allow, refuse, ReasonCode,
  tool_call_sequence, orbit_multiple_actions, forbidden_action_in_parameters, ok_orbit,
}
use aegisone_core.Contracts.Encode.{tool_calls_json, orbit_intent_json}
use aegisone_core.Crypto.{Crypto, hash_canonical_json}
use aegisone_core.Orbit.Text.{Unicode, normalize_suspicious_text, normalize_orbit_text}

abbrev pub forbidden_code_patterns : List Str
forbidden_code_patterns =
    lit "rm -rf"
    ∷ lit "drop_database"
    ∷ lit "delete_database"
    ∷ lit "/etc/credentials"
    ∷ lit "os.remove("
    ∷ lit "unlink("
    ∷ []

abbrev pub forbidden_network_patterns : List Str
forbidden_network_patterns =
    lit "169.254.169.254"
    ∷ lit "127.0.0.1"
    ∷ lit "::1"
    ∷ lit "localhost"
    ∷ lit ":2375"
    ∷ lit ":2376"
    ∷ []

abbrev pub forbidden_query_patterns : List Str
forbidden_query_patterns =
    lit "select * from secrets" ∷ lit "export select" ∷ lit "api_key" ∷ lit "token dump" ∷ []

abbrev pub forbidden_plan_patterns : List Str
forbidden_plan_patterns =
    lit "retry_until_success"
    ∷ lit "\"limit\":\"none\""
    ∷ lit "\"count\":1000"
    ∷ lit "\"count\":10000"
    ∷ []

abbrev pub action_field_names : List Str
action_field_names =
    lit "action"
    ∷ lit "actions"
    ∷ lit "tool_calls"
    ∷ lit "execution_targets"
    ∷ lit "commands"
    ∷ lit "workflow"
    ∷ lit "steps"
    ∷ lit "tasks"
    ∷ lit "operations"
    ∷ lit "pipeline"
    ∷ lit "run"
    ∷ lit "exec"
    ∷ lit "spawn"
    ∷ lit "shell"
    ∷ []

abbrev pub action_text_patterns : List Str
action_text_patterns =
    lit "deploy_irreversible"
    ∷ lit "irreversible"
    ∷ lit "delete"
    ∷ lit "destroy"
    ∷ lit "scale_gpu_cluster"
    ∷ lit "start_training_job"
    ∷ lit "retry_failed_job"
    ∷ lit "run"
    ∷ lit "exec"
    ∷ lit "spawn"
    ∷ lit "shell"
    ∷ []

-- The patterns of `RULES`, a list for each rule.
abbrev pub rules : List (List Str)
rules =
    forbidden_code_patterns ∷ forbidden_network_patterns ∷ forbidden_query_patterns
    ∷ forbidden_plan_patterns ∷ []

abbrev marker_weight : Value → ℕ
marker_weight (arr vs) = length (items_list vs)
marker_weight _ = 1

-- `intentParameterObjects`: the request's parameters, then those of each tool call.
unfoldable pub call_parameters : List ToolCall → List Fields
call_parameters [] = []
call_parameters (t ∷ ts) = elim t.parameters [
  | none ↦ call_parameters ts
  | some p ↦ p ∷ call_parameters ts
]

unfoldable pub intent_parameter_objects : CanonicalExecutionInput → List Fields
unfolding call_parameters
intent_parameter_objects input =
    let calls =
      call_parameters input.execution_request.tool_calls
      ++ call_parameters input.execution_request.orbit_intent.tool_calls in
    elim input.execution_request.parameters [ none ↦ calls | some p ↦ p ∷ calls ]

module _ (u : Unicode) where
  -- `normalizedPattern`.
  abbrev normalized_pattern : Str → Str
  normalized_pattern pattern_text = normalize_suspicious_text u pattern_text

  -- `parameterText`.
  unfoldable pub parameter_text : Fields → Option Str
  parameter_text parameters = do
    t ← canonicalize_json (obj parameters)
    some (normalize_orbit_text u (normalize_suspicious_text u t))

  abbrev has_action_text : Str → Bool
  has_action_text value =
      let lower = normalize_suspicious_text u value in
      any (λ p. includes (normalized_pattern p) lower) action_text_patterns
      && (includes (lit "action") lower
          || includes (lit "task") lower
          || includes (lit "step") lower)

  unfoldable mutual
    -- `countNestedActionMarkers`.
    pub count_nested_action_markers : Value → ℕ
    count_nested_action_markers null = 0
    count_nested_action_markers (bool b) = 0
    count_nested_action_markers (num n) = 0
    count_nested_action_markers (str s) = if has_action_text s then 1 else 0
    count_nested_action_markers (arr vs) = count_items vs
    count_nested_action_markers (obj fs) = count_fields fs

    pub count_items : Items → ℕ
    count_items nil = 0
    count_items (cons v vs) = count_nested_action_markers v + count_items vs

    pub count_fields : Fields → ℕ
    count_fields end = 0
    count_fields (field k v fs) =
        (if has_str (normalize_suspicious_text u k) action_field_names then marker_weight v else 0)
        + count_nested_action_markers v
        + count_fields fs

  -- `hasMultipleActions`.
  unfoldable pub has_multiple_actions : CanonicalExecutionInput → Bool
  has_multiple_actions input =
      (ltb 1 (length input.execution_request.tool_calls)
        && any (λ t. any (λ p. includes p (u.to_lower t.tool)) action_text_patterns)
            input.execution_request.tool_calls)
      || any (λ p. ltb 0 (count_nested_action_markers (obj p))) (intent_parameter_objects input)

  -- The rules on one text.
  unfoldable pub matches_rule : Str → Bool
  matches_rule text =
      any (λ patterns. any (λ p. includes (normalized_pattern p) text) patterns) rules

  -- `hasUnsafeParameters`.
  unfoldable pub any_unsafe : List Fields → Option Bool
  any_unsafe [] = some false
  any_unsafe (p ∷ ps) =
      let rest = any_unsafe ps in
      do text ← parameter_text p; if matches_rule text then some true else rest

  unfoldable pub has_unsafe_parameters : CanonicalExecutionInput → Option Bool
  has_unsafe_parameters input = any_unsafe (intent_parameter_objects input)

-- `toolCallsEqual`.
unfoldable pub tool_calls_equal : List ToolCall → List ToolCall → Option Bool
tool_calls_equal left right = do
  l ← canonicalize_json (tool_calls_json left)
  r ← canonicalize_json (tool_calls_json right)
  some (str_eq l r)

abbrev pub orbit_trace : Decision → ReasonCode → Str → OrbitTrace
orbit_trace decision reason hash = record {
  decision = decision;
  reason_code = reason;
  validation_hash = hash;
}

-- The last two checks of `runStrictOrbit`.
unfoldable pub check_parameters : Unicode → CanonicalExecutionInput → Str → Option OrbitTrace
check_parameters u input hash = do
  unsafe ← has_unsafe_parameters u input
  let same =
      tool_calls_equal input.execution_request.tool_calls
        input.execution_request.orbit_intent.tool_calls
  elim unsafe [
    | true ↦ some (orbit_trace refuse forbidden_action_in_parameters hash)
    | false ↦ elim same [
      | none ↦ none
      | some true ↦ some (orbit_trace allow ok_orbit hash)
      | some false ↦ some (orbit_trace refuse tool_call_sequence hash)
    ]
  ]

-- `runStrictOrbit`.
unfoldable pub run_strict_orbit : Crypto → Unicode → CanonicalExecutionInput → Option OrbitTrace
run_strict_orbit c u input =
    let intent = input.execution_request.orbit_intent in
    let armed =
      str_eq intent.orbit_version (lit "2.0") && str_eq intent.lifecycle_state (lit "ARMED") in
    hash_canonical_json c (orbit_intent_json intent) >>= λ hash.
    if not armed
    then some (orbit_trace refuse tool_call_sequence hash)
    else if has_multiple_actions u input
    then some (orbit_trace refuse orbit_multiple_actions hash)
    else check_parameters u input hash
