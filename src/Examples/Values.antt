-- ===== src/Examples/Values.antt =====
-- The JSON values behind the texts of the fixture.
use aegisone_core.Prelude.{lit, true, false, [], ◌∷◌}
use aegisone_core.Json.{Value, obj, arr, str, num, nat, bool, Items, nil, cons, Fields, field, end}
use aegisone_core.Contracts.Receipt.{fields_of}

abbrev pub resources_fields : Fields
resources_fields = fields_of (
    (lit "gpu_type", str (lit "a100"))
    ∷ (lit "gpu_count", num (nat 2))
    ∷ (lit "hours", num (nat 3))
    ∷ [])

abbrev pub execution_fields : Fields
execution_fields = fields_of (
    (lit "auto_scale", bool false)
    ∷ (lit "max_scale_multiplier", num (nat 1))
    ∷ (lit "retry_on_fail", bool true)
    ∷ (lit "max_retries", num (nat 1))
    ∷ [])

abbrev pub tool_call_items : Items
tool_call_items =
    cons
      (obj (
        fields_of (
          (lit "tool", str (lit "fit"))
          ∷ (lit "priority", num (nat 1))
          ∷ (lit "parameters", obj (fields_of ((lit "rate", num (nat 5)) ∷ [])))
          ∷ [])))
      nil

abbrev pub runtime_fields : Fields
runtime_fields = fields_of (
    (lit "kill_switch_active", bool false)
    ∷ (lit "actual_gpu_count", num (nat 2))
    ∷ (lit "actual_hours", num (nat 3))
    ∷ (lit "actual_total_cost_cents", num (nat 100))
    ∷ [])

abbrev pub request_fields : Fields
request_fields = fields_of (
    (lit "request_id", str (lit "r1"))
    ∷ (lit "submitted_region", str (lit "eu"))
    ∷ (lit "actor", obj (fields_of ((lit "user_id", str (lit "u")) ∷ [])))
    ∷ (lit "resources", obj resources_fields)
    ∷ (lit "execution", obj execution_fields)
    ∷ (lit "tool_calls", arr tool_call_items)
    ∷ (
      lit "orbit_intent",
      obj (
          fields_of (
            (lit "orbit_version", str (lit "2.0"))
            ∷ (lit "action", str (lit "fit"))
            ∷ (lit "boundary", str (lit "b"))
            ∷ (
              lit "payload",
              obj (
                  fields_of (
                    (
                      lit "tool_calls",
                      arr (
                          cons
                            (obj (
                              fields_of (
                                (lit "tool", str (lit "fit"))
                                ∷ (lit "priority", num (nat 1))
                                ∷ (
                                  lit "parameters",
                                  obj (fields_of ((lit "rate", num (nat 5)) ∷ [])),
                                )
                                ∷ [])))
                            nil),
                    )
                    ∷ [])),
            )
            ∷ (lit "lifecycle_state", str (lit "ARMED"))
            ∷ (
              lit "signatures",
              arr (
                  cons
                    (obj (fields_of ((lit "alg", str (lit "x")) ∷ (lit "sig", str (lit "y")) ∷ [])))
                    nil),
            )
            ∷ [])),
    )
    ∷ (
      lit "release_request",
      obj (
          fields_of (
            (lit "execution_id", str (lit "e1"))
            ∷ (lit "hold_state", str (lit "armed"))
            ∷ (lit "already_consumed", bool false)
            ∷ [])),
    )
    ∷ (lit "runtime_observation", obj runtime_fields)
    ∷ (lit "budget_token", str (lit "k"))
    ∷ [])

abbrev pub rules_fields : Fields
rules_fields = fields_of (
    (lit "max_total_cost_cents", num (nat 200))
    ∷ (lit "allow_auto_scale", bool false)
    ∷ (lit "max_gpu_count", num (nat 4))
    ∷ (lit "max_hours", num (nat 5))
    ∷ (lit "require_manual_approval_above_cents", num (nat 0))
    ∷ (lit "max_retry_count", num (nat 2))
    ∷ [])

abbrev pub policy_fields : Fields
policy_fields = fields_of (
    (lit "schema_version", str (lit "s1"))
    ∷ (lit "policy_version", str (lit "policy.v1"))
    ∷ (lit "rules", obj rules_fields)
    ∷ [])

abbrev pub pricing_fields : Fields
pricing_fields = fields_of ((lit "gpu_hour_cents", num (nat 10)) ∷ [])

abbrev pub request_value : Value
request_value = obj (
    field (lit "execution_request") (obj request_fields) (
      field (lit "policy_document") (obj policy_fields)
        (field (lit "pricing_data") (obj pricing_fields) end)))

abbrev pub reordered_value : Value
reordered_value = obj (
    field (lit "pricing_data") (obj pricing_fields) (
      field (lit "policy_document") (obj policy_fields)
        (field (lit "execution_request") (obj request_fields) end)))
