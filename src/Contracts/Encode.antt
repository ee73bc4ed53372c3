-- ===== src/Contracts/Encode.antt =====
-- The values of shared/contracts.ts as JSON, where the layers hash or compare them. An absent
-- optional field has no entry.
use aegisone_core.Prelude.{Str, lit, List, [], ◌∷◌, Option, none, some}
use aegisone_core.Json.{Value, obj, arr, nil, cons, Items, Fields, field, end, str, num, nat, bool}
use aegisone_core.Contracts.{ToolCall, Signature, OrbitIntent, RuntimeObservation}

abbrev pub optional_field : Str → Option Value → Fields → Fields
optional_field k none fs = fs
optional_field k (some v) fs = field k v fs

abbrev as_object : Option Fields → Option Value
as_object none = none
as_object (some fs) = some (obj fs)

abbrev pub tool_call_json : ToolCall → Value
tool_call_json t = obj (
    field (lit "tool") (str t.tool) (
      field (lit "priority") (num (nat t.priority))
        (optional_field (lit "parameters") (as_object t.parameters) end)))

unfoldable pub tool_calls_items : List ToolCall → Items
tool_calls_items [] = nil
tool_calls_items (t ∷ ts) = cons (tool_call_json t) (tool_calls_items ts)

unfoldable pub signatures_items : List Signature → Items
signatures_items [] = nil
signatures_items (s ∷ ss) =
    cons (obj (field (lit "alg") (str s.alg) (field (lit "sig") (str s.sig) end)))
      (signatures_items ss)

abbrev pub tool_calls_json : List ToolCall → Value
tool_calls_json ts = arr (tool_calls_items ts)

abbrev pub orbit_intent_json : OrbitIntent → Value
orbit_intent_json o = obj (
    field (lit "orbit_version") (str o.orbit_version) (
      field (lit "action") (str o.action) (
        field (lit "boundary") (str o.boundary) (
          field (lit "payload") (obj (field (lit "tool_calls") (tool_calls_json o.tool_calls) end))
            (field (lit "lifecycle_state") (str o.lifecycle_state)
              (field (lit "signatures") (arr (signatures_items o.signatures)) end))))))

abbrev pub runtime_observation_json : RuntimeObservation → Value
runtime_observation_json r = obj (
    field (lit "kill_switch_active") (bool r.kill_switch_active) (
      field (lit "actual_gpu_count") (num (nat r.actual_gpu_count)) (
        field (lit "actual_hours") (num (nat r.actual_hours))
          (field (lit "actual_total_cost_cents") (num (nat r.actual_total_cost_cents)) end))))
