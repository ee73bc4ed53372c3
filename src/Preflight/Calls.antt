-- ===== src/Preflight/Calls.antt =====
-- preflight/engine.ts, the lists of a request: `parseToolCalls`, `parseParameters` and the loop over
-- the signatures.
use aegisone_core.Prelude.{
  Str, lit, true, List, [], ◌∷◌, Option, none, some, if◌then◌else◌, has_str,
}
use aegisone_core.Json.{Value, obj, Items, nil, cons, Fields, get_field}
use aegisone_core.Contracts.{ToolCall, Signature, schema_validation, type_mismatch}
use aegisone_core.Preflight.Checks.{
  Checked, ok, ◌>>=◌, ◌>>◌, pass, required, reject_unknown_keys, reject_reserved, validate_integer,
  expect_string, as_record, as_filled_array,
}

-- `parseParameters`; an absent field is allowed.
unfoldable pub parse_parameters : Option Value → Checked (Option Fields)
parse_parameters none = ok none
parse_parameters (some v) = do
  fs ← required schema_validation (as_record (some v))
  pass (reject_reserved (obj fs))
  ok (some fs)

abbrev pub tool_call_keys : List Str
tool_call_keys = lit "tool" ∷ lit "priority" ∷ lit "parameters" ∷ []

-- One round of `parseToolCalls`, with the tools seen so far.
unfoldable pub parse_tool_call : List Str → Value → Checked ToolCall
parse_tool_call seen v = do
  item ← required schema_validation (as_record (some v))
  pass (reject_unknown_keys tool_call_keys item)
  tool ← required type_mismatch (expect_string (get_field (lit "tool") item))
  priority ← validate_integer (get_field (lit "priority") item) 0 true
  pass (if has_str tool seen then some schema_validation else none)
  parameters ← parse_parameters (get_field (lit "parameters") item)
  ok (record { tool = tool; priority = priority; parameters = parameters })

unfoldable pub parse_tool_calls_from : List Str → Items → Checked (List ToolCall)
parse_tool_calls_from seen nil = ok []
parse_tool_calls_from seen (cons v vs) = do
  call ← parse_tool_call seen v
  calls ← parse_tool_calls_from (call.tool ∷ seen) vs
  ok (call ∷ calls)

-- `parseToolCalls`.
unfoldable pub parse_tool_calls : Option Value → Checked (List ToolCall)
parse_tool_calls value = do
  vs ← required schema_validation (as_filled_array value)
  parse_tool_calls_from [] vs

abbrev signature_keys : List Str
signature_keys = lit "alg" ∷ lit "sig" ∷ []

unfoldable pub parse_signature : Value → Checked Signature
parse_signature v = do
  item ← required schema_validation (as_record (some v))
  pass (reject_unknown_keys signature_keys item)
  alg ← required type_mismatch (expect_string (get_field (lit "alg") item))
  sig ← required type_mismatch (expect_string (get_field (lit "sig") item))
  ok (record { alg = alg; sig = sig })

-- The loop over `orbitIntent.signatures`.
unfoldable pub parse_signatures : Items → Checked (List Signature)
parse_signatures nil = ok []
parse_signatures (cons v vs) = do s ← parse_signature v; ss ← parse_signatures vs; ok (s ∷ ss)
