-- ===== src/Preflight/Reserved.antt =====
-- The reserved fields of preflight/engine.ts: the recursive check finds them at every depth.
use aegisone_core.Prelude.{
  ◌≡◌, refl, Str, Bool, true, false, List, [], ◌∷◌, Option, none, some, arith, has_str,
  if◌then◌else◌, lit,
}
use aegisone_core.Json.{Value, arr, obj, Items, nil, cons, Fields, field, get_field}
use aegisone_core.Contracts.{
  ToolCall, ReasonCode, schema_validation, type_mismatch, non_deterministic_input,
}
use aegisone_core.Preflight.Checks.{
  ok, pass, required, reject_reserved, reject_reserved_items, reject_reserved_fields,
  reserved_unsafe_fields, or_reason, reject_unknown_keys, expect_string, validate_integer,
  as_record, as_filled_array,
}
use aegisone_core.Preflight.Calls.{
  parse_parameters, parse_tool_call, parse_tool_calls_from, parse_tool_calls, tool_call_keys,
}
use aegisone_core.Preflight.Ranges.{>>=-eq-ok}

mutual
  -- The key occurs in some object of the value, at any depth.
  pub data Occurs (k : Str) : Value → Type 0 where
    in_array : {vs : Items} → OccursItems k vs → Occurs k (arr vs)
    in_object : {fs : Fields} → OccursFields k fs → Occurs k (obj fs)

  pub data OccursItems (k : Str) : Items → Type 0 where
    in_item : {v : Value} {vs : Items} → Occurs k v → OccursItems k (cons v vs)
    in_later_item : {v : Value} {vs : Items} → OccursItems k vs → OccursItems k (cons v vs)

  pub data OccursFields (k : Str) : Fields → Type 0 where
    as_key : {j : Str} {v : Value} {fs : Fields} → j ≡ k → OccursFields k (field j v fs)
    in_field : {j : Str} {v : Value} {fs : Fields} → Occurs k v → OccursFields k (field j v fs)
    in_later_field :
        {j : Str} {v : Value} {fs : Fields} → OccursFields k fs → OccursFields k (field j v fs)

-- The step of the check at one field, over what it finds at the key, in the value and behind it.
field_passes :
    (b : Bool) (r : ReasonCode) (v fs : Option ReasonCode)
    → (if b then some r else or_reason v fs) ≡ none
    → (b ≡ false) × (v ≡ none) × (fs ≡ none)
field_passes b r v fs h = ground arith

mutual
  unfolding reject_reserved

  value_reserved :
      {k : Str} {v : Value}
      → Occurs k v
      → reject_reserved v ≡ none
      → has_str k reserved_unsafe_fields ≡ false
  value_reserved (in_array o) h = items_reserved o h
  value_reserved (in_object o) h = fields_reserved o h

  items_reserved :
      {k : Str} {vs : Items}
      → OccursItems k vs
      → reject_reserved_items vs ≡ none
      → has_str k reserved_unsafe_fields ≡ false
  items_reserved (in_item o) h = value_reserved o (ground arith)
  items_reserved (in_later_item o) h = items_reserved o (ground arith)

  fields_reserved :
      {k : Str} {fs : Fields}
      → OccursFields k fs
      → reject_reserved_fields fs ≡ none
      → has_str k reserved_unsafe_fields ≡ false
  fields_reserved (as_key {j} {v} {fs} e) h =
      rw (← e)
        (field_passes (has_str j reserved_unsafe_fields) non_deterministic_input (reject_reserved v)
          (reject_reserved_fields fs) h).0
  fields_reserved (in_field {j} {v} {fs} o) h =
      value_reserved o
        (field_passes (has_str j reserved_unsafe_fields) non_deterministic_input (reject_reserved v)
          (reject_reserved_fields fs) h).1
  fields_reserved (in_later_field {j} {v} {fs} o) h =
      fields_reserved o
        (field_passes (has_str j reserved_unsafe_fields) non_deterministic_input (reject_reserved v)
          (reject_reserved_fields fs) h).2

-- A value that the check passes has a reserved key in none of its objects, at any depth.
pub reject_reserved_sound :
    (k : Str) (v : Value)
    → reject_reserved v ≡ none
    → Occurs k v
    → has_str k reserved_unsafe_fields ≡ false
reject_reserved_sound k v h o = value_reserved o h

pass-ok : (o : Option ReasonCode) {u : Unit {0}} → pass o ≡ ok u → o ≡ none
pass-ok none h = refl
pass-ok (some r) h = absurd (ground arith)

-- No parameter object has a reserved key, at any depth.
abbrev pub IsClean : Option Fields → Type 0
IsClean none = Unit {0}
IsClean (some p) = (k : Str) → Occurs k (obj p) → has_str k reserved_unsafe_fields ≡ false

-- The tools are distinct, and none is among the seen ones; every parameter object is clean.
abbrev pub AreClean : List Str → List ToolCall → Type 0
AreClean seen [] = Unit {0}
AreClean seen (t ∷ ts) =
    (has_str t.tool seen ≡ false) × IsClean t.parameters × AreClean (t.tool ∷ seen) ts

pub parse_parameters-IsClean :
    (v : Option Value) (p : Option Fields) → parse_parameters v ≡ ok p → IsClean p
unfolding parse_parameters
parse_parameters-IsClean none none h = tt
parse_parameters-IsClean none (some p) h = absurd (ground arith)
parse_parameters-IsClean (some v) none h = tt
parse_parameters-IsClean (some v) (some p) h =
    let (fs, e, h1) = >>=-eq-ok (required schema_validation (as_record (some v))) _ h in
    let (_, r, h2) = >>=-eq-ok (pass (reject_reserved (obj fs))) _ h1 in
    let same : fs ≡ p = cc in
    λ k o. reject_reserved_sound k (obj p) (rw same at (pass-ok (reject_reserved (obj fs)) r)) o

not_seen : (b : Bool) → (if b then some schema_validation else none) ≡ none → b ≡ false
not_seen b h = ground arith

parse_tool_call-IsClean :
    (seen : List Str) (v : Value) (t : ToolCall)
    → parse_tool_call seen v ≡ ok t
    → (has_str t.tool seen ≡ false) × IsClean t.parameters
unfolding parse_tool_call
parse_tool_call-IsClean seen v t h =
    let (item, _, h1) = >>=-eq-ok (required schema_validation (as_record (some v))) _ h in
    let (_, _, h2) = >>=-eq-ok (pass (reject_unknown_keys tool_call_keys item)) _ h1 in
    let (tool, _, h3) =
      >>=-eq-ok (required type_mismatch (expect_string (get_field (lit "tool") item))) _ h2 in
    let (priority, _, h4) =
      >>=-eq-ok (validate_integer (get_field (lit "priority") item) 0 true) _ h3 in
    let (_, fresh, h5) =
      >>=-eq-ok (pass (if has_str tool seen then some schema_validation else none)) _ h4 in
    let (parameters, read, h6) =
      >>=-eq-ok (parse_parameters (get_field (lit "parameters") item)) _ h5 in
    let same_tool : tool ≡ t.tool = ground arith in
    let same_parameters : parameters ≡ t.parameters = ground arith in
    (
      rw same_tool at (not_seen _ (pass-ok _ fresh)),
      rw same_parameters at (parse_parameters-IsClean _ parameters read),
    )

parse_tool_calls_from-AreClean :
    (seen : List Str) (vs : Items) (ts : List ToolCall)
    → parse_tool_calls_from seen vs ≡ ok ts
    → AreClean seen ts
unfolding parse_tool_calls_from
parse_tool_calls_from-AreClean seen nil ts h = let same : [] ≡ ts = ground arith in rw (← same) tt
parse_tool_calls_from-AreClean seen (cons v vs) ts h =
    let (t, e, h1) = >>=-eq-ok (parse_tool_call seen v) _ h in
    let (us, es, h2) = >>=-eq-ok (parse_tool_calls_from (t.tool ∷ seen) vs) _ h1 in
    let same : (t ∷ us) ≡ ts = ground arith in
    let (fresh, clean) = parse_tool_call-IsClean seen v t e in
    rw (← same) (fresh, clean, parse_tool_calls_from-AreClean (t.tool ∷ seen) vs us es)

-- The tool calls that the preflight accepts name each tool once, and the parameters of none of them
-- have a reserved key in any of their objects.
pub parse_tool_calls-AreClean :
    (v : Option Value) (ts : List ToolCall) → parse_tool_calls v ≡ ok ts → AreClean [] ts
unfolding parse_tool_calls
parse_tool_calls-AreClean v ts h =
    let (vs, _, h1) = >>=-eq-ok (required schema_validation (as_filled_array v)) _ h in
    parse_tool_calls_from-AreClean [] vs ts h1
