-- ===== src/Preflight/Calm.antt =====
-- No check of preflight/engine.ts throws.
use aegisone_core.Prelude.{Str, Bool, List, ◌∷◌, Option, none, some, arith, ℕ}
use aegisone_core.Json.{Value, Fields, Items, nil, cons}
use aegisone_core.Contracts.{ReasonCode}
use aegisone_core.Preflight.Checks.{
  Checked, ok, refused, thrown, ◌>>=◌, pass, required, validate_integer,
}
use aegisone_core.Preflight.Calls.{
  parse_parameters, parse_tool_call, parse_tool_calls_from, parse_tool_calls, parse_signature,
  parse_signatures,
}
use aegisone_core.Preflight.Reading.{
  Sections, split_root, split_sections, read_texts, read_lists, optional_text,
}
use aegisone_core.Preflight.Amounts.{read_numbers, number_values, read_flags}

abbrev pub IsCalm {ℓ} : {A : Type ℓ} → Checked A → Type 0
IsCalm (ok a) = Unit {0}
IsCalm (refused r) = Unit {0}
IsCalm thrown = ⊥

pub >>=-IsCalm {ℓ κ} :
    {In : Type ℓ} {Out : Type κ} (m : Checked In) (f : In → Checked Out)
    → IsCalm m
    → ((x : In) → IsCalm (f x))
    → IsCalm (m >>= f)
>>=-IsCalm (ok a) f h k = k a
>>=-IsCalm (refused r) f h k = tt
>>=-IsCalm thrown f h k = h

pub pass-IsCalm : (o : Option ReasonCode) → IsCalm (pass o)
pass-IsCalm none = tt
pass-IsCalm (some r) = tt

pub required-IsCalm {ℓ} : {A : Type ℓ} (r : ReasonCode) (o : Option A) → IsCalm (required r o)
required-IsCalm r none = tt
required-IsCalm r (some a) = tt

validate_integer-IsCalm : (v : Option Value) (n : ℕ) (b : Bool) → IsCalm (validate_integer v n b)
unfolding validate_integer
validate_integer-IsCalm v n b = ground arith

pub read_flags-IsCalm : (s : Sections) → IsCalm (read_flags s)
unfolding read_flags
read_flags-IsCalm s = search (>>=-IsCalm, required-IsCalm) depth 60

optional_text-IsCalm : (o : Option Value) → IsCalm (optional_text o)
optional_text-IsCalm none = tt
optional_text-IsCalm (some v) = search (>>=-IsCalm, required-IsCalm) depth 20

pub read_texts-IsCalm : (s : Sections) → IsCalm (read_texts s)
unfolding read_texts
read_texts-IsCalm s = search (>>=-IsCalm, required-IsCalm, optional_text-IsCalm) depth 90

split_root-IsCalm : (root : Fields) → IsCalm (split_root root)
unfolding split_root
split_root-IsCalm s = search (>>=-IsCalm, pass-IsCalm, required-IsCalm) depth 90

pub split_sections-IsCalm : (root : Fields) → IsCalm (split_sections root)
unfolding split_sections
split_sections-IsCalm s =
    search (>>=-IsCalm, pass-IsCalm, required-IsCalm, split_root-IsCalm) depth 120

number_values-IsCalm : (s : Sections) → IsCalm (number_values s)
unfolding number_values
number_values-IsCalm s = search (>>=-IsCalm, validate_integer-IsCalm) depth 90

pub read_numbers-IsCalm : (s : Sections) → IsCalm (read_numbers s)
unfolding read_numbers
read_numbers-IsCalm s = search (>>=-IsCalm, pass-IsCalm, number_values-IsCalm) depth 60

parse_parameters-IsCalm : (v : Option Value) → IsCalm (parse_parameters v)
unfolding parse_parameters
parse_parameters-IsCalm none = tt
parse_parameters-IsCalm (some v) = search (>>=-IsCalm, pass-IsCalm, required-IsCalm) depth 60

parse_tool_call-IsCalm : (seen : List Str) (v : Value) → IsCalm (parse_tool_call seen v)
unfolding parse_tool_call
parse_tool_call-IsCalm seen v =
    search
      (>>=-IsCalm, pass-IsCalm, required-IsCalm, validate_integer-IsCalm, parse_parameters-IsCalm)
      depth 60

parse_tool_calls_from-IsCalm :
    (seen : List Str) (vs : Items) → IsCalm (parse_tool_calls_from seen vs)
unfolding parse_tool_calls_from
parse_tool_calls_from-IsCalm seen nil = tt
parse_tool_calls_from-IsCalm seen (cons v vs) =
    >>=-IsCalm (parse_tool_call seen v) _ (parse_tool_call-IsCalm seen v) (λ t.
      >>=-IsCalm (parse_tool_calls_from (t.tool ∷ seen) vs) _
        (parse_tool_calls_from-IsCalm (t.tool ∷ seen) vs) (λ ts. tt))

parse_tool_calls-IsCalm : (v : Option Value) → IsCalm (parse_tool_calls v)
unfolding parse_tool_calls
parse_tool_calls-IsCalm v =
    search (>>=-IsCalm, required-IsCalm, parse_tool_calls_from-IsCalm) depth 60

parse_signature-IsCalm : (v : Value) → IsCalm (parse_signature v)
unfolding parse_signature
parse_signature-IsCalm v = search (>>=-IsCalm, pass-IsCalm, required-IsCalm) depth 60

parse_signatures-IsCalm : (vs : Items) → IsCalm (parse_signatures vs)
unfolding parse_signatures
parse_signatures-IsCalm nil = tt
parse_signatures-IsCalm (cons v vs) =
    >>=-IsCalm (parse_signature v) _ (parse_signature-IsCalm v)
      (λ t. >>=-IsCalm (parse_signatures vs) _ (parse_signatures-IsCalm vs) (λ ts. tt))

pub read_lists-IsCalm : (s : Sections) → IsCalm (read_lists s)
unfolding read_lists
read_lists-IsCalm s =
    search
      (
        >>=-IsCalm, pass-IsCalm, required-IsCalm, parse_tool_calls-IsCalm, parse_parameters-IsCalm,
        parse_signatures-IsCalm,
      )
      depth 60
