-- ===== src/Orbit/Laws.antt =====
-- When the intent gate of orbit/engine.ts allows.
use aegisone_core.Prelude.{
  >>=-eq-some, ◌≡◌, refl, ◌↔◌, Str, lit, Bool, true, false, ◌&&◌, not, List, [], ◌∷◌, Option, some,
  if◌then◌else◌, arith, Bool-cases, inl, inr, str_eq, str_eq_self, str_eq_iff,
}
use aegisone_core.Json.{Fields}
use aegisone_core.Json.Canonical.{canonicalize_json}
use aegisone_core.Contracts.{
  CanonicalExecutionInput, OrbitIntent, ToolCall, OrbitTrace, allow, refuse,
}
use aegisone_core.Contracts.Encode.{tool_calls_json}
use aegisone_core.Crypto.{Crypto, hash_canonical_json}
use aegisone_core.Orbit.Text.{Unicode}
use aegisone_core.Orbit.{
  parameter_text, intent_parameter_objects, has_multiple_actions, matches_rule, any_unsafe,
  has_unsafe_parameters, tool_calls_equal, check_parameters, run_strict_orbit,
}

-- The normalized text of each parameter object has no pattern of a rule in it.
abbrev pub AreSafe : Unicode → List Fields → Type 0
AreSafe u [] = Unit {0}
AreSafe u (p ∷ ps) =
    ((t : Str) × (parameter_text u p ≡ some t) × (matches_rule u t ≡ false)) × AreSafe u ps

any_unsafe-safe : (u : Unicode) (ps : List Fields) → any_unsafe u ps ≡ some false → AreSafe u ps
unfolding any_unsafe
any_unsafe-safe u [] h = tt
any_unsafe-safe u (p ∷ ps) h =
    let (t, e, h1) = >>=-eq-some (parameter_text u p) _ h in
    elim (Bool-cases (matches_rule u t)) [
      | inl yes_match ↦ absurd (ground arith)
      | inr no_match ↦ ((t, e, no_match), any_unsafe-safe u ps (rw no_match at h1))
    ]

safe-any_unsafe : (u : Unicode) (ps : List Fields) → AreSafe u ps → any_unsafe u ps ≡ some false
unfolding any_unsafe
safe-any_unsafe u [] s = refl
safe-any_unsafe u (p ∷ ps) ((t, e, no_match), s) = rw (e, no_match, safe-any_unsafe u ps s)

-- Both lists of tool calls have one canonical text.
abbrev pub AreSame : List ToolCall → List ToolCall → Type 0
AreSame left right =
    (t : Str) × (canonicalize_json (tool_calls_json left) ≡ some t)
    × (canonicalize_json (tool_calls_json right) ≡ some t)

tool_calls_equal-true_iff :
    (left right : List ToolCall) → (tool_calls_equal left right ≡ some true) ↔ AreSame left right
unfolding tool_calls_equal
tool_calls_equal-true_iff left right = (sound, complete)
  where
    sound : tool_calls_equal left right ≡ some true → AreSame left right
    sound h =
        let (l, el, h1) = >>=-eq-some (canonicalize_json (tool_calls_json left)) _ h in
        let (r, er, h2) = >>=-eq-some (canonicalize_json (tool_calls_json right)) _ h1 in
        let same : l ≡ r = ground (arith, str_eq_iff l r) in (l, el, rw (← same) at er)

    complete : AreSame left right → tool_calls_equal left right ≡ some true
    complete (t, l, r) = rw (l, r, str_eq_self t)

-- What the intent gate demands of a request.
pub record IsIntended (u : Unicode) (input : CanonicalExecutionInput) : Type 0 where
  pub version : input.execution_request.orbit_intent.orbit_version ≡ lit "2.0"
  pub armed : input.execution_request.orbit_intent.lifecycle_state ≡ lit "ARMED"
  pub single : has_multiple_actions u input ≡ false
  pub safe : AreSafe u (intent_parameter_objects input)
  pub agreed :
      AreSame input.execution_request.tool_calls input.execution_request.orbit_intent.tool_calls

check_parameters-allow_iff :
    (u : Unicode) (input : CanonicalExecutionInput) (hash : Str) (t : OrbitTrace)
    → check_parameters u input hash ≡ some t
    → (t.decision ≡ allow) ↔ (
        (has_unsafe_parameters u input ≡ some false)
        × (tool_calls_equal input.execution_request.tool_calls
              input.execution_request.orbit_intent.tool_calls
            ≡ some true))
unfolding check_parameters
check_parameters-allow_iff u input hash t h = ground arith

gate-allow_iff :
    (armed many : Bool) (first second t : OrbitTrace) (last : Option OrbitTrace)
    → (if not armed then some first else if many then some second else last) ≡ some t
    → first.decision ≡ refuse
    → second.decision ≡ refuse
    → (t.decision ≡ allow)
      ↔ ((armed ≡ true) × (many ≡ false) × (last ≡ some t) × (t.decision ≡ allow))
gate-allow_iff armed many first second t last h f g = ground arith

gate-last :
    (armed many : Bool) (first second t : OrbitTrace) (last : Option OrbitTrace)
    → (if not armed then some first else if many then some second else last) ≡ some t
    → armed ≡ true
    → many ≡ false
    → last ≡ some t
gate-last armed many first second t last h a m = ground arith

abbrev is_armed : OrbitIntent → Bool
is_armed i = str_eq i.orbit_version (lit "2.0") && str_eq i.lifecycle_state (lit "ARMED")

is_armed-true_iff :
    (i : OrbitIntent)
    → (is_armed i ≡ true) ↔ ((i.orbit_version ≡ lit "2.0") × (i.lifecycle_state ≡ lit "ARMED"))
is_armed-true_iff i =
    ground
      (arith, str_eq_iff i.orbit_version (lit "2.0"), str_eq_iff i.lifecycle_state (lit "ARMED"))

-- A judged request is allowed exactly if its intent is armed under version 2.0, has no sign of
-- several actions, has no forbidden pattern in the normalized text of any parameter object, and
-- names the same tool calls as the request.
pub run_strict_orbit-allow_iff :
    (c : Crypto) (u : Unicode) (input : CanonicalExecutionInput) (t : OrbitTrace)
    → run_strict_orbit c u input ≡ some t
    → (t.decision ≡ allow) ↔ IsIntended u input
unfolding run_strict_orbit has_unsafe_parameters
run_strict_orbit-allow_iff c u input t h =
    let (hash, _, h1) = >>=-eq-some (hash_canonical_json c _) _ h in
    (
      (λ a.
          let (armed, single, last, _) =
            (gate-allow_iff (is_armed input.execution_request.orbit_intent)
                (has_multiple_actions u input) _ _ t _ h1 refl refl).0
              a in
          let (safe, same) = (check_parameters-allow_iff u input hash t last).0 a in
          let (version, state) = (is_armed-true_iff input.execution_request.orbit_intent).0 armed in
          record {
            version = version;
            armed = state;
            single = single;
            safe = any_unsafe-safe u _ safe;
            agreed = (tool_calls_equal-true_iff _ _).0 same;
          }),
      (λ i.
          let armed =
            (is_armed-true_iff input.execution_request.orbit_intent).1 (i.version, i.armed) in
          let last =
            gate-last (is_armed input.execution_request.orbit_intent) (has_multiple_actions u input)
              _ _ t (check_parameters u input hash) h1 armed i.single in
          (check_parameters-allow_iff u input hash t last).1
            (safe-any_unsafe u _ i.safe, (tool_calls_equal-true_iff _ _).1 i.agreed)),
    )
