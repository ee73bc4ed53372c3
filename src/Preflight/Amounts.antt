-- ===== src/Preflight/Amounts.antt =====
-- preflight/engine.ts, the numbers and the flags of an input, in the order of the code's checks.
use aegisone_core.Prelude.{
  ℕ, Str, lit, Bool, true, false, List, [], ◌∷◌, Option, none, some, if◌then◌else◌,
}
use aegisone_core.Json.{Fields, get_field}
use aegisone_core.Contracts.{ReasonCode, type_mismatch, invalid_json_number}
use aegisone_core.Preflight.Checks.{
  Checked, ok, refused, thrown, ◌>>=◌, ◌>>◌, pass, required, validate_integer, expect_boolean,
}
use aegisone_core.Preflight.Reading.{Sections}

pub record Numbers : Type 0 where
  pub gpu_count : ℕ
  pub hours : ℕ
  pub max_scale_multiplier : ℕ
  pub max_retries : ℕ
  pub actual_gpu_count : ℕ
  pub actual_hours : ℕ
  pub actual_total_cost_cents : ℕ
  pub max_total_cost_cents : ℕ
  pub max_gpu_count : ℕ
  pub max_hours : ℕ
  pub require_manual_approval_above_cents : ℕ
  pub max_retry_count : ℕ
  pub gpu_hour_cents : ℕ

abbrev first_or : Option ReasonCode → ReasonCode → Option ReasonCode
first_or none r = some r
first_or (some q) r = some q

abbrev is_number_failure : ReasonCode → Bool
is_number_failure invalid_json_number = true
is_number_failure _ = false

-- The loop over `numericChecks`, with `firstNumericReason`: a number that is not a safe integer
-- goes before a mismatch that stands earlier.
unfoldable pub numeric_failure : Option ReasonCode → List (Checked ℕ) → Option ReasonCode
numeric_failure first [] = first
numeric_failure first (ok n ∷ cs) = numeric_failure first cs
numeric_failure first (thrown ∷ cs) = numeric_failure first cs
numeric_failure first (refused r ∷ cs) =
    let rest = numeric_failure (first_or first r) cs in if is_number_failure r then some r else rest

abbrev pub integer_at : Str → Fields → (minimum : ℕ) (allow_zero : Bool) → Checked ℕ
integer_at k root minimum allow_zero = validate_integer (get_field k root) minimum allow_zero

-- `numericChecks`.
unfoldable pub numeric_checks : Sections → List (Checked ℕ)
numeric_checks s =
    integer_at (lit "gpu_count") s.resources 1 false
    ∷ integer_at (lit "hours") s.resources 1 false
    ∷ integer_at (lit "max_scale_multiplier") s.execution 1 false
    ∷ integer_at (lit "gpu_hour_cents") s.pricing 1 false
    ∷ integer_at (lit "actual_gpu_count") s.runtime 0 true
    ∷ integer_at (lit "actual_hours") s.runtime 0 true
    ∷ integer_at (lit "actual_total_cost_cents") s.runtime 0 true
    ∷ integer_at (lit "max_total_cost_cents") s.rules 1 false
    ∷ integer_at (lit "max_gpu_count") s.rules 1 false
    ∷ integer_at (lit "max_hours") s.rules 1 false
    ∷ integer_at (lit "require_manual_approval_above_cents") s.rules 0 true
    ∷ integer_at (lit "max_retry_count") s.rules 0 true
    ∷ integer_at (lit "max_retries") s.execution 0 true
    ∷ []

-- The values of the checks.
unfoldable pub number_values : Sections → Checked Numbers
number_values s = do
  gpu_count ← integer_at (lit "gpu_count") s.resources 1 false
  hours ← integer_at (lit "hours") s.resources 1 false
  max_scale_multiplier ← integer_at (lit "max_scale_multiplier") s.execution 1 false
  max_retries ← integer_at (lit "max_retries") s.execution 0 true
  actual_gpu_count ← integer_at (lit "actual_gpu_count") s.runtime 0 true
  actual_hours ← integer_at (lit "actual_hours") s.runtime 0 true
  actual_total_cost_cents ← integer_at (lit "actual_total_cost_cents") s.runtime 0 true
  max_total_cost_cents ← integer_at (lit "max_total_cost_cents") s.rules 1 false
  max_gpu_count ← integer_at (lit "max_gpu_count") s.rules 1 false
  max_hours ← integer_at (lit "max_hours") s.rules 1 false
  require_manual_approval_above_cents ←
      integer_at (lit "require_manual_approval_above_cents") s.rules 0 true
  max_retry_count ← integer_at (lit "max_retry_count") s.rules 0 true
  gpu_hour_cents ← integer_at (lit "gpu_hour_cents") s.pricing 1 false
  ok (record {
    gpu_count = gpu_count;
    hours = hours;
    max_scale_multiplier = max_scale_multiplier;
    max_retries = max_retries;
    actual_gpu_count = actual_gpu_count;
    actual_hours = actual_hours;
    actual_total_cost_cents = actual_total_cost_cents;
    max_total_cost_cents = max_total_cost_cents;
    max_gpu_count = max_gpu_count;
    max_hours = max_hours;
    require_manual_approval_above_cents = require_manual_approval_above_cents;
    max_retry_count = max_retry_count;
    gpu_hour_cents = gpu_hour_cents;
  })

-- All checks are made before the loop; once it passes, each of them holds its value.
unfoldable pub read_numbers : Sections → Checked Numbers
read_numbers s = pass (numeric_failure none (numeric_checks s)) >> number_values s

pub record Flags : Type 0 where
  pub auto_scale : Bool
  pub retry_on_fail : Bool
  pub already_consumed : Bool
  pub kill_switch_active : Bool
  pub allow_auto_scale : Bool

abbrev flag_at : Str → Fields → Checked Bool
flag_at k root = required type_mismatch (expect_boolean (get_field k root))

unfoldable pub read_flags : Sections → Checked Flags
read_flags s = do
  auto_scale ← flag_at (lit "auto_scale") s.execution
  retry_on_fail ← flag_at (lit "retry_on_fail") s.execution
  already_consumed ← flag_at (lit "already_consumed") s.release
  kill_switch_active ← flag_at (lit "kill_switch_active") s.runtime
  allow_auto_scale ← flag_at (lit "allow_auto_scale") s.rules
  ok (record {
    auto_scale = auto_scale;
    retry_on_fail = retry_on_fail;
    already_consumed = already_consumed;
    kill_switch_active = kill_switch_active;
    allow_auto_scale = allow_auto_scale;
  })
