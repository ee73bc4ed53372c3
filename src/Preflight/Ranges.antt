-- ===== src/Preflight/Ranges.antt =====
-- The numbers that the strict preflight of preflight/engine.ts lets through.
use aegisone_core.Prelude.{ℕ, ◌≤◌, ◌<◌, lit, ◌≡◌, refl, Bool, true, false, Option, none, arith}
use aegisone_core.Json.{Value, safe_limit}
use aegisone_core.Preflight.Checks.{Checked, ok, refused, thrown, ◌>>=◌, pass, validate_integer}
use aegisone_core.Preflight.Reading.{Sections}
use aegisone_core.Preflight.Amounts.{
  Numbers, integer_at, numeric_failure, numeric_checks, number_values, read_numbers,
}

pub >>=-eq-ok {ℓ κ} :
    {In : Type ℓ} {Out : Type κ} (step : Checked In) (next : In → Checked Out) {out : Out}
    → (step >>= next) ≡ ok out
    → (x : In) × (step ≡ ok x) × (next x ≡ ok out)
>>=-eq-ok thrown next h = cc
>>=-eq-ok (refused reason) next h = cc
>>=-eq-ok (ok x) next h = (x, refl, h)

-- An accepted number is a safe integer that is not below the minimum.
pub validate_integer-range :
    (v : Option Value) (minimum : ℕ) (zero_allowed : Bool) (n : ℕ)
    → validate_integer v minimum zero_allowed ≡ ok n
    → (minimum ≤ n) × (n < safe_limit)
unfolding validate_integer
validate_integer-range v minimum zero_allowed n h = ground arith

-- The ranges of the thirteen numbers.
pub record InRange (n : Numbers) : Type 0 where
  pub gpu_count : (1 ≤ n.gpu_count) × (n.gpu_count < safe_limit)
  pub hours : (1 ≤ n.hours) × (n.hours < safe_limit)
  pub scale : (1 ≤ n.max_scale_multiplier) × (n.max_scale_multiplier < safe_limit)
  pub retries : n.max_retries < safe_limit
  pub actual_gpus : n.actual_gpu_count < safe_limit
  pub actual_hours : n.actual_hours < safe_limit
  pub actual_cost : n.actual_total_cost_cents < safe_limit
  pub max_cost : (1 ≤ n.max_total_cost_cents) × (n.max_total_cost_cents < safe_limit)
  pub max_gpus : (1 ≤ n.max_gpu_count) × (n.max_gpu_count < safe_limit)
  pub max_hours : (1 ≤ n.max_hours) × (n.max_hours < safe_limit)
  pub approval : n.require_manual_approval_above_cents < safe_limit
  pub max_retries : n.max_retry_count < safe_limit
  pub price : (1 ≤ n.gpu_hour_cents) × (n.gpu_hour_cents < safe_limit)

number_values-InRange : (s : Sections) (n : Numbers) → number_values s ≡ ok n → InRange n
unfolding number_values
number_values-InRange s n h0 =
    let (a1, e1, h1) = >>=-eq-ok (integer_at (lit "gpu_count") s.resources 1 false) _ h0 in
    let (a2, e2, h2) = >>=-eq-ok (integer_at (lit "hours") s.resources 1 false) _ h1 in
    let (a3, e3, h3) =
      >>=-eq-ok (integer_at (lit "max_scale_multiplier") s.execution 1 false) _ h2 in
    let (a4, e4, h4) = >>=-eq-ok (integer_at (lit "max_retries") s.execution 0 true) _ h3 in
    let (a5, e5, h5) = >>=-eq-ok (integer_at (lit "actual_gpu_count") s.runtime 0 true) _ h4 in
    let (a6, e6, h6) = >>=-eq-ok (integer_at (lit "actual_hours") s.runtime 0 true) _ h5 in
    let (a7, e7, h7) =
      >>=-eq-ok (integer_at (lit "actual_total_cost_cents") s.runtime 0 true) _ h6 in
    let (a8, e8, h8) = >>=-eq-ok (integer_at (lit "max_total_cost_cents") s.rules 1 false) _ h7 in
    let (a9, e9, h9) = >>=-eq-ok (integer_at (lit "max_gpu_count") s.rules 1 false) _ h8 in
    let (a10, e10, h10) = >>=-eq-ok (integer_at (lit "max_hours") s.rules 1 false) _ h9 in
    let (a11, e11, h11) =
      >>=-eq-ok (integer_at (lit "require_manual_approval_above_cents") s.rules 0 true) _ h10 in
    let (a12, e12, h12) = >>=-eq-ok (integer_at (lit "max_retry_count") s.rules 0 true) _ h11 in
    let (a13, e13, h13) = >>=-eq-ok (integer_at (lit "gpu_hour_cents") s.pricing 1 false) _ h12 in
    ground (
      arith,
      validate_integer-range _ _ _ a1 e1,
      validate_integer-range _ _ _ a2 e2,
      validate_integer-range _ _ _ a3 e3,
      validate_integer-range _ _ _ a4 e4,
      validate_integer-range _ _ _ a5 e5,
      validate_integer-range _ _ _ a6 e6,
      validate_integer-range _ _ _ a7 e7,
      validate_integer-range _ _ _ a8 e8,
      validate_integer-range _ _ _ a9 e9,
      validate_integer-range _ _ _ a10 e10,
      validate_integer-range _ _ _ a11 e11,
      validate_integer-range _ _ _ a12 e12,
      validate_integer-range _ _ _ a13 e13,
    )

-- The numbers that the preflight accepts are all safe integers; the GPUs, the hours, the
-- multiplier, the price and the three limits of the policy that must be positive are.
pub read_numbers-InRange : (s : Sections) (n : Numbers) → read_numbers s ≡ ok n → InRange n
unfolding read_numbers
read_numbers-InRange s n h =
    let (_, _, values) = >>=-eq-ok (pass (numeric_failure none (numeric_checks s))) _ h in
    number_values-InRange s n values
