-- ===== src/Arm/Cost.antt =====
-- The projected cost of arm/engine.ts against the plain product of its factors.
use aegisone_core.Prelude.{
  ◌>>=◌, ℕ, ◌*◌, ◌≤◌, ◌<◌, ◌≡◌, Option, none, some, if◌then◌else◌, ltb, arith,
}
use aegisone_core.Contracts.{CanonicalExecutionInput}
use aegisone_core.Json.{safe_limit}
use aegisone_core.Arm.{multiply_checked, projected_cost, scale_factor, retry_factor}

-- GPUs times hours times the hourly price, times the two conditional factors.
abbrev pub exposure : CanonicalExecutionInput → ℕ
exposure input =
    input.execution_request.resources.gpu_count
    * input.execution_request.resources.hours
    * input.gpu_hour_cents
    * scale_factor input
    * retry_factor input

-- What the strict preflight makes of the factors.
pub record HasFactors (input : CanonicalExecutionInput) : Type 0 where
  pub gpu : 0 < input.execution_request.resources.gpu_count
  pub hours : 0 < input.execution_request.resources.hours
  pub price : 0 < input.gpu_hour_cents
  pub scale : 0 < input.execution_request.execution.max_scale_multiplier

abbrev checked : ℕ → Option ℕ
checked n = if ltb n safe_limit then some n else none

le-mul_right : (a k : ℕ) → 0 < k → a ≤ a * k
le-mul_right a k h = grind arith

-- Where one product overflows, so does every later one, as the later factors are positive.
checked-chain :
    (a b c d e : ℕ)
    → 0 < c
    → 0 < d
    → 0 < e
    → (do
      base ← checked (a * b)
      priced ← checked (base * c)
      scaled ← checked (priced * d)
      checked (scaled * e))
      ≡ checked (a * b * c * d * e)
checked-chain a b c d e hc hd he = ground (
  arith,
  le-mul_right (a * b) c hc,
  le-mul_right (a * b * c) d hd,
  le-mul_right (a * b * c * d) e he,
)

scale_factor-pos : (input : CanonicalExecutionInput) → HasFactors input → 0 < scale_factor input
scale_factor-pos input f = ground arith

retry_factor-pos : (input : CanonicalExecutionInput) → 0 < retry_factor input
retry_factor-pos input = ground arith

-- For positive factors, the projected cost is the exposure if that is a safe integer, and there
-- is none otherwise.
pub projected_cost-exposure :
    (input : CanonicalExecutionInput)
    → HasFactors input
    → projected_cost input
      ≡ (if ltb (exposure input) safe_limit then some (exposure input) else none)
unfolding projected_cost multiply_checked
projected_cost-exposure input f =
    checked-chain _ _ _ _ _ f.price (scale_factor-pos input f) (retry_factor-pos input)
