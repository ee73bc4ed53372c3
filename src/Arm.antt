-- ===== src/Arm.antt =====
-- arm/engine.ts: the strict release gate over the stores of shared/state.ts. The code's two
-- module-level stores are the state that it is given and returns.
pub mod Cost
pub mod Gate
pub mod Effects
pub mod Budget
use aegisone_core.Prelude.{
  ◌>>=◌, ℕ, ◌+◌, ◌-◌, ◌*◌, Str, Bool, not, ◌&&◌, Option, none, some, if◌then◌else◌, ltb, min, max,
}
use aegisone_core.Contracts.{
  CanonicalExecutionInput, OrbitTrace, ArmTrace, Decision, allow, refuse, ReasonCode,
  integer_overflow, execution_id_already_consumed, execution_id_replayed, auto_scale_denied,
  gpu_limit, hours_limit, retry_limit, cost_limit, budget_token_exhausted, ok_arm,
}
use aegisone_core.Json.{safe_limit}
use aegisone_core.State
use aegisone_core.State.{
  AuthorityStore, BudgetStore, created, inflight_exists, allowed_exists, reserved, exhausted,
}

pub record ArmStores : Type 0 where
  pub authority : AuthorityStore
  pub budgets : BudgetStore

-- `multiplyChecked`: the rounded product of the code is a safe integer exactly if the product is.
unfoldable pub multiply_checked : ℕ → ℕ → Option ℕ
multiply_checked left right = if ltb (left * right) safe_limit then some (left * right) else none

-- The two conditional factors of the cost.
abbrev pub scale_factor : CanonicalExecutionInput → ℕ
scale_factor input =
    if input.execution_request.execution.auto_scale
    then input.execution_request.execution.max_scale_multiplier
    else 1

abbrev pub retry_factor : CanonicalExecutionInput → ℕ
retry_factor input =
    if input.execution_request.execution.retry_on_fail
    then input.execution_request.execution.max_retries + 1
    else 1

-- `projectedCost`.
unfoldable pub projected_cost : CanonicalExecutionInput → Option ℕ
projected_cost input = do
  base ←
      multiply_checked input.execution_request.resources.gpu_count
        input.execution_request.resources.hours
  priced ← multiply_checked base input.gpu_hour_cents
  scaled ← multiply_checked priced (scale_factor input)
  multiply_checked scaled (retry_factor input)

-- `resetArmStores`.
abbrev pub reset_arm_stores : ArmStores → ArmStores
reset_arm_stores s = record { authority = State.reset s.authority; budgets = State.reset s.budgets }

-- `defineBudgetToken`.
abbrev pub define_budget_token : Str → ℕ → ArmStores → ArmStores
define_budget_token token max_budget s = record s {
  budgets = State.define token max_budget s.budgets;
}

-- A trace of the gate; the code writes each one out.
abbrev pub arm_trace : CanonicalExecutionInput → Decision → ReasonCode → ℕ → ArmTrace
arm_trace input decision reason projected =
    let allowed_cost = min projected input.policy_document.rules.max_total_cost_cents in
    record {
      decision = decision;
      reason_code = reason;
      projected_total_cost_cents = projected;
      allowed_cost_cents = allowed_cost;
      prevented_cost_cents = max (projected - allowed_cost) 0;
      execution_id = input.execution_request.release_request.execution_id;
      budget_token = input.execution_request.budget_token;
    }

abbrev pub overflow_trace : CanonicalExecutionInput → ArmTrace
overflow_trace input = record {
  decision = refuse;
  reason_code = integer_overflow;
  projected_total_cost_cents = 0;
  allowed_cost_cents = 0;
  prevented_cost_cents = 0;
  execution_id = input.execution_request.release_request.execution_id;
  budget_token = input.execution_request.budget_token;
}

-- The checks between `begin` and the budget, in the code's order.
unfoldable pub refusal_reason : CanonicalExecutionInput → OrbitTrace → ℕ → Option ReasonCode
refusal_reason input orbit projected =
    let request = input.execution_request in
    let rules = input.policy_document.rules in
    elim orbit.decision [
      | refuse ↦ some orbit.reason_code
      | allow ↦
          if request.execution.auto_scale && not rules.allow_auto_scale
          then some auto_scale_denied
          else if ltb rules.max_gpu_count request.resources.gpu_count
          then some gpu_limit
          else if ltb rules.max_hours request.resources.hours
          then some hours_limit
          else if ltb rules.max_retry_count request.execution.max_retries
          then some retry_limit
          else if ltb rules.max_total_cost_cents projected
          then some cost_limit
          else none
    ]

-- The budget step, where a token is given.
unfoldable pub charge_budget : CanonicalExecutionInput → ℕ → ArmStores → ArmStores × ArmTrace
charge_budget input projected s = elim input.execution_request.budget_token [
  | none ↦ (s, arm_trace input allow ok_arm projected)
  | some token ↦
      let (budgets', status) = State.reserve token projected s.budgets in
      elim status [
        | exhausted ↦ (
          record s { budgets = budgets' },
          arm_trace input refuse budget_token_exhausted projected,
        )
        | reserved ↦ (record s { budgets = budgets' }, arm_trace input allow ok_arm projected)
      ]
]

unfoldable pub gated : CanonicalExecutionInput → OrbitTrace → ℕ → ArmStores → ArmStores × ArmTrace
gated input orbit projected s = elim (refusal_reason input orbit projected) [
  | some reason ↦ (s, arm_trace input refuse reason projected)
  | none ↦ charge_budget input projected s
]

-- `runStrictArm`.
unfoldable pub run_strict_arm :
    CanonicalExecutionInput → OrbitTrace → Str → ArmStores → ArmStores × ArmTrace
run_strict_arm input orbit request_hash s = elim (projected_cost input) [
  | none ↦ (s, overflow_trace input)
  | some projected ↦
      let id = input.execution_request.release_request.execution_id in
      let (authority', status) = State.begin id request_hash s.authority in
      elim status [
        | inflight_exists ↦ (
          record s { authority = authority' },
          arm_trace input refuse execution_id_already_consumed projected,
        )
        | allowed_exists ↦ (
          record s { authority = authority' },
          arm_trace input refuse execution_id_replayed projected,
        )
        | created ↦ gated input orbit projected (record s { authority = authority' })
      ]
]

-- `commitArmAllow`.
unfoldable pub commit_arm_allow : Str → Str → Str → ArmStores → ArmStores
commit_arm_allow id request_hash decision_hash s = record s {
  authority = State.commit_allow id request_hash decision_hash s.authority;
}
