-- ===== src/Arm/Gate.antt =====
-- When the strict release gate of arm/engine.ts allows, and what its trace says of the cost.
use aegisone_core.Prelude.{
  ℕ, ◌≤◌, ◌<◌, ◌≡◌, ◌↔◌, Str, true, Option, none, some, arith, Option-cases, inl, inr, lookup,
}
use aegisone_core.Contracts.{CanonicalExecutionInput, OrbitTrace, allow}
use aegisone_core.Json.{safe_limit}
use aegisone_core.State.{begin, BudgetStore}
use aegisone_core.State.Laws.{HasRoom, begin-created_iff, reserve-reserved_iff}
use aegisone_core.Arm.{
  ArmStores, projected_cost, refusal_reason, charge_budget, gated, run_strict_arm,
}
use aegisone_core.Arm.Cost.{exposure, HasFactors, projected_cost-exposure}

-- The token, if there is one, has room for the cost.
abbrev pub IsCovered : Option Str → ℕ → BudgetStore → Type 0
IsCovered none cost m = Unit
IsCovered (some token) cost m = HasRoom token cost m

-- The limits of the policy that the gate reads, on a request that is projected to cost so much. The
-- rule require_manual_approval_above_cents is not among them.
pub record IsWithinPolicy (input : CanonicalExecutionInput) (projected : ℕ) : Type 0 where
  pub scaling :
      input.execution_request.execution.auto_scale ≡ true
      → input.policy_document.rules.allow_auto_scale ≡ true
  pub gpus : input.execution_request.resources.gpu_count ≤ input.policy_document.rules.max_gpu_count
  pub hours : input.execution_request.resources.hours ≤ input.policy_document.rules.max_hours
  pub retries :
      input.execution_request.execution.max_retries ≤ input.policy_document.rules.max_retry_count
  pub cost : projected ≤ input.policy_document.rules.max_total_cost_cents

pub refusal_reason-none_iff :
    (input : CanonicalExecutionInput) (orbit : OrbitTrace) (cost : ℕ)
    → (refusal_reason input orbit cost ≡ none)
      ↔ ((orbit.decision ≡ allow) × IsWithinPolicy input cost)
unfolding refusal_reason
refusal_reason-none_iff input orbit cost = ground arith

charge_budget-allow_iff :
    (input : CanonicalExecutionInput) (cost : ℕ) (s : ArmStores)
    → ((charge_budget input cost s).1.decision ≡ allow)
      ↔ IsCovered input.execution_request.budget_token cost s.budgets
unfolding charge_budget
charge_budget-allow_iff input cost s = elim (Option-cases input.execution_request.budget_token) [
  | inl e ↦ rw e (ground arith)
  | inr (token, e) ↦ rw e (ground (arith, reserve-reserved_iff token cost s.budgets))
]

-- What the gate demands of a request and of the stores.
pub record IsAdmitted (input : CanonicalExecutionInput) (orbit : OrbitTrace) (s : ArmStores)
    : Type 0 where
  pub fits : exposure input < safe_limit
  pub fresh : lookup input.execution_request.release_request.execution_id s.authority ≡ none
  pub upstream : orbit.decision ≡ allow
  pub policy : IsWithinPolicy input (exposure input)
  pub covered : IsCovered input.execution_request.budget_token (exposure input) s.budgets

gated-allow_iff :
    (input : CanonicalExecutionInput) (orbit : OrbitTrace) (cost : ℕ) (s : ArmStores)
    → ((gated input orbit cost s).1.decision ≡ allow) ↔ (
        (orbit.decision ≡ allow)
        × IsWithinPolicy input cost
        × IsCovered input.execution_request.budget_token cost s.budgets)
unfolding gated
gated-allow_iff input orbit cost s = elim (Option-cases (refusal_reason input orbit cost)) [
  | inl e ↦
      let (policy, _) = refusal_reason-none_iff input orbit cost in
      let (to, from) = charge_budget-allow_iff input cost s in
      rw (e, gated) ((λ h. ((policy e).0, (policy e).1, to h)), (λ h. from h.2))
  | inr (reason, e) ↦
      rw (e, gated)
        (
          (λ h. absurd (ground arith)),
          (λ h. absurd (ground (arith, (refusal_reason-none_iff input orbit cost).1))),
        )
]

-- The gate where the cost is known and the id is new: the id is in flight, and the checks decide.
pub run_strict_arm-gated :
    (input : CanonicalExecutionInput) (orbit : OrbitTrace) (hash : Str) (s : ArmStores) (cost : ℕ)
    → projected_cost input ≡ some cost
    → lookup input.execution_request.release_request.execution_id s.authority ≡ none
    → run_strict_arm input orbit hash s
      ≡ gated input orbit cost (record s {
        authority = (begin input.execution_request.release_request.execution_id hash s.authority).0;
      })
unfolding run_strict_arm
run_strict_arm-gated input orbit hash s cost e fresh =
    rw (e, run_strict_arm, (begin-created_iff _ hash s.authority).1 fresh)

-- Without a safe cost, or with an id on record, the gate refuses.
pub run_strict_arm-allow_fresh :
    (input : CanonicalExecutionInput) (orbit : OrbitTrace) (hash : Str) (s : ArmStores)
    → (run_strict_arm input orbit hash s).1.decision ≡ allow
    → lookup input.execution_request.release_request.execution_id s.authority ≡ none
unfolding run_strict_arm
run_strict_arm-allow_fresh input orbit hash s h =
    ground (
      arith,
      begin-created_iff input.execution_request.release_request.execution_id hash s.authority,
    )

pub run_strict_arm-allow_cost :
    (input : CanonicalExecutionInput) (orbit : OrbitTrace) (hash : Str) (s : ArmStores)
    → (run_strict_arm input orbit hash s).1.decision ≡ allow
    → (cost : ℕ) × (projected_cost input ≡ some cost)
unfolding run_strict_arm
run_strict_arm-allow_cost input orbit hash s h = ground arith

-- The decision of the gate on a request with positive factors, whatever its manual approval.
pub run_strict_arm-allow_iff :
    (input : CanonicalExecutionInput) (orbit : OrbitTrace) (hash : Str) (s : ArmStores)
    → HasFactors input
    → ((run_strict_arm input orbit hash s).1.decision ≡ allow) ↔ IsAdmitted input orbit s
run_strict_arm-allow_iff input orbit hash s f = (sound, complete)
  where
    safe :
        (cost : ℕ)
        → projected_cost input ≡ some cost
        → (cost ≡ exposure input) × (exposure input < safe_limit)
    safe cost e = ground (arith, projected_cost-exposure input f)

    sound : (run_strict_arm input orbit hash s).1.decision ≡ allow → IsAdmitted input orbit s
    sound h =
        let fresh = run_strict_arm-allow_fresh input orbit hash s h in
        let (cost, e) = run_strict_arm-allow_cost input orbit hash s h in
        let (same, fits) = safe cost e in
        let (upstream, policy, covered) =
          (gated-allow_iff input orbit cost _).0
            (rw (run_strict_arm-gated input orbit hash s cost e fresh) at h) in
        record {
          fits = fits;
          fresh = fresh;
          upstream = upstream;
          policy = rw same at policy;
          covered = rw same at covered;
        }

    complete : IsAdmitted input orbit s → (run_strict_arm input orbit hash s).1.decision ≡ allow
    complete a =
        let e : projected_cost input ≡ some (exposure input) =
          ground (arith, projected_cost-exposure input f, a.fits) in
        rw (run_strict_arm-gated input orbit hash s (exposure input) e a.fresh)
          ((gated-allow_iff input orbit (exposure input) _).1 (a.upstream, a.policy, a.covered))

-- The exposure is not above the amount from which on the policy requires a manual approval.
abbrev pub IsUnheld : CanonicalExecutionInput → Type 0
IsUnheld input = exposure input ≤ input.policy_document.rules.require_manual_approval_above_cents

-- For a request with positive factors, the gate allows only what it must admit: the exposure is a
-- safe integer, the execution id is new, ORBIT allowed, the policy permits the scaling, the number
-- of devices, the hours, the retries and the total cost, and the budget token, if there is one, has
-- room for the exposure. It does allow such a request where the exposure is not above the policy's
-- threshold of manual approval.
pub run_strict_arm-admits :
    (input : CanonicalExecutionInput) (orbit : OrbitTrace) (hash : Str) (s : ArmStores)
    → HasFactors input
    → ((run_strict_arm input orbit hash s).1.decision ≡ allow → IsAdmitted input orbit s)
      × (IsAdmitted input orbit s
          → IsUnheld input
          → (run_strict_arm input orbit hash s).1.decision ≡ allow)
run_strict_arm-admits input orbit hash s f =
    let (sound, complete) = run_strict_arm-allow_iff input orbit hash s f in
    (sound, λ a _. complete a)
