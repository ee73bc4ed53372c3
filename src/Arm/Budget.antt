-- ===== src/Arm/Budget.antt =====
-- The budget tokens under the gate of arm/engine.ts.
use aegisone_core.Prelude.{
  ℕ, ◌+◌, ◌≤◌, ◌≡◌, ◌⊎◌, refl, Str, Bool, true, false, ◌&&◌, Option, none, some, if◌then◌else◌,
  arith, Option-cases, inl, inr, lookup, str_eq, str_eq_iff,
}
use aegisone_core.Contracts.{CanonicalExecutionInput, OrbitTrace, ArmTrace, Decision, allow, refuse}
use aegisone_core.State.{
  BudgetStore, BudgetTokenState, begin, BeginStatus, created, inflight_exists, allowed_exists,
}
use aegisone_core.State.Laws.{reserve-growth}
use aegisone_core.Arm.{
  ArmStores, projected_cost, refusal_reason, charge_budget, gated, run_strict_arm,
}

abbrev pub is_allow : Decision → Bool
is_allow allow = true
is_allow refuse = false

abbrev pub names_token : Str → Option Str → Bool
names_token token none = false
names_token token (some t) = str_eq t token

-- What a trace charges to the token.
abbrev pub charge : Str → ArmTrace → ℕ
charge token arm =
    if is_allow arm.decision && names_token token arm.budget_token
    then arm.projected_total_cost_cents
    else 0

-- A token that was in the state `r` has been charged the cost, at least, and keeps its maximum.
pub record IsCharged (token : Str) (r : BudgetTokenState) (cost : ℕ) (m : BudgetStore)
    : Type 0 where
  pub state : BudgetTokenState
  pub found : lookup token m ≡ some state
  pub limit : state.max_budget_cents ≡ r.max_budget_cents
  pub grown : r.consumed_cents + cost ≤ state.consumed_cents
  pub within : state.consumed_cents ≤ state.max_budget_cents

pub unchanged :
    {token : Str} {r : BudgetTokenState} {m : BudgetStore}
    → lookup token m ≡ some r
    → r.consumed_cents ≤ r.max_budget_cents
    → IsCharged token r 0 m
unchanged {r} found within = record {
  state = r;
  found = found;
  limit = refl;
  grown = omega arith;
  within = within;
}

BeginStatus-cases :
    (b : BeginStatus) → (b ≡ created) ⊎ ((b ≡ inflight_exists) ⊎ (b ≡ allowed_exists))
BeginStatus-cases created = inl refl
BeginStatus-cases inflight_exists = inr (inl refl)
BeginStatus-cases allowed_exists = inr (inr refl)

module _ (token : Str) (r : BudgetTokenState) (s : ArmStores)
    (found : lookup token s.budgets ≡ some r) (within : r.consumed_cents ≤ r.max_budget_cents) where
  charge_budget-IsCharged :
      (input : CanonicalExecutionInput) (cost : ℕ)
      → IsCharged token r
          (charge token (charge_budget input cost s).1)
          (charge_budget input cost s).0.budgets
  unfolding charge_budget
  charge_budget-IsCharged input cost = elim (Option-cases input.execution_request.budget_token) [
    | inl e ↦ rw (e, charge_budget, e) (unchanged found within)
    | inr (t, e) ↦
        let (q, here, limit, more, fits, charged) =
          reserve-growth t token cost s.budgets r found within in
        let grown : r.consumed_cents + charge token (charge_budget input cost s).1
            ≤ q.consumed_cents =
          rw (e, charge_budget) (ground (arith, e, str_eq_iff t token, charged)) in
        let kept : lookup token (charge_budget input cost s).0.budgets ≡ some q =
          rw (e, charge_budget) (ground (arith, here)) in
        record { state = q; found = kept; limit = limit; grown = grown; within = fits }
  ]

  gated-IsCharged :
      (input : CanonicalExecutionInput) (orbit : OrbitTrace) (cost : ℕ)
      → IsCharged token r
          (charge token (gated input orbit cost s).1)
          (gated input orbit cost s).0.budgets
  unfolding gated
  gated-IsCharged input orbit cost = elim (Option-cases (refusal_reason input orbit cost)) [
    | inl e ↦ rw (e, gated) (charge_budget-IsCharged input cost)
    | inr (reason, e) ↦ rw (e, gated) (unchanged found within)
  ]

-- An ALLOW of the gate under a budget token charges the token the projected cost; nothing else
-- lowers what a token has consumed, or takes it over its maximum.
pub run_strict_arm-IsCharged :
    (token : Str) (r : BudgetTokenState) (s : ArmStores)
    → lookup token s.budgets ≡ some r
    → r.consumed_cents ≤ r.max_budget_cents
    → (input : CanonicalExecutionInput) (orbit : OrbitTrace) (hash : Str)
    → IsCharged token r
        (charge token (run_strict_arm input orbit hash s).1)
        (run_strict_arm input orbit hash s).0.budgets
unfolding run_strict_arm
run_strict_arm-IsCharged token r s found within input orbit hash =
    elim (Option-cases (projected_cost input)) [
      | inl e ↦ rw (e, run_strict_arm) (unchanged found within)
      | inr (cost, e) ↦
          let id = input.execution_request.release_request.execution_id in
          let begun : ArmStores = record s { authority = (begin id hash s.authority).0 } in
          rw (e, run_strict_arm)
            (elim (BeginStatus-cases (begin id hash s.authority).1) [
              | inl new ↦ rw new (gated-IsCharged token r begun found within input orbit cost)
              | inr (inl old) ↦ rw old (unchanged found within)
              | inr (inr old) ↦ rw old (unchanged found within)
            ])
    ]
