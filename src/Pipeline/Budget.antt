-- ===== src/Pipeline/Budget.antt =====
-- The total cost that is allowed under a budget token stays within the token's maximum.
use aegisone_core.Prelude.{
  ℕ, ◌+◌, ◌≤◌, ◌≡◌, Str, Bool, false, List, [], ◌∷◌, Option, none, some, if◌then◌else◌, arith,
  Option-cases, inl, inr, lookup, lookup-insert, str_eq,
}
use aegisone_core.Contracts.{ParsedEnvelope, OrbitTrace, ArmTrace}
use aegisone_core.State.{BudgetTokenState, BudgetStore, define}
use aegisone_core.Crypto.{Crypto}
use aegisone_core.Preflight.{envelope, failure, run_strict_preflight}
use aegisone_core.Orbit.{run_strict_orbit}
use aegisone_core.Orbit.Text.{Unicode}
use aegisone_core.Arm.{ArmStores, run_strict_arm, commit_arm_allow}
use aegisone_core.Arm.Budget.{IsCharged, charge, is_allow, unchanged, run_strict_arm-IsCharged}
use aegisone_core.Ramona.Receipt.{Signing, receipt_payload}
use aegisone_core.Ramona.Laws.{build_receipt-payload}
use aegisone_core.Pipeline.{
  Outcome, executed, failed, receipt_input, commit_receipt, settle, execute_envelope,
  execute_deterministic_pipeline, Call, execute, seed, run_call, run_calls,
}
use aegisone_core.Pipeline.Step.{settle-executed}
use aegisone_core.Pipeline.Authority.{decision_of}

-- What an outcome allows under the token: the projected cost that its receipt shows.
abbrev pub outcome_charge : Str → Option Outcome → ℕ
outcome_charge token none = 0
outcome_charge token (some (failed f)) = 0
outcome_charge token (some (executed x)) =
    if is_allow (decision_of x) then charge token x.receipt.payload.arm else 0

unfoldable pub spent : Str → List (Option Outcome) → ℕ
spent token [] = 0
spent token (o ∷ os) = outcome_charge token o + spent token os

-- None of the calls defines the token anew.
abbrev pub IsUnseeded : Str → List Call → Type 0
IsUnseeded token [] = Unit {0}
IsUnseeded token (execute raw ∷ ks) = IsUnseeded token ks
IsUnseeded token (seed t max_budget ∷ ks) = (str_eq t token ≡ false) × IsUnseeded token ks

if-le : (b : Bool) (n : ℕ) → (if b then n else 0) ≤ n
if-le b n = ground arith

weaken :
    {token : Str} {r : BudgetTokenState} {m : BudgetStore} (cost less : ℕ)
    → less ≤ cost
    → IsCharged token r cost m
    → IsCharged token r less m
weaken cost less h i = record {
  state = i.state;
  found = i.found;
  limit = i.limit;
  grown = omega (arith, i.grown);
  within = i.within;
}

module _ (c : Crypto) (u : Unicode) (g : Signing) where
  settle-budgets :
      (e : ParsedEnvelope) (orbit : OrbitTrace) (arm : ArmTrace) (s : ArmStores)
      → (settle c u g e orbit arm s).0.budgets ≡ s.budgets
  unfolding settle commit_receipt commit_arm_allow
  settle-budgets e orbit arm s = ground arith

  -- A receipt charges no more than the trace of ARM that it was built from.
  settle-charge :
      (token : Str) (e : ParsedEnvelope) (orbit : OrbitTrace) (arm : ArmTrace) (s : ArmStores)
      → outcome_charge token (settle c u g e orbit arm s).1 ≤ charge token arm
  unfolding receipt_payload
  settle-charge token e orbit arm s = elim (Option-cases (settle c u g e orbit arm s).1) [
    | inl x ↦ rw x (omega arith)
    | inr (failed f, x) ↦ rw x (omega arith)
    | inr (executed y, x) ↦
        let (ramona, _, built) = settle-executed c u g e orbit arm s y x in
        let (h, same) =
          build_receipt-payload c g (receipt_input e orbit arm ramona) y.receipt built in
        rw (x, same) (if-le _ (charge token arm))
  ]

  execute_envelope-IsCharged :
      (token : Str) (r : BudgetTokenState) (s : ArmStores)
      → lookup token s.budgets ≡ some r
      → r.consumed_cents ≤ r.max_budget_cents
      → (e : ParsedEnvelope)
      → IsCharged token r
          (outcome_charge token (execute_envelope c u g e s).1)
          (execute_envelope c u g e s).0.budgets
  unfolding execute_envelope
  execute_envelope-IsCharged token r s found within e =
      elim (Option-cases (run_strict_orbit c u e.parsed_input)) [
        | inl x ↦ rw (x, execute_envelope) (unchanged found within)
        | inr (orbit, x) ↦
            let (s', arm) = run_strict_arm e.parsed_input orbit e.request_hash s in
            rw (x, execute_envelope, settle-budgets e orbit arm s')
              (weaken (charge token arm) _ (settle-charge token e orbit arm s') (
                run_strict_arm-IsCharged token r s found within e.parsed_input orbit
                  e.request_hash))
      ]

  -- For a token that is defined and within its maximum: an execution leaves it defined with the
  -- same maximum and within it, and adds to what is consumed at least the cost that its receipt
  -- allows under the token.
  pub execute-IsCharged :
      (token : Str) (r : BudgetTokenState) (s : ArmStores)
      → lookup token s.budgets ≡ some r
      → r.consumed_cents ≤ r.max_budget_cents
      → (raw : Str)
      → IsCharged token r
          (outcome_charge token (execute_deterministic_pipeline c u g raw s).1)
          (execute_deterministic_pipeline c u g raw s).0.budgets
  unfolding execute_deterministic_pipeline
  execute-IsCharged token r s found within raw = elim (Option-cases (run_strict_preflight c raw)) [
    | inl x ↦ rw (x, execute_deterministic_pipeline) (unchanged found within)
    | inr (failure f, x) ↦ rw (x, execute_deterministic_pipeline) (unchanged found within)
    | inr (envelope e, x) ↦
        rw (x, execute_deterministic_pipeline) (execute_envelope-IsCharged token r s found within e)
  ]

  -- For a token that is defined and within its maximum at the start, whatever is called
  -- afterwards, except that the token itself is not defined anew: what was consumed under it
  -- before, and the projected costs of all receipts that allow under it, add up to its maximum at
  -- most.
  pub run_calls-within_budget :
      (token : Str) (r : BudgetTokenState) (ks : List Call) (s : ArmStores)
      → lookup token s.budgets ≡ some r
      → r.consumed_cents ≤ r.max_budget_cents
      → IsUnseeded token ks
      → r.consumed_cents + spent token (run_calls c u g ks s) ≤ r.max_budget_cents
  unfolding run_calls run_call spent define
  run_calls-within_budget token r [] s found within unseeded = omega arith
  run_calls-within_budget token r (seed t max_budget ∷ ks) s found within (other, unseeded) =
      omega (
        arith,
        run_calls-within_budget token r ks (run_call c u g (seed t max_budget) s).0
            (rw (lookup-insert, other) found) within unseeded,
      )
  run_calls-within_budget token r (execute raw ∷ ks) s found within unseeded =
      let i = execute-IsCharged token r s found within raw in
      omega (
        arith,
        i.grown,
        i.limit,
        run_calls-within_budget token i.state ks (execute_deterministic_pipeline c u g raw s).0
            i.found i.within unseeded,
      )
