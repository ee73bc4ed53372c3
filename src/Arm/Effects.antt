-- ===== src/Arm/Effects.antt =====
-- What the gate of arm/engine.ts does to the stores.
use aegisone_core.Prelude.{
  ℕ, ◌≡◌, ◌≢◌, inl, inr, Str, none, some, arith, Option-cases, Bool-cases, lookup, lookup-insert,
  str_eq, str_eq_self,
}
use aegisone_core.Contracts.{CanonicalExecutionInput, OrbitTrace}
use aegisone_core.State.{AuthorityStore, begin, commit_allow}
use aegisone_core.Arm.{
  ArmStores, projected_cost, refusal_reason, charge_budget, gated, run_strict_arm,
}

-- The trace names the execution id of the request.
pub run_strict_arm-execution_id :
    (input : CanonicalExecutionInput) (orbit : OrbitTrace) (hash : Str) (s : ArmStores)
    → (run_strict_arm input orbit hash s).1.execution_id
      ≡ input.execution_request.release_request.execution_id
unfolding run_strict_arm gated charge_budget
run_strict_arm-execution_id input orbit hash s = ground arith

charge_budget-authority :
    (input : CanonicalExecutionInput) (cost : ℕ) (s : ArmStores)
    → (charge_budget input cost s).0.authority ≡ s.authority
unfolding charge_budget
charge_budget-authority input cost s = ground arith

gated-authority :
    (input : CanonicalExecutionInput) (orbit : OrbitTrace) (cost : ℕ) (s : ArmStores)
    → (gated input orbit cost s).0.authority ≡ s.authority
unfolding gated
gated-authority input orbit cost s = elim (Option-cases (refusal_reason input orbit cost)) [
  | inl e ↦ rw (e, gated) (charge_budget-authority input cost s)
  | inr (r, e) ↦ rw (e, gated)
]

-- With a safe cost the id is begun, whatever the checks say afterwards.
pub run_strict_arm-authority :
    (input : CanonicalExecutionInput) (orbit : OrbitTrace) (hash : Str) (s : ArmStores) (cost : ℕ)
    → projected_cost input ≡ some cost
    → (run_strict_arm input orbit hash s).0.authority
      ≡ (begin input.execution_request.release_request.execution_id hash s.authority).0
unfolding run_strict_arm
run_strict_arm-authority input orbit hash s cost e =
    rw (e, run_strict_arm)
      (ground (
        arith,
        gated-authority input orbit cost (record s {
          authority =
              (begin input.execution_request.release_request.execution_id hash s.authority).0;
        }),
      ))

-- Without one, nothing changes.
pub run_strict_arm-overflow :
    (input : CanonicalExecutionInput) (orbit : OrbitTrace) (hash : Str) (s : ArmStores)
    → projected_cost input ≡ none
    → (run_strict_arm input orbit hash s).0 ≡ s
unfolding run_strict_arm
run_strict_arm-overflow input orbit hash s e = rw (e, run_strict_arm)

-- The id has a record.
abbrev pub IsKnown : Str → AuthorityStore → Type 0
IsKnown id m = lookup id m ≢ none

pub begin-IsKnown_self : (id hash : Str) (m : AuthorityStore) → IsKnown id (begin id hash m).0
unfolding begin
begin-IsKnown_self id hash m = elim (Option-cases (lookup id m)) [
  | inl e ↦ rw (e, begin, lookup-insert, str_eq_self id) (λ h. cc)
  | inr (r, e) ↦ rw (e, begin) (λ h. cc)
]

pub begin-IsKnown :
    (id hash j : Str) (m : AuthorityStore) → IsKnown j m → IsKnown j (begin id hash m).0
unfolding begin
begin-IsKnown id hash j m k = elim (Option-cases (lookup id m)) [
  | inl e ↦
      rw (e, begin, lookup-insert)
        (elim (Bool-cases (str_eq id j)) [ inl same ↦ rw same (λ h. cc) | inr other ↦ rw other k ])
  | inr (r, e) ↦ rw (e, begin) k
]

pub commit_allow-IsKnown :
    (id hash decision_hash j : Str) (m : AuthorityStore)
    → IsKnown j m
    → IsKnown j (commit_allow id hash decision_hash m)
unfolding commit_allow
commit_allow-IsKnown id hash decision_hash j m k =
    rw lookup-insert
      (elim (Bool-cases (str_eq id j)) [ inl same ↦ rw same (λ h. cc) | inr other ↦ rw other k ])

-- The gate takes no record away.
pub run_strict_arm-IsKnown :
    (input : CanonicalExecutionInput) (orbit : OrbitTrace) (hash j : Str) (s : ArmStores)
    → IsKnown j s.authority
    → IsKnown j (run_strict_arm input orbit hash s).0.authority
run_strict_arm-IsKnown input orbit hash j s k = elim (Option-cases (projected_cost input)) [
  | inl e ↦ rw (run_strict_arm-overflow input orbit hash s e) k
  | inr (cost, e) ↦
      rw (run_strict_arm-authority input orbit hash s cost e)
        (begin-IsKnown input.execution_request.release_request.execution_id hash j s.authority k)
]

-- Every trace with a safe cost shows that cost.
pub run_strict_arm-projected :
    (input : CanonicalExecutionInput) (orbit : OrbitTrace) (hash : Str) (s : ArmStores) (cost : ℕ)
    → projected_cost input ≡ some cost
    → (run_strict_arm input orbit hash s).1.projected_total_cost_cents ≡ cost
unfolding run_strict_arm gated charge_budget
run_strict_arm-projected input orbit hash s cost e = ground arith
