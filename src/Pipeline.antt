-- ===== src/Pipeline.antt =====
-- audit/node_runtime.ts: `executeDeterministicPipeline`, the composition of the four layers over the
-- stores of arm/engine.ts. A call returns the stores beside its outcome; `none` is an error that
-- escapes, and the stores keep what was done before it. The timing of the layers is left out.
pub mod Step
pub mod Sound
pub mod Authority
pub mod Burned
pub mod Replay
pub mod Budget
use aegisone_core.Prelude.{ℕ, Str, List, [], ◌∷◌, Option, none, some}
use aegisone_core.Json.Canonical.{canonicalize_json}
use aegisone_core.Contracts.{
  ParsedEnvelope, TypedFailure, OrbitTrace, ArmTrace, RamonaTrace, Decision, allow, refuse,
}
use aegisone_core.Contracts.Receipt.{SignedReceipt, receipt_json}
use aegisone_core.Crypto.{Crypto}
use aegisone_core.Preflight.{Preflight, envelope, failure, run_strict_preflight}
use aegisone_core.Orbit.{run_strict_orbit}
use aegisone_core.Orbit.Text.{Unicode}
use aegisone_core.Arm.{ArmStores, run_strict_arm, commit_arm_allow, define_budget_token}
use aegisone_core.Ramona.{run_strict_ramona}
use aegisone_core.Ramona.Receipt.{Signing, ReceiptInput, build_receipt}

-- `ExecutionResult`.
pub record ExecutionResult : Type 0 where
  pub receipt : SignedReceipt
  pub receipt_bytes : Str

pub data Outcome : Type 0 where
  executed : ExecutionResult → Outcome
  failed : TypedFailure → Outcome

abbrev pub receipt_input : ParsedEnvelope → OrbitTrace → ArmTrace → RamonaTrace → ReceiptInput
receipt_input e orbit arm ramona = record {
  canonical_request = e.canonical_input;
  request_hash = e.request_hash;
  policy_hash = e.policy_hash;
  preflight = record {
    request_hash = e.request_hash;
    policy_hash = e.policy_hash;
    policy_version = e.parsed_input.policy_document.policy_version;
  };
  orbit = orbit;
  arm = arm;
  ramona = ramona;
  policy_version = e.parsed_input.policy_document.policy_version;
}

-- The commit behind the receipt.
unfoldable pub commit_receipt : ParsedEnvelope → ArmTrace → SignedReceipt → ArmStores → ArmStores
commit_receipt e arm receipt s = elim receipt.payload.decision_output.decision [
  | allow ↦
      commit_arm_allow arm.execution_id e.request_hash receipt.payload.decision_output.decision_hash
        s
  | refuse ↦ s
]

abbrev pub with_bytes : SignedReceipt → Option Str → Option Outcome
with_bytes receipt none = none
with_bytes receipt (some bytes) =
    some (executed (record { receipt = receipt; receipt_bytes = bytes }))

module _ (c : Crypto) (u : Unicode) (g : Signing) where
  -- From the runtime gate on.
  unfoldable pub settle :
      ParsedEnvelope → OrbitTrace → ArmTrace → ArmStores → ArmStores × Option Outcome
  settle e orbit arm s = elim (run_strict_ramona c e.parsed_input arm) [
    | none ↦ (s, none)
    | some ramona ↦ elim (build_receipt c g (receipt_input e orbit arm ramona)) [
      | none ↦ (s, none)
      | some receipt ↦ (
        commit_receipt e arm receipt s,
        with_bytes receipt (canonicalize_json (receipt_json receipt)),
      )
    ]
  ]

  -- From the intent gate on.
  unfoldable pub execute_envelope : ParsedEnvelope → ArmStores → ArmStores × Option Outcome
  execute_envelope e s = elim (run_strict_orbit c u e.parsed_input) [
    | none ↦ (s, none)
    | some orbit ↦
        let (s', arm) = run_strict_arm e.parsed_input orbit e.request_hash s in
        settle e orbit arm s'
  ]

  -- `executeDeterministicPipeline`.
  unfoldable pub execute_deterministic_pipeline : Str → ArmStores → ArmStores × Option Outcome
  execute_deterministic_pipeline raw s = elim (run_strict_preflight c raw) [
    | none ↦ (s, none)
    | some (failure f) ↦ (s, some (failed f))
    | some (envelope e) ↦ execute_envelope e s
  ]

-- What a client of the process does between two resets: execute a raw input, or define a token
-- (`seedBudgetToken`).
pub data Call : Type 0 where
  execute : Str → Call
  seed : Str → ℕ → Call

module _ (c : Crypto) (u : Unicode) (g : Signing) where
  unfoldable pub run_call : Call → ArmStores → ArmStores × Option Outcome
  run_call (execute raw) s = execute_deterministic_pipeline c u g raw s
  run_call (seed token max_budget) s = (define_budget_token token max_budget s, none)

  -- The outcomes of a sequence of calls, in order.
  unfoldable pub run_calls : List Call → ArmStores → List (Option Outcome)
  run_calls [] s = []
  run_calls (k ∷ ks) s = let (s', outcome) = run_call k s in outcome ∷ run_calls ks s'
