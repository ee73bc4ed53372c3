-- ===== src/Pipeline/Authority.antt =====
-- One execution id, at most one ALLOW: the authority store over any sequence of calls.
use aegisone_core.Prelude.{
  ℕ, ◌+◌, ◌≤◌, ◌≡◌, refl, sym, ap, ◌∙◌, Str, Bool, true, false, ◌&&◌, List, [], ◌∷◌, Option, none,
  some, if◌then◌else◌, arith, Option-cases, Bool-cases, inl, inr, lookup, str_eq, str_eq_iff,
}
use aegisone_core.Contracts.{ParsedEnvelope, OrbitTrace, ArmTrace, Decision, allow}
use aegisone_core.Contracts.Receipt.{SignedReceipt}
use aegisone_core.Crypto.{Crypto}
use aegisone_core.Preflight.{envelope, failure, run_strict_preflight}
use aegisone_core.Orbit.{run_strict_orbit}
use aegisone_core.Orbit.Text.{Unicode}
use aegisone_core.Arm.{ArmStores, run_strict_arm, commit_arm_allow}
use aegisone_core.Arm.Gate.{run_strict_arm-allow_fresh, run_strict_arm-allow_cost}
use aegisone_core.Arm.Effects.{
  IsKnown, run_strict_arm-execution_id, run_strict_arm-IsKnown, commit_allow-IsKnown,
  run_strict_arm-authority, begin-IsKnown_self,
}
use aegisone_core.Ramona.{run_strict_ramona}
use aegisone_core.Ramona.Receipt.{Signing, build_receipt, receipt_payload, is_allow}
use aegisone_core.Ramona.Laws.{build_receipt-payload, final_decision-allow_iff}
use aegisone_core.Pipeline.{
  ExecutionResult, Outcome, executed, failed, receipt_input, commit_receipt, settle,
  execute_envelope, execute_deterministic_pipeline, Call, execute, seed, run_call, run_calls,
}
use aegisone_core.Pipeline.Step.{Traces, execute-Traces}

-- The decision of a result, and the execution id that it is about.
abbrev pub decision_of : ExecutionResult → Decision
decision_of x = x.receipt.payload.decision_output.decision

abbrev pub id_of : ExecutionResult → Str
id_of x = x.receipt.payload.decision_output.execution_id

abbrev pub allows : Str → Option Outcome → Bool
allows id none = false
allows id (some (failed f)) = false
allows id (some (executed x)) = is_allow (decision_of x) && str_eq (id_of x) id

-- How many of the outcomes allow the id.
unfoldable pub allowed_count : Str → List (Option Outcome) → ℕ
allowed_count id [] = 0
allowed_count id (o ∷ os) = (if allows id o then 1 else 0) + allowed_count id os

module _ (c : Crypto) (u : Unicode) (g : Signing) where
  -- What an ALLOW says of the layers behind it.
  pub Traces-allow :
      (raw : Str) (s : ArmStores) (x : ExecutionResult) (t : Traces c u g raw s x)
      → decision_of x ≡ allow
      → (t.orbit.decision ≡ allow)
        × ((run_strict_arm t.parsed.parsed_input t.orbit t.parsed.request_hash s).1.decision
            ≡ allow)
        × (t.ramona.decision ≡ allow)
        × (id_of x ≡ t.parsed.parsed_input.execution_request.release_request.execution_id)
  unfolding receipt_payload
  Traces-allow raw s x t h =
      let arm = (run_strict_arm t.parsed.parsed_input t.orbit t.parsed.request_hash s).1 in
      let i = receipt_input t.parsed t.orbit arm t.ramona in
      let (hash, same) = build_receipt-payload c g i x.receipt t.built in
      let (orbit, gate, runtime) =
        (final_decision-allow_iff i).0 (sym (ap (λ p. p.decision_output.decision) same) ∙ h) in
      (
        orbit,
        gate,
        runtime,
        ap (λ p. p.decision_output.execution_id) same
            ∙ run_strict_arm-execution_id t.parsed.parsed_input t.orbit t.parsed.request_hash s,
      )

  -- An id that is allowed had no record before.
  pub execute-allow_fresh :
      (raw : Str) (s : ArmStores) (x : ExecutionResult)
      → (execute_deterministic_pipeline c u g raw s).1 ≡ some (executed x)
      → decision_of x ≡ allow
      → lookup (id_of x) s.authority ≡ none
  execute-allow_fresh raw s x e h =
      let t = execute-Traces c u g raw s x e in
      let (_, gate, _, same) = Traces-allow raw s x t h in
      rw same
        (run_strict_arm-allow_fresh t.parsed.parsed_input t.orbit t.parsed.request_hash s gate)

  commit_receipt-IsKnown :
      (e : ParsedEnvelope) (arm : ArmTrace) (r : SignedReceipt) (j : Str) (s : ArmStores)
      → IsKnown j s.authority
      → IsKnown j (commit_receipt e arm r s).authority
  unfolding commit_receipt commit_arm_allow
  commit_receipt-IsKnown e arm r j s k = ground (
    arith,
    commit_allow-IsKnown arm.execution_id e.request_hash r.payload.decision_output.decision_hash j
        s.authority k,
  )

  pub settle-IsKnown :
      (e : ParsedEnvelope) (orbit : OrbitTrace) (arm : ArmTrace) (j : Str) (s : ArmStores)
      → IsKnown j s.authority
      → IsKnown j (settle c u g e orbit arm s).0.authority
  unfolding settle
  settle-IsKnown e orbit arm j s k = elim (Option-cases (run_strict_ramona c e.parsed_input arm)) [
    | inl x ↦ rw (x, settle) k
    | inr (ramona, x) ↦
        rw (x, settle)
          (elim (Option-cases (build_receipt c g (receipt_input e orbit arm ramona))) [
            | inl y ↦ rw y k
            | inr (r, y) ↦ rw y (commit_receipt-IsKnown e arm r j s k)
          ])
  ]

  execute_envelope-IsKnown :
      (e : ParsedEnvelope) (j : Str) (s : ArmStores)
      → IsKnown j s.authority
      → IsKnown j (execute_envelope c u g e s).0.authority
  unfolding execute_envelope
  execute_envelope-IsKnown e j s k = elim (Option-cases (run_strict_orbit c u e.parsed_input)) [
    | inl x ↦ rw (x, execute_envelope) k
    | inr (orbit, x) ↦
        rw (x, execute_envelope)
          (settle-IsKnown e orbit _ j _
            (run_strict_arm-IsKnown e.parsed_input orbit e.request_hash j s k))
  ]

  -- No execution takes a record away.
  pub execute-IsKnown :
      (raw j : Str) (s : ArmStores)
      → IsKnown j s.authority
      → IsKnown j (execute_deterministic_pipeline c u g raw s).0.authority
  unfolding execute_deterministic_pipeline
  execute-IsKnown raw j s k = elim (Option-cases (run_strict_preflight c raw)) [
    | inl x ↦ rw (x, execute_deterministic_pipeline) k
    | inr (failure f, x) ↦ rw (x, execute_deterministic_pipeline) k
    | inr (envelope p, x) ↦
        rw (x, execute_deterministic_pipeline) (execute_envelope-IsKnown p j s k)
  ]

  -- An allowed request was within its store's reach: its projected cost is a safe integer.
  Traces-IsKnown :
      (raw : Str) (s : ArmStores) (x : ExecutionResult) (t : Traces c u g raw s x)
      → decision_of x ≡ allow
      → IsKnown (id_of x) (execute_deterministic_pipeline c u g raw s).0.authority
  unfolding execute_deterministic_pipeline execute_envelope
  Traces-IsKnown raw s x t h =
      let (_, gate, _, same) = Traces-allow raw s x t h in
      let (cost, priced) =
        run_strict_arm-allow_cost t.parsed.parsed_input t.orbit t.parsed.request_hash s gate in
      rw (t.accepted, execute_deterministic_pipeline, t.judged, execute_envelope, same)
        (settle-IsKnown t.parsed t.orbit _ _ _ (
          rw
            (run_strict_arm-authority t.parsed.parsed_input t.orbit t.parsed.request_hash s cost
              priced)
            (begin-IsKnown_self _ t.parsed.request_hash s.authority)))

  -- An allowed id has a record afterwards.
  pub execute-allow-IsKnown :
      (raw : Str) (s : ArmStores) (x : ExecutionResult)
      → (execute_deterministic_pipeline c u g raw s).1 ≡ some (executed x)
      → decision_of x ≡ allow
      → IsKnown (id_of x) (execute_deterministic_pipeline c u g raw s).0.authority
  execute-allow-IsKnown raw s x e h = Traces-IsKnown raw s x (execute-Traces c u g raw s x e) h

  run_call-IsKnown :
      (k : Call) (id : Str) (s : ArmStores)
      → IsKnown id s.authority
      → IsKnown id (run_call c u g k s).0.authority
  unfolding run_call
  run_call-IsKnown (execute raw) id s h = execute-IsKnown raw id s h
  run_call-IsKnown (seed token max) id s h = h

  -- A call that allows the id found no record of it, and leaves one.
  run_call-allows :
      (k : Call) (id : Str) (s : ArmStores)
      → allows id (run_call c u g k s).1 ≡ true
      → (lookup id s.authority ≡ none) × IsKnown id (run_call c u g k s).0.authority
  unfolding run_call
  run_call-allows (seed token max) id s h = cc
  run_call-allows (execute raw) id s h =
      elim (Option-cases (execute_deterministic_pipeline c u g raw s).1) [
        | inl e ↦ absurd (ground arith)
        | inr (failed f, e) ↦ absurd (ground arith)
        | inr (executed x, e) ↦
            let allowed : decision_of x ≡ allow = ground arith in
            let same : id_of x ≡ id = ground (arith, str_eq_iff (id_of x) id) in
            (
              rw same at (execute-allow_fresh raw s x e allowed),
              rw same at (execute-allow-IsKnown raw s x e allowed),
            )
      ]

  -- A known id is not allowed again.
  pub run_calls-known :
      (id : Str) (ks : List Call) (s : ArmStores)
      → IsKnown id s.authority
      → allowed_count id (run_calls c u g ks s) ≡ 0
  unfolding run_calls allowed_count
  run_calls-known id [] s known = refl
  run_calls-known id (k ∷ ks) s known = elim (Bool-cases (allows id (run_call c u g k s).1)) [
    | inl yes_allow ↦ absurd (known (run_call-allows k id s yes_allow).0)
    | inr refused ↦ rw refused (
        ground
          (arith, run_calls-known id ks (run_call c u g k s).0 (run_call-IsKnown k id s known)))
  ]

  at_most_one :
      (id : Str) (ks : List Call) (s : ArmStores) → allowed_count id (run_calls c u g ks s) ≤ 1
  unfolding run_calls allowed_count
  at_most_one id [] s = omega arith
  at_most_one id (k ∷ ks) s = elim (Bool-cases (allows id (run_call c u g k s).1)) [
    | inl allowed ↦
        rw
          (allowed, run_calls-known id ks (run_call c u g k s).0 (run_call-allows k id s allowed).1)
          (omega arith)
    | inr refused ↦ rw refused (ground (arith, at_most_one id ks (run_call c u g k s).0))
  ]

  -- Over any sequence of executions and token definitions between two resets, whatever the stores
  -- hold at the start, an execution id is allowed at most once; and never, if the store has a record
  -- of it at the start.
  pub run_calls-at_most_once :
      (id : Str) (ks : List Call) (s : ArmStores)
      → (allowed_count id (run_calls c u g ks s) ≤ 1)
        × (IsKnown id s.authority → allowed_count id (run_calls c u g ks s) ≡ 0)
  run_calls-at_most_once id ks s = (at_most_one id ks s, run_calls-known id ks s)
