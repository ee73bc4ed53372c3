-- ===== src/Sidecar/Worker.antt =====
-- sidecar/deterministic_worker.mjs: what a worker does with the messages that it gets. The stores of
-- ARM are the worker's own; the ids and the times of a reply, and the reason code of an error reply,
-- are left out.
use aegisone_core.Prelude.{
  Bool, true, false, ℕ, arith, sym, ◌∙◌, Bool-cases, inl, inr, lookup, ◌≡◌, refl, ap, Str, List, [],
  ◌∷◌, map, Option, none, some,
}
use aegisone_core.Crypto.{Crypto}
use aegisone_core.Orbit.Text.{Unicode}
use aegisone_core.Arm.{ArmStores, reset_arm_stores}
use aegisone_core.Ramona.Receipt.{Signing}
use aegisone_core.Arm.Gate.{IsCovered}
use aegisone_core.Contracts.{ParsedEnvelope, allow}
use aegisone_core.Preflight.{Preflight, envelope, run_strict_preflight}
use aegisone_core.Arm.Budget.{is_allow}
use aegisone_core.Pipeline.Authority.{decision_of}
use aegisone_core.Pipeline.Sound.{execute-allow_iff}
use aegisone_core.Pipeline.{
  ExecutionResult, Outcome, executed, failed, execute_deterministic_pipeline,
}

-- `ok: true` with the result, or `ok: false` with the reason code of an error.
pub data Reply : Type 0 where
  result : Outcome → Reply
  runtime_error : Reply

unfoldable pub reply_of : Option Outcome → Reply
reply_of none = runtime_error
reply_of (some o) = result o

-- The stores of a process that has done nothing.
abbrev pub fresh_stores : ArmStores
fresh_stores = record { authority = []; budgets = [] }

-- No token has room in an empty store.
uncovered : (token : Option Str) (cost : ℕ) → IsCovered token cost [] → token ≡ none
unfolding lookup
uncovered none cost h = refl
uncovered (some t) cost (r, found, room) = ground (arith, found)

-- Whether a reply shows a receipt that says ALLOW.
abbrev pub allows : Reply → Bool
allows (result (executed x)) = is_allow (decision_of x)
allows _ = false

allowed_result :
    (o : Option Outcome)
    → allows (reply_of o) ≡ true
    → (x : ExecutionResult) × (o ≡ some (executed x))
      × (x.receipt.payload.decision_output.decision ≡ allow)
unfolding reply_of
allowed_result none h = ground (arith, h)
allowed_result (some (failed f)) h = ground (arith, h)
allowed_result (some (executed x)) h = (x, refl, ground (arith, h))

abbrev token_of : Option Preflight → Option Str
token_of (some (envelope e)) = e.parsed_input.execution_request.budget_token
token_of _ = none

some-ne-none : (t : Str) → ¬ (some t ≡ none)
some-ne-none t h = ground (arith, h)

module _ (c : Crypto) (u : Unicode) (g : Signing) where
  -- The listener of `message`.
  unfoldable pub on_message : Str → ArmStores → ArmStores × Reply
  on_message raw s =
      let (s', outcome) = execute_deterministic_pipeline c u g raw (reset_arm_stores s) in
      (s', reply_of outcome)

  unfoldable pub run_worker : List Str → ArmStores → List Reply
  run_worker [] s = []
  run_worker (raw ∷ raws) s = let (s', reply) = on_message raw s in reply ∷ run_worker raws s'

  -- Each reply of a worker is that of the pipeline on fresh stores: neither the worker's stores at
  -- the start nor the messages before it play a part, so that a message that is repeated gets its
  -- reply again.
  pub run_worker-fresh :
      (raws : List Str) (s : ArmStores)
      → run_worker raws s
        ≡ map (λ raw. reply_of (execute_deterministic_pipeline c u g raw fresh_stores).1) raws
  unfolding run_worker on_message
  run_worker-fresh [] s = refl
  run_worker-fresh (raw ∷ raws) s =
      ap (reply_of (execute_deterministic_pipeline c u g raw fresh_stores).1 ∷◌)
        (run_worker-fresh raws (on_message raw s).0)

  allowed_untokened :
      (raw : Str) (s : ArmStores)
      → allows (on_message raw s).1 ≡ true
      → (e : ParsedEnvelope) × (run_strict_preflight c raw ≡ some (envelope e))
        × (e.parsed_input.execution_request.budget_token ≡ none)
  unfolding on_message
  allowed_untokened raw s h =
      let (x, ran, a) =
        allowed_result (execute_deterministic_pipeline c u g raw fresh_stores).1 h in
      let (e, read, vetted, (to, from)) = execute-allow_iff c u g raw fresh_stores x ran in
      (e, read, uncovered e.parsed_input.execution_request.budget_token _ (to a).covered)

  -- Whatever a worker did before, it allows no accepted input that names a budget token.
  pub on_message-token_refused :
      (raw : Str) (s : ArmStores) (e : ParsedEnvelope) (token : Str)
      → run_strict_preflight c raw ≡ some (envelope e)
      → e.parsed_input.execution_request.budget_token ≡ some token
      → allows (on_message raw s).1 ≡ false
  on_message-token_refused raw s e token read named =
      elim (Bool-cases (allows (on_message raw s).1)) [
        | inr n ↦ n
        | inl y ↦
            let (d, read', none_named) = allowed_untokened raw s y in
            let same = ap token_of (sym read ∙ read') in
            absurd (some-ne-none token (sym named ∙ same ∙ none_named))
      ]
