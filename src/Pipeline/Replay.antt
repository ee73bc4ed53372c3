-- ===== src/Pipeline/Replay.antt =====
-- A receipt of audit/node_runtime.ts, checked and replayed.
use aegisone_core.Prelude.{
  ◌≡◌, Str, true, false, some, refl, arith, Option-cases, inl, inr, is_empty, str_eq, if◌then◌else◌,
}
use aegisone_core.Js.{trim}
use aegisone_core.Json.Canonical.{canonicalize_json}
use aegisone_core.Contracts.{ParsedEnvelope, OrbitTrace, ArmTrace, ok_allow, replay_mismatch}
use aegisone_core.Contracts.Receipt.{receipt_json}
use aegisone_core.Crypto.{Crypto}
use aegisone_core.Preflight.{envelope, failure, run_strict_preflight}
use aegisone_core.Orbit.{run_strict_orbit}
use aegisone_core.Orbit.Text.{Unicode}
use aegisone_core.Arm.{ArmStores}
use aegisone_core.Ramona.Receipt.{Signing, verify_receipt_replay}
use aegisone_core.Ramona.Laws.{IsSigner, build_receipt-verified}
use aegisone_core.Pipeline.{
  ExecutionResult, executed, settle, execute_envelope, execute_deterministic_pipeline,
}
use aegisone_core.Pipeline.Step.{execute-Traces}

module _ (c : Crypto) (u : Unicode) (g : Signing) where
  settle-bytes :
      (e : ParsedEnvelope) (orbit : OrbitTrace) (arm : ArmTrace) (s : ArmStores)
      (x : ExecutionResult)
      → (settle c u g e orbit arm s).1 ≡ some (executed x)
      → canonicalize_json (receipt_json x.receipt) ≡ some x.receipt_bytes
  unfolding settle
  settle-bytes e orbit arm s x h = ground arith

  envelope-bytes :
      (e : ParsedEnvelope) (s : ArmStores) (x : ExecutionResult)
      → (execute_envelope c u g e s).1 ≡ some (executed x)
      → canonicalize_json (receipt_json x.receipt) ≡ some x.receipt_bytes
  unfolding execute_envelope
  envelope-bytes e s x h = elim (Option-cases (run_strict_orbit c u e.parsed_input)) [
    | inl stopped ↦ absurd (ground arith)
    | inr (orbit, judged) ↦ settle-bytes e orbit _ _ x (rw (judged, execute_envelope) at h)
  ]

  execute-bytes :
      (raw : Str) (s : ArmStores) (x : ExecutionResult)
      → (execute_deterministic_pipeline c u g raw s).1 ≡ some (executed x)
      → canonicalize_json (receipt_json x.receipt) ≡ some x.receipt_bytes
  unfolding execute_deterministic_pipeline
  execute-bytes raw s x h = elim (Option-cases (run_strict_preflight c raw)) [
    | inl stopped ↦ absurd (ground arith)
    | inr (failure f, e) ↦ absurd (ground arith)
    | inr (envelope p, e) ↦ envelope-bytes p s x (ground arith)
  ]

  -- For the results of any two executions, on any raw inputs and stores: `verifyReceiptReplay` of
  -- their receipts throws nothing and finds no bad signature; it accepts where the receipt bytes of
  -- the results are the same, and else it reports a mismatch. The public key is to verify what the
  -- private key signs, and its PEM text not to be blank.
  pub execute-replays :
      (raw again : Str) (s s' : ArmStores) (x y : ExecutionResult)
      → IsSigner g
      → is_empty (trim g.public_key_pem) ≡ false
      → (execute_deterministic_pipeline c u g raw s).1 ≡ some (executed x)
      → (execute_deterministic_pipeline c u g again s').1 ≡ some (executed y)
      → verify_receipt_replay c g x.receipt y.receipt
        ≡ some (
            if str_eq x.receipt_bytes y.receipt_bytes
            then (true, ok_allow)
            else (false, replay_mismatch))
  unfolding verify_receipt_replay
  execute-replays raw again s s' x y law filled h k =
      let first =
        build_receipt-verified c g _ x.receipt law filled (execute-Traces c u g raw s x h).built in
      let second =
        build_receipt-verified c g _ y.receipt law filled
          (execute-Traces c u g again s' y k).built in
      rw (first, second, execute-bytes raw s x h, execute-bytes again s' y k) refl
