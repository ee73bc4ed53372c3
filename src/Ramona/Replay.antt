-- ===== src/Ramona/Replay.antt =====
-- When the replay check of ram0na/engine.ts accepts.
use aegisone_core.Prelude.{
  >>=-eq-some, ◌≡◌, ◌↔◌, Str, Bool, true, false, Option, some, if◌then◌else◌, arith, str_eq,
  str_eq_self, str_eq_iff,
}
use aegisone_core.Json.Canonical.{canonicalize_json}
use aegisone_core.Contracts.{ok_allow, replay_mismatch, receipt_signature_invalid, ReasonCode}
use aegisone_core.Contracts.Receipt.{SignedReceipt, receipt_json}
use aegisone_core.Crypto.{Crypto}
use aegisone_core.Ramona.Receipt.{Signing, verify_receipt_signature, verify_receipt_replay}

-- Both receipts verify, and they have one canonical text.
pub record IsReplayed (c : Crypto) (g : Signing) (stored rerun : SignedReceipt) : Type 0 where
  pub stored_verified : verify_receipt_signature c g stored ≡ some true
  pub rerun_verified : verify_receipt_signature c g rerun ≡ some true
  pub text : Str
  pub stored_text : canonicalize_json (receipt_json stored) ≡ some text
  pub rerun_text : canonicalize_json (receipt_json rerun) ≡ some text

compared : (a b : Str) → (Option (Bool × ReasonCode))
compared a b = some (if str_eq a b then (true, ok_allow) else (false, replay_mismatch))

compared-ok : (a b : Str) → compared a b ≡ some (true, ok_allow) → a ≡ b
unfolding compared
compared-ok a b h = ground (arith, str_eq_iff a b)

second-ok :
    (b : Bool) (o : Option (Bool × ReasonCode))
    → (if b then o else some (false, receipt_signature_invalid)) ≡ some (true, ok_allow)
    → (b ≡ true) × (o ≡ some (true, ok_allow))
second-ok b o h = ground arith

-- The replay check accepts exactly if both receipts pass `verifyReceiptSignature` and have the same
-- canonical text, signatures included.
pub verify_receipt_replay-ok_iff :
    (c : Crypto) (g : Signing) (stored rerun : SignedReceipt)
    → (verify_receipt_replay c g stored rerun ≡ some (true, ok_allow)) ↔ IsReplayed c g stored rerun
unfolding verify_receipt_replay compared
verify_receipt_replay-ok_iff c g stored rerun = (sound, complete)
  where
    sound :
        verify_receipt_replay c g stored rerun ≡ some (true, ok_allow) → IsReplayed c g stored rerun
    sound h =
        let (first, e1, h1) = >>=-eq-some (verify_receipt_signature c g stored) _ h in
        let (first_true, h2) = second-ok first _ h1 in
        let (second, e2, h3) = >>=-eq-some (verify_receipt_signature c g rerun) _ h2 in
        let (second_true, h4) = second-ok second _ h3 in
        let (a, ea, h5) = >>=-eq-some (canonicalize_json (receipt_json stored)) _ h4 in
        let (b, eb, h6) = >>=-eq-some (canonicalize_json (receipt_json rerun)) _ h5 in
        record {
          stored_verified = rw first_true at e1;
          rerun_verified = rw second_true at e2;
          text = b;
          stored_text = rw (compared-ok a b h6) at ea;
          rerun_text = eb;
        }

    complete :
        IsReplayed c g stored rerun → verify_receipt_replay c g stored rerun ≡ some (true, ok_allow)
    complete r =
        rw (r.stored_verified, r.rerun_verified, r.stored_text, r.rerun_text, str_eq_self r.text)
