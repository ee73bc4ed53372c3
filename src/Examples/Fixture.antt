-- ===== src/Examples/Fixture.antt =====
-- A request, stores and platforms for the runs.
use aegisone_core.Prelude.{
  ℕ, ◌+◌, ◌/◌, ◌%◌, ◌==◌, Str, lit, Bool, true, false, List, [], ◌∷◌, ◌++◌, none, some,
}
use aegisone_core.Json.Canonical.{hex_digit}
use aegisone_core.Crypto.{Crypto}
use aegisone_core.Orbit.Text.{Unicode}
use aegisone_core.Ramona.Receipt.{Signing}
use aegisone_core.Arm.{ArmStores}
use aegisone_core.State.{BudgetTokenState}

abbrev pub plain : Unicode
plain = record { nfkc = λ s. s; to_lower = λ s. s }

abbrev checksum : ℕ → List ℕ → ℕ
checksum n [] = n
checksum n (b ∷ bs) = checksum ((n + b) % 256) bs

abbrev hex_text : ℕ → Str
hex_text n = hex_digit (n / 16 % 16) ∷ hex_digit (n % 16) ∷ []

abbrev pub summing : Crypto
summing = record {
  sha256_hex = λ bs. hex_text (checksum 0 bs);
  hmac_sha256_hex = λ k bs. hex_text (checksum (checksum 7 k) bs);
  verify_raw = λ m k s. some true;
}

abbrev is_stamp : List ℕ → Bool
is_stamp (b ∷ []) = b == 171
is_stamp _ = false

abbrev pub stamping : Signing
stamping = record {
  secret = none;
  key_id = none;
  public_key_pem = lit "PEM";
  sign = λ t. some (lit "ab");
  raw_public_key = λ p. some (1 ∷ 2 ∷ []);
  verify_pem = λ m s p. some (is_stamp s);
}

abbrev pub token_state : BudgetTokenState
token_state = record { budget_token = lit "k"; max_budget_cents = 500; consumed_cents = 30 }

abbrev pub stores : ArmStores
stores = record { authority = []; budgets = (lit "k", token_state) ∷ [] }

abbrev pub raw_request : Str
raw_request =
    lit "{\"execution_request\":{\"request_id\":\"r1\",\"submitted_region\":\"eu\",\"actor"
    ++ lit "\":{\"user_id\":\"u\"},\"resources\":{\"gpu_type\":\"a100\",\"gpu_count\":2,\"hours\""
    ++ lit ":3},\"execution\":{\"auto_scale\":false,\"max_scale_multiplier\":1,\"retry_on"
    ++ lit "_fail\":true,\"max_retries\":1},\"tool_calls\":[{\"tool\":\"fit\",\"priority\":1,"
    ++ lit "\"parameters\":{\"rate\":5}}],\"orbit_intent\":{\"orbit_version\":\"2.0\",\"actio"
    ++ lit "n\":\"fit\",\"boundary\":\"b\",\"payload\":{\"tool_calls\":[{\"tool\":\"fit\",\"priori"
    ++ lit "ty\":1,\"parameters\":{\"rate\":5}}]},\"lifecycle_state\":\"ARMED\",\"signatures"
    ++ lit "\":[{\"alg\":\"x\",\"sig\":\"y\"}]},\"release_request\":{\"execution_id\":\"e1\",\"hol"
    ++ lit "d_state\":\"armed\",\"already_consumed\":false},\"runtime_observation\":{\"kil"
    ++ lit "l_switch_active\":false,\"actual_gpu_count\":2,\"actual_hours\":3,\"actual_t"
    ++ lit "otal_cost_cents\":100},\"budget_token\":\"k\"},\"policy_document\":{\"schema_v"
    ++ lit "ersion\":\"s1\",\"policy_version\":\"policy.v1\",\"rules\":{\"max_total_cost_cen"
    ++ lit "ts\":200,\"allow_auto_scale\":false,\"max_gpu_count\":4,\"max_hours\":5,\"requ"
    ++ lit "ire_manual_approval_above_cents\":0,\"max_retry_count\":2}},\"pricing_data"
    ++ lit "\":{\"gpu_hour_cents\":10}}"

-- The same request, with the three sections of the root in another order.
abbrev pub raw_reordered : Str
raw_reordered =
    lit "{\"pricing_data\":{\"gpu_hour_cents\":10},\"policy_document\":{\"schema_versi"
    ++ lit "on\":\"s1\",\"policy_version\":\"policy.v1\",\"rules\":{\"max_total_cost_cents\":"
    ++ lit "200,\"allow_auto_scale\":false,\"max_gpu_count\":4,\"max_hours\":5,\"require_"
    ++ lit "manual_approval_above_cents\":0,\"max_retry_count\":2}},\"execution_reques"
    ++ lit "t\":{\"request_id\":\"r1\",\"submitted_region\":\"eu\",\"actor\":{\"user_id\":\"u\"},"
    ++ lit "\"resources\":{\"gpu_type\":\"a100\",\"gpu_count\":2,\"hours\":3},\"execution\":{\""
    ++ lit "auto_scale\":false,\"max_scale_multiplier\":1,\"retry_on_fail\":true,\"max_r"
    ++ lit "etries\":1},\"tool_calls\":[{\"tool\":\"fit\",\"priority\":1,\"parameters\":{\"rat"
    ++ lit "e\":5}}],\"orbit_intent\":{\"orbit_version\":\"2.0\",\"action\":\"fit\",\"boundary"
    ++ lit "\":\"b\",\"payload\":{\"tool_calls\":[{\"tool\":\"fit\",\"priority\":1,\"parameters\""
    ++ lit ":{\"rate\":5}}]},\"lifecycle_state\":\"ARMED\",\"signatures\":[{\"alg\":\"x\",\"sig"
    ++ lit "\":\"y\"}]},\"release_request\":{\"execution_id\":\"e1\",\"hold_state\":\"armed\",\""
    ++ lit "already_consumed\":false},\"runtime_observation\":{\"kill_switch_active\":f"
    ++ lit "alse,\"actual_gpu_count\":2,\"actual_hours\":3,\"actual_total_cost_cents\":1"
    ++ lit "00},\"budget_token\":\"k\"}}"
