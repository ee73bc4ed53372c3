-- ===== src/Examples/Expected.antt =====
-- What the pipeline makes of the request of the fixture, layer by layer.
use aegisone_core.Prelude.{Str, lit, true, false, [], ◌∷◌, ◌++◌, none, some}
use aegisone_core.Json.{field, end, num, nat}
use aegisone_core.Contracts.{
  CanonicalExecutionInput, ParsedEnvelope, OrbitTrace, ArmTrace, RamonaTrace, allow, ok_allow,
  ok_orbit, ok_arm, ok_ramona,
}
use aegisone_core.Contracts.Receipt.{SignedReceipt}
use aegisone_core.State.{allowed}
use aegisone_core.Arm.{ArmStores}
use aegisone_core.Pipeline.{ExecutionResult}
use aegisone_core.Examples.Fixture.{raw_request, raw_reordered}

abbrev pub canonical_request : Str
canonical_request =
    (lit "{\"execution_request\":{\"actor\":{\"user_id\":\"u\"},\"budget_token\""
      ++ lit ":\"k\",\"execution\":{\"auto_scale\":false,\"max_retries\":1,\"max_sc"
      ++ lit "ale_multiplier\":1,\"retry_on_fail\":true},\"orbit_intent\":{\"act"
      ++ lit "ion\":\"fit\",\"boundary\":\"b\",\"lifecycle_state\":\"ARMED\",\"orbit_v"
      ++ lit "ersion\":\"2.0\",\"payload\":{\"tool_calls\":[{\"parameters\":{\"rate\""
      ++ lit ":5},\"priority\":1,\"tool\":\"fit\"}]},\"signatures\":[{\"alg\":\"x\",\"s"
      ++ lit "ig\":\"y\"}]},\"release_request\":{\"already_consumed\":false,\"exec"
      ++ lit "ution_id\":\"e1\",\"hold_state\":\"armed\"},\"request_id\":\"r1\",\"reso"
      ++ lit "urces\":{\"gpu_count\":2,\"gpu_type\":\"a100\",\"hours\":3},\"runtime_"
      ++ lit "observation\":{\"actual_gpu_count\":2,\"actual_hours\":3,\"actual_"
      ++ lit "total_cost_cents\":100,\"kill_switch_active\":false},\"submitted"
      ++ lit "_region\":\"eu\",\"tool_calls\":[{\"parameters\":{\"rate\":5},\"priori"
      ++ lit "ty\":1,\"tool\":\"fit\"}]},\"policy_document\":{\"policy_version\":\"p"
      ++ lit "olicy.v1\",\"rules\":{\"allow_auto_scale\":false,\"max_gpu_count\":"
      ++ lit "4,\"max_hours\":5,\"max_retry_count\":2,\"max_total_cost_cents\":2"
      ++ lit "00,\"require_manual_approval_above_cents\":0},\"schema_version\""
      ++ lit ":\"s1\"},\"pricing_data\":{\"gpu_hour_cents\":10}}")

abbrev pub request_input : CanonicalExecutionInput
request_input = record {
  execution_request = record {
    request_id = lit "r1";
    submitted_region = lit "eu";
    user_id = lit "u";
    resources = record { gpu_type = lit "a100"; gpu_count = 2; hours = 3 };
    execution = record {
      auto_scale = false;
      max_scale_multiplier = 1;
      retry_on_fail = true;
      max_retries = 1;
    };
    tool_calls =
        record {
          tool = lit "fit";
          priority = 1;
          parameters = some (field (lit "rate") (num (nat 5)) end);
        }
        ∷ [];
    parameters = none;
    orbit_intent = record {
      orbit_version = lit "2.0";
      action = lit "fit";
      boundary = lit "b";
      tool_calls =
          record {
            tool = lit "fit";
            priority = 1;
            parameters = some (field (lit "rate") (num (nat 5)) end);
          }
          ∷ [];
      lifecycle_state = lit "ARMED";
      signatures = record { alg = lit "x"; sig = lit "y" } ∷ [];
    };
    release_request = record {
      execution_id = lit "e1";
      hold_state = lit "armed";
      already_consumed = false;
    };
    runtime_observation = record {
      kill_switch_active = false;
      actual_gpu_count = 2;
      actual_hours = 3;
      actual_total_cost_cents = 100;
    };
    budget_token = some (lit "k");
  };
  policy_document = record {
    schema_version = lit "s1";
    policy_version = lit "policy.v1";
    trust = none;
    rules = record {
      max_total_cost_cents = 200;
      allow_auto_scale = false;
      max_gpu_count = 4;
      max_hours = 5;
      require_manual_approval_above_cents = 0;
      max_retry_count = 2;
    };
  };
  gpu_hour_cents = 10;
}

abbrev pub request_envelope : ParsedEnvelope
request_envelope = record {
  raw_input = raw_request;
  canonical_input = canonical_request;
  request_hash = lit "ca";
  parsed_input = request_input;
  policy_hash = lit "b4";
}

abbrev pub reordered_envelope : ParsedEnvelope
reordered_envelope = record {
  raw_input = raw_reordered;
  canonical_input = canonical_request;
  request_hash = lit "ca";
  parsed_input = request_input;
  policy_hash = lit "b4";
}

abbrev pub orbit_allows : OrbitTrace
orbit_allows = record { decision = allow; reason_code = ok_orbit; validation_hash = lit "ab" }

abbrev pub arm_allows : ArmTrace
arm_allows = record {
  decision = allow;
  reason_code = ok_arm;
  projected_total_cost_cents = 120;
  allowed_cost_cents = 120;
  prevented_cost_cents = 0;
  execution_id = lit "e1";
  budget_token = some (lit "k");
}

abbrev pub ramona_allows : RamonaTrace
ramona_allows = record { decision = allow; reason_code = ok_ramona; runtime_hash = lit "35" }

abbrev pub request_receipt : SignedReceipt
request_receipt = record {
  payload = record {
    canonical_request = canonical_request;
    request_hash = lit "ca";
    decision_output = record {
      decision = allow;
      decision_hash = lit "18";
      request_hash = lit "ca";
      reason_code = ok_allow;
      total_cost_usd = lit "1.20";
      allowed_cost_usd = lit "1.20";
      prevented_cost_usd = lit "0.00";
      policy_version = lit "policy.v1";
      policy_hash = lit "b4";
      execution_id = lit "e1";
      key_set_version = lit "receipt-key-set-v1";
    };
    preflight = record {
      request_hash = lit "ca";
      policy_hash = lit "b4";
      policy_version = lit "policy.v1";
    };
    orbit = orbit_allows;
    arm = arm_allows;
    ramona = ramona_allows;
  };
  signature =
      some record { algorithm = lit "HMAC-SHA256"; key_id = lit "unconfigured"; value = [] };
  verifiable_signature = some record {
    algorithm = lit "ED25519";
    key_id = lit "receipt-ed25519-03";
    public_key_fingerprint = lit "03";
    public_key_pem = lit "PEM";
    value = lit "ab";
  };
}

abbrev pub request_result : ExecutionResult
request_result = record {
  receipt = request_receipt;
  receipt_bytes =
      (lit "{\"canonical_request\":\"{\\\"execution_request\\\":{\\\"actor\\\":{\\\"u"
        ++ lit "ser_id\\\":\\\"u\\\"},\\\"budget_token\\\":\\\"k\\\",\\\"execution\\\":{\\\"auto"
        ++ lit "_scale\\\":false,\\\"max_retries\\\":1,\\\"max_scale_multiplier\\\":1,"
        ++ lit "\\\"retry_on_fail\\\":true},\\\"orbit_intent\\\":{\\\"action\\\":\\\"fit\\\""
        ++ lit ",\\\"boundary\\\":\\\"b\\\",\\\"lifecycle_state\\\":\\\"ARMED\\\",\\\"orbit_ve"
        ++ lit "rsion\\\":\\\"2.0\\\",\\\"payload\\\":{\\\"tool_calls\\\":[{\\\"parameters\\\""
        ++ lit ":{\\\"rate\\\":5},\\\"priority\\\":1,\\\"tool\\\":\\\"fit\\\"}]},\\\"signature"
        ++ lit
            "s\\\":[{\\\"alg\\\":\\\"x\\\",\\\"sig\\\":\\\"y\\\"}]},\\\"release_request\\\":{\\\""
        ++ lit "already_consumed\\\":false,\\\"execution_id\\\":\\\"e1\\\",\\\"hold_stat"
        ++ lit "e\\\":\\\"armed\\\"},\\\"request_id\\\":\\\"r1\\\",\\\"resources\\\":{\\\"gpu_co"
        ++ lit "unt\\\":2,\\\"gpu_type\\\":\\\"a100\\\",\\\"hours\\\":3},\\\"runtime_observa"
        ++ lit "tion\\\":{\\\"actual_gpu_count\\\":2,\\\"actual_hours\\\":3,\\\"actual_t"
        ++ lit "otal_cost_cents\\\":100,\\\"kill_switch_active\\\":false},\\\"submit"
        ++ lit "ted_region\\\":\\\"eu\\\",\\\"tool_calls\\\":[{\\\"parameters\\\":{\\\"rate\\"
        ++ lit "\":5},\\\"priority\\\":1,\\\"tool\\\":\\\"fit\\\"}]},\\\"policy_document\\\":"
        ++ lit "{\\\"policy_version\\\":\\\"policy.v1\\\",\\\"rules\\\":{\\\"allow_auto_sc"
        ++ lit "ale\\\":false,\\\"max_gpu_count\\\":4,\\\"max_hours\\\":5,\\\"max_retry_"
        ++ lit "count\\\":2,\\\"max_total_cost_cents\\\":200,\\\"require_manual_appr"
        ++ lit "oval_above_cents\\\":0},\\\"schema_version\\\":\\\"s1\\\"},\\\"pricing_d"
        ++ lit "ata\\\":{\\\"gpu_hour_cents\\\":10}}\",\"decision_output\":{\"allowed_"
        ++ lit "cost_usd\":\"1.20\",\"decision\":\"ALLOW\",\"decision_hash\":\"18\",\"ex"
        ++ lit "ecution_id\":\"e1\",\"key_set_version\":\"receipt-key-set-v1\",\"pol"
        ++ lit "icy_hash\":\"b4\",\"policy_version\":\"policy.v1\",\"prevented_cost_"
        ++ lit "usd\":\"0.00\",\"reason_code\":\"OK_ALLOW\",\"request_hash\":\"ca\",\"to"
        ++ lit "tal_cost_usd\":\"1.20\"},\"pipeline_trace\":{\"arm\":{\"allowed_cost"
        ++ lit "_cents\":120,\"budget_token\":\"k\",\"decision\":\"ALLOW\",\"execution"
        ++ lit "_id\":\"e1\",\"layer\":\"arm\",\"prevented_cost_cents\":0,\"projected_"
        ++ lit "total_cost_cents\":120,\"reason_code\":\"OK_ARM\"},\"orbit\":{\"deci"
        ++ lit "sion\":\"ALLOW\",\"layer\":\"orbit\",\"reason_code\":\"OK_ORBIT\",\"vali"
        ++ lit "dation_hash\":\"ab\"},\"preflight\":{\"layer\":\"preflight\",\"policy_"
        ++ lit "hash\":\"b4\",\"policy_version\":\"policy.v1\",\"request_hash\":\"ca\"}"
        ++ lit ",\"ramona\":{\"decision\":\"ALLOW\",\"layer\":\"ramona\",\"reason_code\""
        ++ lit ":\"OK_RAM0NA\",\"runtime_hash\":\"35\"}},\"request_hash\":\"ca\",\"sche"
        ++ lit "ma_version\":\"ecs.receipt.v2\",\"signature\":{\"algorithm\":\"HMAC-"
        ++ lit "SHA256\",\"key_id\":\"unconfigured\",\"value\":\"\"},\"verifiable_sign"
        ++ lit "ature\":{\"algorithm\":\"ED25519\",\"key_id\":\"receipt-ed25519-03\","
        ++ lit "\"public_key_fingerprint\":\"03\",\"public_key_pem\":\"PEM\",\"value\""
        ++ lit ":\"ab\"}}");
}

abbrev pub stores_after : ArmStores
stores_after = record {
  authority =
      (
        lit "e1",
        record {
          execution_id = lit "e1";
          status = allowed;
          request_hash = lit "ca";
          decision_hash = some (lit "18");
        },
      )
      ∷ [];
  budgets =
      (lit "k", record { budget_token = lit "k"; max_budget_cents = 500; consumed_cents = 150 })
      ∷ [];
}
