-- ===== src/Examples/Sidecar/Queue.antt =====
-- The receipt queue at a few receipts.
use aegisone_core.Prelude.{
  ◌+◌, ◌*◌, ◌≤◌, ◌<◌, ◌≡◌, refl, lit, true, List, [], ◌∷◌, none, some, arith, all, length, is_empty,
  str_eq,
}
use aegisone_core.Js.{utf8, utf8_from}
use aegisone_core.Json.{null, bool}
use aegisone_core.Json.Canonical.{canonicalize_json}
use aegisone_core.Sidecar.Settings.{natural, text, absent}
use aegisone_core.Sidecar.ReceiptQueue.Config.{
  QueueConfig, QueueSettings, strict_audit, as_durability, problems,
  validate_receipt_persistence_config,
}
use aegisone_core.Sidecar.ReceiptQueue.{
  Item, Event, ReceiptQueue, accepted, durable, appending, all_rejected, starts, enqueues,
  append_done, append_failed, flush_finishes, new_queue, flush, flush_or_schedule, enqueue_line,
  enqueue, finish_flush, step, run,
}
use aegisone_core.Sidecar.ReceiptQueue.Counted.{IsSound, has_failed}
use aegisone_core.Sidecar.ReceiptQueue.Invariant.{run-new_queue-IsSound}
use aegisone_core.Sidecar.ReceiptQueue.Order.{Serves, pending, run-new_queue-Serves}
use aegisone_core.Sidecar.ReceiptQueue.Drain.{is_durable, rounds-drain}
use aegisone_core.Sidecar.ReceiptQueue.Rounds.{rounds}
use aegisone_core.Sidecar.ReceiptQueue.Failure.{is_refused, append_failed-rejects}
use aegisone_core.Sidecar.ReceiptQueue.Limits.{validate-IsBounded}

abbrev config : QueueConfig
config = record {
  path = lit "r";
  durability_mode = strict_audit;
  max_items = 4;
  max_bytes = 600;
  max_batch_size = 2;
  max_batch_age_ms = 5;
  flush_timeout_ms = 2000;
}

abbrev history : List Event
history =
    starts
    ∷ enqueues null
    ∷ enqueues (bool true)
    ∷ enqueues null
    ∷ append_done 3
    ∷ flush_finishes
    ∷ []

-- Two receipts wait.
abbrev waiting : ReceiptQueue
waiting = (run (starts ∷ enqueues null ∷ []) (new_queue config)).0

abbrev appending_two : ReceiptQueue
appending_two = (run (starts ∷ enqueues null ∷ enqueues (bool true) ∷ []) (new_queue config)).0

abbrev null_line : Item
null_line = record { line = lit "null\n"; byte_length = 5 }

abbrev true_line : Item
true_line = record { line = lit "true\n"; byte_length = 5 }

notices_test :
    (run history (new_queue config)).1
    ≡ accepted null_line
      ∷ accepted true_line
      ∷ accepted null_line
      ∷ durable null_line 3
      ∷ durable true_line 3
      ∷ []
unfolding new_queue flush flush_or_schedule enqueue_line enqueue finish_flush step run utf8
    utf8_from canonicalize_json
notices_test = refl

healthy : waiting.fail_closed ≡ none
unfolding new_queue flush flush_or_schedule enqueue_line enqueue finish_flush step run utf8
    utf8_from canonicalize_json
healthy = refl

fills : 0 < waiting.config.max_batch_size
unfolding new_queue flush flush_or_schedule enqueue_line enqueue finish_flush step run utf8
    utf8_from canonicalize_json
fills = omega arith

in_flight : appending_two.running ≡ appending (null_line ∷ true_line ∷ [])
unfolding new_queue flush flush_or_schedule enqueue_line enqueue finish_flush step run utf8
    utf8_from canonicalize_json
in_flight = refl

run-new_queue-Serves_example :
    Serves [] (run history (new_queue config)).1 (pending (run history (new_queue config)).0)
run-new_queue-Serves_example = run-new_queue-Serves config history

run-new_queue-IsSound_example : IsSound (run history (new_queue config)).0
run-new_queue-IsSound_example = run-new_queue-IsSound config history

rounds-drain_example :
    let (q', ns) = run (rounds 7 (2 * length waiting.queue + 1)) waiting in
    (pending q' ≡ []) × Serves (pending waiting) ns [] × (all is_durable ns ≡ true)
rounds-drain_example =
    rounds-drain 7 waiting (run-new_queue-IsSound config (starts ∷ enqueues null ∷ [])) fills
      healthy

append_failed-rejects_example :
    let (q', ns) = step (append_failed true) appending_two in
    let (q'', later) = run (flush_finishes ∷ enqueues null ∷ []) q' in
    (ns ≡ all_rejected (pending appending_two))
    × (all is_refused later ≡ true)
    × (has_failed q'' ≡ true)
    × (is_empty q''.queue ≡ true)
append_failed-rejects_example =
    append_failed-rejects true (null_line ∷ true_line ∷ []) appending_two
      (flush_finishes ∷ enqueues null ∷ []) in_flight

abbrev settings : QueueSettings
settings = record {
  path = text (lit "r");
  durability_mode = text (lit "strict_audit");
  max_items = natural 4;
  max_bytes = natural 600;
  max_batch_size = natural 2;
  max_batch_age_ms = natural 5;
  flush_timeout_ms = absent;
}

settings_valid : validate_receipt_persistence_config settings ≡ some config
unfolding validate_receipt_persistence_config problems as_durability str_eq
settings_valid = refl

validate-IsBounded_example :
    (0 < config.max_batch_size)
    × (config.max_batch_size ≤ config.max_items)
    × (config.max_items * 128 ≤ config.max_bytes)
    × (0 < config.max_batch_age_ms)
    × (0 < config.flush_timeout_ms)
validate-IsBounded_example = validate-IsBounded settings config settings_valid
