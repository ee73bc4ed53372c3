-- ===== src/Sidecar/ReceiptQueue/Config.antt =====
-- sidecar/receipt_persistence_queue.mjs: `validateReceiptPersistenceConfig` and
-- `SystemSaturationController`.
use aegisone_core.Prelude.{
  ℕ, ◌*◌, Str, lit, Bool, true, false, not, ◌&&◌, ◌||◌, List, [], ◌∷◌, Option, none, some,
  if◌then◌else◌, ltb, leb, str_eq, is_empty,
}
use aegisone_core.Sidecar.Settings.{Setting, absent, text, positive_integer, or_default, number}

pub data Durability : Type 0 where
  strict_audit throughput : Durability

pub record QueueConfig : Type 0 where
  pub path : Str
  pub durability_mode : Durability
  pub max_items : ℕ
  pub max_bytes : ℕ
  pub max_batch_size : ℕ
  pub max_batch_age_ms : ℕ
  pub flush_timeout_ms : ℕ

-- The object that is validated.
pub record QueueSettings : Type 0 where
  pub path : Setting
  pub durability_mode : Setting
  pub max_items : Setting
  pub max_bytes : Setting
  pub max_batch_size : Setting
  pub max_batch_age_ms : Setting
  pub flush_timeout_ms : Setting

abbrev pub as_path : Setting → Option Str
as_path (text (c ∷ s)) = some (c ∷ s)
as_path _ = none

unfoldable pub as_durability : Setting → Option Durability
as_durability (text s) =
    if str_eq s (lit "strict_audit")
    then some strict_audit
    else if str_eq s (lit "throughput")
    then some throughput
    else none
as_durability _ = none

pub data Problem : Type 0 where
  bad_path bad_durability bad_max_items bad_max_bytes bad_batch_size bad_batch_age : Problem
  bad_flush_timeout batch_exceeds_items bytes_too_small : Problem

abbrev pub note {ℓ} : {A : Type ℓ} → Bool → A → List A → List A
note true p ps = p ∷ ps
note false p ps = ps

abbrev pub is_none {ℓ} : {A : Type ℓ} → Option A → Bool
is_none none = true
is_none (some a) = false

abbrev pub is_bad_timeout : Setting → Bool
is_bad_timeout absent = false
is_bad_timeout s = not (positive_integer s)

-- The problems, in the order in which the code finds them.
unfoldable pub problems : QueueSettings → List Problem
problems c = note (is_none (as_path c.path)) bad_path (
    note (is_none (as_durability c.durability_mode)) bad_durability (
      note (not (positive_integer c.max_items)) bad_max_items (
        note (not (positive_integer c.max_bytes)) bad_max_bytes (
          note (not (positive_integer c.max_batch_size)) bad_batch_size (
            note (not (positive_integer c.max_batch_age_ms)) bad_batch_age (
              note (is_bad_timeout c.flush_timeout_ms) bad_flush_timeout (
                note
                  (positive_integer c.max_items
                    && positive_integer c.max_batch_size
                    && ltb (number c.max_items) (number c.max_batch_size))
                  batch_exceeds_items
                  (note
                    (positive_integer c.max_bytes
                      && positive_integer c.max_items
                      && ltb (number c.max_bytes) (number c.max_items * 128))
                    bytes_too_small []))))))))

abbrev pub text_or_empty : Option Str → Str
text_or_empty none = []
text_or_empty (some s) = s

abbrev pub mode_or_strict : Option Durability → Durability
mode_or_strict none = strict_audit
mode_or_strict (some d) = d

-- `validateReceiptPersistenceConfig`; `none` is the error that lists the problems.
unfoldable pub validate_receipt_persistence_config : QueueSettings → Option QueueConfig
validate_receipt_persistence_config c =
    if is_empty (problems c)
    then some (record {
      path = text_or_empty (as_path c.path);
      durability_mode = mode_or_strict (as_durability c.durability_mode);
      max_items = number c.max_items;
      max_bytes = number c.max_bytes;
      max_batch_size = number c.max_batch_size;
      max_batch_age_ms = number c.max_batch_age_ms;
      flush_timeout_ms = number (or_default c.flush_timeout_ms 2000);
    })
    else none

-- The configuration of `SystemSaturationController`.
pub record SaturationConfig : Type 0 where
  pub max_inflight : ℕ
  pub inflight_shed_threshold : ℕ
  pub max_event_loop_lag_ms : ℕ
  pub queue_high_watermark_items : ℕ
  pub queue_high_watermark_bytes : ℕ

pub record SaturationSettings : Type 0 where
  pub max_inflight : Setting
  pub inflight_shed_threshold : Setting
  pub max_event_loop_lag_ms : Setting
  pub queue_high_watermark_items : Setting
  pub queue_high_watermark_bytes : Setting

-- `constructor` of `SystemSaturationController`; `none` is its error.
unfoldable pub saturation_controller : SaturationSettings → Option SaturationConfig
saturation_controller c =
    if positive_integer c.max_inflight
      && positive_integer c.inflight_shed_threshold
      && leb (number c.inflight_shed_threshold) (number c.max_inflight)
      && positive_integer c.max_event_loop_lag_ms
      && positive_integer c.queue_high_watermark_items
      && positive_integer c.queue_high_watermark_bytes
    then some (record {
      max_inflight = number c.max_inflight;
      inflight_shed_threshold = number c.inflight_shed_threshold;
      max_event_loop_lag_ms = number c.max_event_loop_lag_ms;
      queue_high_watermark_items = number c.queue_high_watermark_items;
      queue_high_watermark_bytes = number c.queue_high_watermark_bytes;
    })
    else none

pub record LoadSnapshot : Type 0 where
  pub inflight : ℕ
  pub event_loop_lag_ms : ℕ
  pub queue_depth : ℕ
  pub queue_bytes : ℕ

pub data SaturationSignal : Type 0 where
  inflight event_loop_lag receipt_queue_depth receipt_queue_bytes : SaturationSignal

-- `shouldRefuse`; `none` is `ok`.
unfoldable pub should_refuse : SaturationConfig → LoadSnapshot → Option SaturationSignal
should_refuse c s =
    if leb c.inflight_shed_threshold s.inflight || leb c.max_inflight s.inflight
    then some inflight
    else if ltb c.max_event_loop_lag_ms s.event_loop_lag_ms
    then some event_loop_lag
    else if ltb c.queue_high_watermark_items s.queue_depth
    then some receipt_queue_depth
    else if ltb c.queue_high_watermark_bytes s.queue_bytes
    then some receipt_queue_bytes
    else none
