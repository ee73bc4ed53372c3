-- ===== src/Sidecar/ReceiptQueue/Limits.antt =====
-- sidecar/receipt_persistence_queue.mjs: which configurations are accepted.
use aegisone_core.Prelude.{
  ◌*◌, ◌≤◌, ◌<◌, ◌≡◌, refl, Bool, true, false, some, arith, List, is_empty, Bool-cases, inl, inr,
  ltb, not, ◌&&◌,
}
use aegisone_core.Sidecar.Settings.{
  Setting, absent, natural, text, other, positive_integer, number, or_default,
}
use aegisone_core.Sidecar.ReceiptQueue.Config.{
  QueueConfig, QueueSettings, problems, validate_receipt_persistence_config, note, is_none, as_path,
  as_durability, is_bad_timeout,
}

note-empty :
    {A : Type 0} (b : Bool) (p : A) (ps : List A)
    → is_empty (note b p ps) ≡ true
    → (b ≡ false) × (is_empty ps ≡ true)
note-empty false p ps h = (refl, h)
note-empty true p ps h = ground arith

-- What no problem says of the numbers.
record IsFit (s : QueueSettings) : Type 0 where
  items : positive_integer s.max_items ≡ true
  bytes : positive_integer s.max_bytes ≡ true
  size : positive_integer s.max_batch_size ≡ true
  age : positive_integer s.max_batch_age_ms ≡ true
  timeout : is_bad_timeout s.flush_timeout_ms ≡ false
  size_within : ltb (number s.max_items) (number s.max_batch_size) ≡ false
  bytes_enough : ltb (number s.max_bytes) (number s.max_items * 128) ≡ false

problems-IsFit : (s : QueueSettings) → is_empty (problems s) ≡ true → IsFit s
unfolding problems
problems-IsFit s h =
    let (_, h1) = note-empty (is_none (as_path s.path)) _ _ h in
    let (_, h2) = note-empty (is_none (as_durability s.durability_mode)) _ _ h1 in
    let (items, h3) = note-empty (not (positive_integer s.max_items)) _ _ h2 in
    let (bytes, h4) = note-empty (not (positive_integer s.max_bytes)) _ _ h3 in
    let (size, h5) = note-empty (not (positive_integer s.max_batch_size)) _ _ h4 in
    let (age, h6) = note-empty (not (positive_integer s.max_batch_age_ms)) _ _ h5 in
    let (timeout, h7) = note-empty (is_bad_timeout s.flush_timeout_ms) _ _ h6 in
    let (within, h8) =
      note-empty
        (positive_integer s.max_items
          && positive_integer s.max_batch_size
          && ltb (number s.max_items) (number s.max_batch_size))
        _ _ h7 in
    let (enough, h9) =
      note-empty
        (positive_integer s.max_bytes
          && positive_integer s.max_items
          && ltb (number s.max_bytes) (number s.max_items * 128))
        _ _ h8 in
    record {
      items = ground (arith, items);
      bytes = ground (arith, bytes);
      size = ground (arith, size);
      age = ground (arith, age);
      timeout = timeout;
      size_within = ground (arith, items, size, within);
      bytes_enough = ground (arith, bytes, items, enough);
    }

number_pos : (s : Setting) → positive_integer s ≡ true → 0 < number s
number_pos (natural n) h = ground arith
number_pos absent h = ground arith
number_pos (text t) h = ground arith
number_pos other h = ground arith

timeout_pos : (s : Setting) → is_bad_timeout s ≡ false → 0 < number (or_default s 2000)
timeout_pos absent h = omega arith
timeout_pos (natural n) h = ground arith
timeout_pos (text t) h = ground arith
timeout_pos other h = ground arith

-- An accepted configuration has positive limits, no batch larger than the queue, and at least 128
-- bytes for each receipt.
pub validate-IsBounded :
    (s : QueueSettings) (c : QueueConfig)
    → validate_receipt_persistence_config s ≡ some c
    → (0 < c.max_batch_size)
      × (c.max_batch_size ≤ c.max_items)
      × (c.max_items * 128 ≤ c.max_bytes)
      × (0 < c.max_batch_age_ms)
      × (0 < c.flush_timeout_ms)
unfolding validate_receipt_persistence_config
validate-IsBounded s c h = elim (Bool-cases (is_empty (problems s))) [
  | inr e ↦ ground (arith, e)
  | inl e ↦
      let f = problems-IsFit s e in
      let p1 = number_pos s.max_batch_size f.size in
      let p2 = number_pos s.max_batch_age_ms f.age in
      let p3 = timeout_pos s.flush_timeout_ms f.timeout in
      ground (arith, e, f.size_within, f.bytes_enough, p1, p2, p3)
]
