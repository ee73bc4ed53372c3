-- ===== src/Json/Printing.antt =====
-- The canonical printer of shared/json.ts: it never fails on a well-formed value, and the order in
-- which the fields of an object stand does not show in its text.
use aegisone_core.Prelude.{
  zero, suc, ◌≡◌, ◌≢◌, refl, Str, true, false, List, [], ◌∷◌, some, arith, str_lt-asymm,
  str_lt_trans, str_lt-connex,
}
use aegisone_core.Json.{
  Number, nat, minus, is_safe_integer, Value, null, bool, arr, obj, num, str, Items, nil, cons,
  Fields, end, field, is_well_formed, well_formed_items, well_formed_fields,
}
use aegisone_core.Json.Canonical.{
  serialize_number, decimal, insert_key, bracketed, join, print_pairs, canonicalize_json,
  canonicalize_items, canonicalize_fields,
}

serialize_number-total :
    (n : Number) → is_safe_integer n ≡ true → (t : Str) × (serialize_number n ≡ some t)
unfolding serialize_number
serialize_number-total (nat n) h = (decimal n, rw h)
serialize_number-total (minus zero) h = (_, refl)
serialize_number-total (minus (suc n)) h = (b'-' ∷ decimal (suc n), rw h)

mutual
  unfolding canonicalize_json is_well_formed

  json_total : (v : Value) → is_well_formed v ≡ true → (t : Str) × (canonicalize_json v ≡ some t)
  json_total null h = (_, refl)
  json_total (bool true) h = (_, refl)
  json_total (bool false) h = (_, refl)
  json_total (num n) h = serialize_number-total n h
  json_total (str s) h = (_, refl)
  json_total (arr vs) h = let (ts, e) = items_total vs h in (bracketed b'[' (join ts) b']', rw e)
  json_total (obj fs) h =
      let (m, e) = fields_total fs h in (bracketed b'{' (join (print_pairs m)) b'}', rw e)

  items_total :
      (vs : Items)
      → well_formed_items vs ≡ true
      → (ts : List Str) × (canonicalize_items vs ≡ some ts)
  items_total nil h = ([], refl)
  items_total (cons v vs) h =
      let (t, e) = json_total v (ground arith) in
      let (ts, es) = items_total vs (ground arith) in (t ∷ ts, rw (e, es))

  fields_total :
      (fs : Fields)
      → well_formed_fields fs ≡ true
      → (m : List (Str × Str)) × (canonicalize_fields fs ≡ some m)
  fields_total end h = ([], refl)
  fields_total (field k v fs) h =
      let (t, e) = json_total v (ground arith) in
      let (m, es) = fields_total fs (ground arith) in (insert_key k t m, rw (e, es))

-- A well-formed value has a canonical text.
pub canonicalize_json-total :
    (v : Value) → is_well_formed v ≡ true → (t : Str) × (canonicalize_json v ≡ some t)
canonicalize_json-total v h = json_total v h

-- The sort puts two different keys where they belong, in whichever order they come.
pub insert_key_comm :
    (k t j u : Str) (m : List (Str × Str))
    → k ≢ j
    → insert_key k t (insert_key j u m) ≡ insert_key j u (insert_key k t m)
unfolding insert_key
insert_key_comm k t j u [] ne = ground (arith, str_lt-asymm j k, str_lt-connex j k)
insert_key_comm k t j u ((i, w) ∷ m) ne = ground (
  arith,
  insert_key_comm k t j u m ne,
  str_lt-asymm j k,
  str_lt-connex j k,
  str_lt_trans i j k,
  str_lt_trans i k j,
  str_lt-connex i j,
  str_lt-connex i k,
  str_lt-asymm k j,
)
