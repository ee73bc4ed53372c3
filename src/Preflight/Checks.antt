-- ===== src/Preflight/Checks.antt =====
-- preflight/engine.ts, the checks on single fields: `rejectUnknownKeys`,
-- `rejectReservedFieldsRecursive`, `validateInteger`, `expectString` and `expectBoolean`.
use aegisone_core.Prelude.{
  ℕ, zero, suc, Str, lit, Bool, not, ◌&&◌, ◌||◌, List, [], ◌∷◌, ◌++◌, map, Option, none, some,
  if◌then◌else◌, ltb, leb, ◌==◌, all, length, has_str,
}
use aegisone_core.Json.{
  nat, minus, is_safe_integer, Value, bool, num, str, arr, obj, Items, nil, cons, Fields, end,
  field, keys,
}
use aegisone_core.Json.Lexer.{is_digit}
use aegisone_core.Orbit.Text.{digits_value}
use aegisone_core.Contracts.{
  ReasonCode, non_deterministic_input, schema_validation, type_mismatch, invalid_json_number,
}

-- What a step of the preflight comes to: a value, a reason to refuse, or an error that escapes.
pub data Checked {ℓ} (A : Type ℓ) : Type ℓ where
  ok : A → Checked A
  refused : ReasonCode → Checked A
  thrown : Checked A

infixl 5 ◌>>=◌ ◌>>◌
abbrev pub ◌>>=◌ {ℓ κ} : {A : Type ℓ} {B : Type κ} → Checked A → (A → Checked B) → Checked B
ok a >>= f = f a
refused r >>= f = refused r
thrown >>= f = thrown

abbrev pub ◌>>◌ {ℓ} : {B : Type ℓ} → Checked (Unit {0}) → Checked B → Checked B
m >> k = m >>= λ _. k

-- `if (reason) return reason`.
abbrev pub pass : Option ReasonCode → Checked (Unit {0})
pass none = ok tt
pass (some r) = refused r

-- A value that must be there, or else the reason.
abbrev pub required {ℓ} : {A : Type ℓ} → ReasonCode → Option A → Checked A
required r none = refused r
required r (some a) = ok a

abbrev pub reserved_unsafe_fields : List Str
reserved_unsafe_fields =
    lit "timestamp"
    ∷ lit "time"
    ∷ lit "now"
    ∷ lit "random"
    ∷ lit "eval"
    ∷ lit "exec"
    ∷ lit "shell"
    ∷ lit "command"
    ∷ lit "commands"
    ∷ lit "__proto__"
    ∷ lit "constructor"
    ∷ lit "prototype"
    ∷ lit "nonce"
    ∷ lit "session_id"
    ∷ lit "depends_on"
    ∷ lit "previous_step_id"
    ∷ []

-- The value of an array index: "0", or digits with no zero in front, below 2 ^ 32 - 1.
unfoldable pub array_index : Str → Option ℕ
unfolding digits_value
array_index [] = none
array_index (c ∷ s) =
    let n = digits_value 10 0 (c ∷ s) in
    if all is_digit (c ∷ s)
      && (not (c == b'0') || length s == 0)
      && leb (length s) 9
      && ltb n 4294967295
    then some n
    else none

unfoldable pub insert_index : ℕ → Str → List (ℕ × Str) → List (ℕ × Str)
insert_index n k [] = (n, k) ∷ []
insert_index n k ((m, j) ∷ e) = if ltb m n then (m, j) ∷ insert_index n k e else (n, k) ∷ (m, j) ∷ e

unfoldable pub index_keys : List Str → List (ℕ × Str)
index_keys [] = []
index_keys (k ∷ ks) = elim (array_index k) [
  | none ↦ index_keys ks
  | some n ↦ insert_index n k (index_keys ks)
]

unfoldable pub name_keys : List Str → List Str
name_keys [] = []
name_keys (k ∷ ks) = elim (array_index k) [ none ↦ k ∷ name_keys ks | some n ↦ name_keys ks ]

-- `Object.keys`: array indices in ascending order, then the other keys in insertion order.
unfoldable pub object_keys : Fields → List Str
object_keys fs = map (λ e. e.1) (index_keys (keys fs)) ++ name_keys (keys fs)

unfoldable pub first_unknown : List Str → List Str → Option ReasonCode
first_unknown allowed [] = none
first_unknown allowed (k ∷ ks) =
    if has_str k allowed
    then first_unknown allowed ks
    else if has_str k reserved_unsafe_fields
    then some non_deterministic_input
    else some schema_validation

-- `rejectUnknownKeys`, the allowed keys first; `none` is null.
unfoldable pub reject_unknown_keys : List Str → Fields → Option ReasonCode
reject_unknown_keys allowed root = first_unknown allowed (object_keys root)

abbrev pub or_reason : Option ReasonCode → Option ReasonCode → Option ReasonCode
or_reason none r = r
or_reason (some r) _ = some r

-- `rejectReservedFieldsRecursive`.
unfoldable mutual
  pub reject_reserved : Value → Option ReasonCode
  reject_reserved (arr vs) = reject_reserved_items vs
  reject_reserved (obj fs) = reject_reserved_fields fs
  reject_reserved _ = none

  pub reject_reserved_items : Items → Option ReasonCode
  reject_reserved_items nil = none
  reject_reserved_items (cons v vs) = or_reason (reject_reserved v) (reject_reserved_items vs)

  pub reject_reserved_fields : Fields → Option ReasonCode
  reject_reserved_fields end = none
  reject_reserved_fields (field k v fs) =
      if has_str k reserved_unsafe_fields
      then some non_deterministic_input
      else or_reason (reject_reserved v) (reject_reserved_fields fs)

-- `validateInteger`; an absent field is `none`.
unfoldable pub validate_integer : Option Value → (minimum : ℕ) (allow_zero : Bool) → Checked ℕ
validate_integer (some (num (minus zero))) minimum allow_zero = refused invalid_json_number
validate_integer (some (num (minus (suc n)))) minimum allow_zero =
    if is_safe_integer (minus (suc n)) then refused type_mismatch else refused invalid_json_number
validate_integer (some (num (nat n))) minimum allow_zero =
    if not (is_safe_integer (nat n))
    then refused invalid_json_number
    else if not allow_zero && n == 0
    then refused type_mismatch
    else if ltb n minimum
    then refused invalid_json_number
    else ok n
validate_integer _ minimum allow_zero = refused type_mismatch

-- `expectString`; `none` is null.
abbrev pub expect_string : Option Value → Option Str
expect_string (some (str (c ∷ s))) = some (c ∷ s)
expect_string _ = none

-- `expectBoolean`.
abbrev pub expect_boolean : Option Value → Option Bool
expect_boolean (some (bool b)) = some b
expect_boolean _ = none

-- `isRecord`, with the fields of the record.
abbrev pub as_record : Option Value → Option Fields
as_record (some (obj fs)) = some fs
as_record _ = none

-- The members of an array that is not empty.
abbrev pub as_filled_array : Option Value → Option Items
as_filled_array (some (arr (cons v vs))) = some (cons v vs)
as_filled_array _ = none
