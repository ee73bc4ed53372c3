-- ===== src/Json.antt =====
-- shared/json.ts, the values: what the strict parser returns and the canonical printer takes.
-- An object's fields stand in insertion order; a number is a safe integer, with the -0 that the
-- parser makes of the token "-0".
pub mod Lexer
pub mod Parse
pub mod Canonical
pub mod Progress
pub mod Total
pub mod Printing
pub mod Reordering
mod Tests
use aegisone_core.Prelude.{
  true, not, ◌&&◌, has_str, ℕ, Str, Bool, List, [], ◌∷◌, Option, none, some, if◌then◌else◌, str_eq,
  ltb,
}

-- `minus n` is -n, so `minus 0` is -0.
pub data Number : Type 0 where
  nat : ℕ → Number
  minus : ℕ → Number

mutual
  pub data Value : Type 0 where
    null : Value
    bool : Bool → Value
    num : Number → Value
    str : Str → Value
    arr : Items → Value
    obj : Fields → Value

  pub data Items : Type 0 where
    nil : Items
    cons : Value → Items → Items

  pub data Fields : Type 0 where
    end : Fields
    field : Str → Value → Fields → Fields

-- 2 ^ 53: what lies below it in size is what `Number.isSafeInteger` accepts.
abbrev pub safe_limit : ℕ
safe_limit = 9007199254740992

abbrev pub is_safe_integer : Number → Bool
is_safe_integer (nat n) = ltb n safe_limit
is_safe_integer (minus n) = ltb n safe_limit

-- `root[key]`; `none` is undefined.
unfoldable pub get_field : Str → Fields → Option Value
get_field k end = none
get_field k (field j v fs) = if str_eq j k then some v else get_field k fs

abbrev pub items_list : Items → List Value
items_list nil = []
items_list (cons v vs) = v ∷ items_list vs

abbrev pub keys : Fields → List Str
keys end = []
keys (field k v fs) = k ∷ keys fs

-- A well-formed value: every number in it is a safe integer, and no object has a key twice.
unfoldable mutual
  pub is_well_formed : Value → Bool
  is_well_formed null = true
  is_well_formed (bool b) = true
  is_well_formed (num n) = is_safe_integer n
  is_well_formed (str s) = true
  is_well_formed (arr vs) = well_formed_items vs
  is_well_formed (obj fs) = well_formed_fields fs

  pub well_formed_items : Items → Bool
  well_formed_items nil = true
  well_formed_items (cons v vs) = is_well_formed v && well_formed_items vs

  pub well_formed_fields : Fields → Bool
  well_formed_fields end = true
  well_formed_fields (field k v fs) =
      is_well_formed v && (not (has_str k (keys fs)) && well_formed_fields fs)
