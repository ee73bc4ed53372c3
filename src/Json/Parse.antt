-- ===== src/Json/Parse.antt =====
-- shared/json.ts, the parser: `parseValue`, `parseArray`, `parseObject` and `parseStrictJson`.
-- A call takes one fuel; three for each code unit, and one, are enough.
use aegisone_core.Prelude.{
  ℕ, zero, suc, ◌+◌, ◌*◌, Str, lit, true, false, ◌||◌, List, [], ◌∷◌, Option, none, some,
  if◌then◌else◌, ◌==◌, has_str, str_eq, length,
}
use aegisone_core.Json.{Value, null, bool, num, str, arr, obj, Items, nil, cons, Fields, end, field}
use aegisone_core.Json.Lexer.{
  Result, ok, fail, ◌>>=◌, invalid_json_syntax, duplicate_json_keys, out_of_fuel, skip_whitespace,
  parse_string, parse_number, is_digit,
}

-- What stands behind a prefix, if the text starts with it.
unfoldable pub strip_prefix : Str → Str → Option Str
strip_prefix [] s = some s
strip_prefix (a ∷ p) [] = none
strip_prefix (a ∷ p) (b ∷ s) = if a == b then strip_prefix p s else none

-- What the first code unit makes `parseValue` do.
pub data Lead : Type 0 where
  open_brace open_bracket open_quote numeric : Str → Lead
  word : Value → Str → Lead
  unknown : Lead

abbrev pub or_word : Value → Option Str → Lead → Lead
or_word v none l = l
or_word v (some r) l = word v r

unfoldable pub lead : Str → Lead
unfolding strip_prefix
lead [] = unknown
lead (c ∷ s) =
    if c == b'{'
    then open_brace s
    else if c == b'['
    then open_bracket s
    else if c == 34
    then open_quote (c ∷ s)
    else if c == b'-' || is_digit c
    then numeric (c ∷ s)
    else or_word (bool true) (strip_prefix (lit "true") (c ∷ s)) (
        or_word (bool false) (strip_prefix (lit "false") (c ∷ s))
          (or_word null (strip_prefix (lit "null") (c ∷ s)) unknown))

-- What follows an element: the closing bracket, a comma, or something else.
pub data Separator : Type 0 where
  close comma : Str → Separator
  neither : Separator

unfoldable pub separator : ℕ → Str → Separator
separator closing [] = neither
separator closing (c ∷ s) = if c == closing then close s else if c == b',' then comma s else neither

-- The text behind `closing`, if that is next.
unfoldable pub strip_unit : ℕ → Str → Option Str
strip_unit closing [] = none
strip_unit closing (c ∷ s) = if c == closing then some s else none

-- The branches of `parseValue`, over the calls for an object and an array behind their bracket.
unfoldable pub read_lead : (object array : Str → Result (Value × Str)) → Lead → Result (Value × Str)
read_lead object array (open_brace r) = object (skip_whitespace r)
read_lead object array (open_bracket r) = array (skip_whitespace r)
read_lead object array (open_quote r) = do (t, u) ← parse_string r; ok (str t, u)
read_lead object array (numeric r) = do (n, u) ← parse_number r; ok (num n, u)
read_lead object array (word v r) = ok (v, r)
read_lead object array unknown = fail invalid_json_syntax

-- The start of `parseArray`, over its loop.
unfoldable pub read_array : (Str → Result (Items × Str)) → Str → Option Str → Result (Value × Str)
read_array loop s (some r) = ok (arr nil, r)
read_array loop s none = do (vs, r) ← loop s; ok (arr vs, r)

-- What a round of `parseArray` does behind its element, over the rounds to come.
unfoldable pub after_item : (Str → Result (Items × Str)) → Value → Separator → Result (Items × Str)
after_item loop v (close t) = ok (cons v nil, t)
after_item loop v (comma t) = do (vs, u) ← loop (skip_whitespace t); ok (cons v vs, u)
after_item loop v neither = fail invalid_json_syntax

-- The start of `parseObject`, over its loop.
unfoldable pub read_object : (Str → Result (Fields × Str)) → Str → Option Str → Result (Value × Str)
read_object loop s (some r) = ok (obj end, r)
read_object loop s none = do (fs, r) ← loop s; ok (obj fs, r)

-- What a round of `parseObject` does behind its value, over the rounds to come.
unfoldable pub after_field :
    (Str → Result (Fields × Str)) → Str → Value → Separator → Result (Fields × Str)
after_field loop k v (close t) = ok (field k v end, t)
after_field loop k v (comma t) = do (fs, u) ← loop (skip_whitespace t); ok (field k v fs, u)
after_field loop k v neither = fail invalid_json_syntax

-- The colon of a round of `parseObject`, and the value behind it.
unfoldable pub read_member :
    (Str → Result (Value × Str))
    → (Str → Result (Fields × Str))
    → Str
    → Option Str
    → Result (Fields × Str)
read_member value loop k none = fail invalid_json_syntax
read_member value loop k (some t) = do
  (v, u) ← value t
  after_field loop k v (separator b'}' (skip_whitespace u))

unfoldable mutual
  -- `parseValue`.
  pub parse_value : ℕ → Str → Result (Value × Str)
  parse_value zero s = fail out_of_fuel
  parse_value (suc f) s = read_lead (parse_object f) (parse_array f) (lead (skip_whitespace s))

  -- `parseArray`, behind the bracket and the whitespace after it.
  pub parse_array : ℕ → Str → Result (Value × Str)
  parse_array zero s = fail out_of_fuel
  parse_array (suc f) s = read_array (parse_items f) s (strip_unit b']' s)

  -- The loop of `parseArray`.
  pub parse_items : ℕ → Str → Result (Items × Str)
  parse_items zero s = fail out_of_fuel
  parse_items (suc f) s = do
    (v, r) ← parse_value f s
    after_item (parse_items f) v (separator b']' (skip_whitespace r))

  -- `parseObject`, behind the brace and the whitespace after it.
  pub parse_object : ℕ → Str → Result (Value × Str)
  parse_object zero s = fail out_of_fuel
  parse_object (suc f) s = read_object (parse_fields f []) s (strip_unit b'}' s)

  -- The loop of `parseObject`, with its `seenKeys`.
  pub parse_fields : ℕ → List Str → Str → Result (Fields × Str)
  parse_fields zero seen s = fail out_of_fuel
  parse_fields (suc f) seen s = do
    (k, r) ← parse_string s
    elim (has_str k seen) [
      | true ↦ fail duplicate_json_keys
      | false ↦
          read_member (parse_value f) (parse_fields f (k ∷ seen)) k
            (strip_unit b':' (skip_whitespace r))
    ]

-- The end of `parseStrictJson`: nothing but whitespace may follow the value.
abbrev pub finished : Value → Str → Result Value
finished v [] = ok v
finished v (c ∷ s) = fail invalid_json_syntax

unfoldable pub finish_parse : Result (Value × Str) → Result Value
finish_parse (ok (v, r)) = finished v (skip_whitespace r)
finish_parse (fail e) = fail e

abbrev pub parse_fuel : Str → ℕ
parse_fuel s = 3 * length s + 1

-- `parseStrictJson`.
unfoldable pub parse_strict_json : Str → Result Value
unfolding finish_parse parse_value read_lead read_array after_item read_object after_field
    read_member skip_whitespace lead separator strip_unit parse_string parse_number has_str str_eq
parse_strict_json s = finish_parse (parse_value (parse_fuel s) s)
