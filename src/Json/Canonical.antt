-- ===== src/Json/Canonical.antt =====
-- shared/json.ts, the printer: `serializeNumber` and `canonicalizeJson`, with `JSON.stringify` of a
-- string and the decimal digits of a number. `none` is the error that `serializeNumber` throws.
use aegisone_core.Prelude.{
  ◌>>=◌, ℕ, zero, suc, ◌+◌, ◌/◌, ◌%◌, Str, lit, Bool, true, false, ◌&&◌, ◌||◌, List, [], ◌∷◌, ◌++◌,
  Option, none, some, if◌then◌else◌, ltb, leb, ◌==◌, str_lt,
}
use aegisone_core.Json.{
  Number, nat, minus, is_safe_integer, Value, null, bool, num, str, arr, obj, Items, nil, cons,
  Fields, end, field,
}

abbrev pub hex_digit : ℕ → ℕ
hex_digit n = if ltb n 10 then b'0' + n else 87 + n

-- `\u` and the four digits of a code unit.
abbrev unicode_escape : ℕ → Str → Str
unicode_escape c s =
    92
    ∷ b'u'
    ∷ hex_digit (c / 4096)
    ∷ hex_digit (c / 256 % 16)
    ∷ hex_digit (c / 16 % 16)
    ∷ hex_digit (c % 16)
    ∷ s

abbrev is_high : ℕ → Bool
is_high c = leb 0xd800 c && leb c 0xdbff

abbrev is_low : ℕ → Bool
is_low c = leb 0xdc00 c && leb c 0xdfff

-- One code unit that is no surrogate, in front of the rest.
unfoldable pub quote_unit : ℕ → Str → Str
quote_unit c s =
    if c == 34 || c == 92
    then 92 ∷ c ∷ s
    else if c == 8
    then 92 ∷ b'b' ∷ s
    else if c == 12
    then 92 ∷ b'f' ∷ s
    else if c == 10
    then 92 ∷ b'n' ∷ s
    else if c == 13
    then 92 ∷ b'r' ∷ s
    else if c == 9
    then 92 ∷ b't' ∷ s
    else if ltb c 32
    then unicode_escape c s
    else c ∷ s

-- The inside of `JSON.stringify` of a string. The first argument is a high surrogate that waits
-- for its low one; a surrogate without its partner is escaped.
unfoldable pub quote_from : Option ℕ → Str → Str
unfolding quote_unit
quote_from none [] = []
quote_from (some h) [] = unicode_escape h []
quote_from none (c ∷ s) = elim (is_high c) [
  | true ↦ quote_from (some c) s
  | false ↦
      let rest = quote_from none s in if is_low c then unicode_escape c rest else quote_unit c rest
]
quote_from (some h) (c ∷ s) = elim (is_low c) [
  | true ↦ h ∷ c ∷ quote_from none s
  | false ↦ elim (is_high c) [
    | true ↦ unicode_escape h (quote_from (some c) s)
    | false ↦ unicode_escape h (quote_unit c (quote_from none s))
  ]
]

-- `JSON.stringify` of a string.
unfoldable pub quote : Str → Str
unfolding quote_from
quote s = 34 ∷ (quote_from none s ++ 34 ∷ [])

-- The decimal digits of a number, as many as the fuel allows, in front of what follows.
unfoldable pub digits_from : ℕ → ℕ → Str → Str
digits_from zero n s = s
digits_from (suc f) n s =
    let more = digits_from f (n / 10) ((b'0' + n % 10) ∷ s) in
    if ltb n 10 then (b'0' + n) ∷ s else more

-- The source prints safe integers alone, and sixteen digits are enough for each.
unfoldable pub decimal : ℕ → Str
unfolding digits_from
decimal n = digits_from 16 n []

-- `serializeNumber`.
unfoldable pub serialize_number : Number → Option Str
unfolding decimal
serialize_number (nat n) = if is_safe_integer (nat n) then some (decimal n) else none
serialize_number (minus zero) = some (lit "0")
serialize_number (minus (suc n)) =
    if is_safe_integer (minus (suc n)) then some (b'-' ∷ decimal (suc n)) else none

-- `keys.sort()`, over the keys with their printed values: insertion by code units.
unfoldable pub insert_key : Str → Str → List (Str × Str) → List (Str × Str)
insert_key k t [] = (k, t) ∷ []
insert_key k t ((j, u) ∷ m) = if str_lt j k then (j, u) ∷ insert_key k t m else (k, t) ∷ (j, u) ∷ m

-- `join(",")`.
unfoldable pub join : List Str → Str
join [] = []
join (t ∷ []) = t
join (t ∷ u ∷ ts) = t ++ (b',' ∷ join (u ∷ ts))

-- The pairs of an object, each a quoted key, a colon and a printed value.
unfoldable pub print_pairs : List (Str × Str) → List Str
unfolding quote
print_pairs [] = []
print_pairs ((k, t) ∷ m) = (quote k ++ (b':' ∷ t)) ∷ print_pairs m

abbrev pub bracketed : ℕ → Str → ℕ → Str
bracketed open_unit s close_unit = open_unit ∷ (s ++ close_unit ∷ [])

unfoldable mutual
  -- `canonicalizeJson`.
  pub canonicalize_json : Value → Option Str
  canonicalize_json null = some (lit "null")
  canonicalize_json (bool true) = some (lit "true")
  canonicalize_json (bool false) = some (lit "false")
  canonicalize_json (num n) = serialize_number n
  canonicalize_json (str s) = some (quote s)
  canonicalize_json (arr vs) = do ts ← canonicalize_items vs; some (bracketed b'[' (join ts) b']')
  canonicalize_json (obj fs) = do
    m ← canonicalize_fields fs
    some (bracketed b'{' (join (print_pairs m)) b'}')

  -- `value.map(canonicalizeJson)`.
  pub canonicalize_items : Items → Option (List Str)
  canonicalize_items nil = some []
  canonicalize_items (cons v vs) = do
    t ← canonicalize_json v
    ts ← canonicalize_items vs
    some (t ∷ ts)

  -- The keys in sorted order, each with the text of its value.
  pub canonicalize_fields : Fields → Option (List (Str × Str))
  canonicalize_fields end = some []
  canonicalize_fields (field k v fs) = do
    t ← canonicalize_json v
    m ← canonicalize_fields fs
    some (insert_key k t m)
