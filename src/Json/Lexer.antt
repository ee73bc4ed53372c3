-- ===== src/Json/Lexer.antt =====
-- shared/json.ts, below the values: whitespace, string tokens and number tokens. The parser's
-- `source` and `index` are the rest of the text from the index on.
use aegisone_core.Prelude.{
  ℕ, zero, suc, ◌+◌, ◌-◌, ◌*◌, Str, Bool, true, false, ◌&&◌, ◌||◌, [], ◌∷◌, Option, none, some,
  if◌then◌else◌, ltb, leb, ◌==◌,
}
use aegisone_core.Json.{Number, nat, minus, is_safe_integer}

-- `out_of_fuel` is the model's own: the parser's theorems rule it out.
pub data ParseFailure : Type 0 where
  invalid_json_syntax duplicate_json_keys invalid_json_number out_of_fuel : ParseFailure

pub data Result {ℓ} (A : Type ℓ) : Type ℓ where
  ok : A → Result A
  fail : ParseFailure → Result A

infixl 5 ◌>>=◌
abbrev pub ◌>>=◌ {ℓ κ} : {In : Type ℓ} {Out : Type κ} → Result In → (In → Result Out) → Result Out
ok x >>= next = next x
fail e >>= next = fail e

abbrev pub is_whitespace : ℕ → Bool
is_whitespace c = c == 32 || c == 10 || c == 13 || c == 9

unfoldable pub skip_whitespace : Str → Str
skip_whitespace [] = []
skip_whitespace (c ∷ s) = elim (is_whitespace c) [ true ↦ skip_whitespace s | false ↦ c ∷ s ]

abbrev pub is_digit : ℕ → Bool
is_digit c = leb b'0' c && leb c b'9'

abbrev pub is_hex : ℕ → Bool
is_hex c = is_digit c || (leb b'a' c && leb c b'f') || (leb b'A' c && leb c b'F')

abbrev pub hex_value : ℕ → ℕ
hex_value c = if leb c b'9' then c - b'0' else if leb c b'F' then c - 55 else c - 87

-- Where the scan of a string token stands: outside an escape, behind a backslash, or with so
-- many hexadecimal digits to come.
pub data Mode : Type 0 where
  plain escaped : Mode
  hex : ℕ → Mode

abbrev pub hex_rest : ℕ → Mode
hex_rest zero = plain
hex_rest (suc n) = hex (suc n)

abbrev pub is_escape : ℕ → Bool
is_escape c =
    c == 34 || c == 92 || c == b'/' || c == b'b' || c == b'f' || c == b'n' || c == b'r' || c == b't'

abbrev pub push : ℕ → Result (Str × Str) → Result (Str × Str)
push c (ok (t, r)) = ok (c ∷ t, r)
push c (fail e) = fail e

-- The loop of `parseString`, from behind the opening quote: the token between the quotes, and
-- the text behind the closing one.
unfoldable pub scan_string : Mode → Str → Result (Str × Str)
scan_string m [] = fail invalid_json_syntax
scan_string plain (c ∷ s) = elim (c == 34) [
  | true ↦ ok ([], s)
  | false ↦ elim (c == 92) [
    | true ↦ push c (scan_string escaped s)
    | false ↦ elim (ltb c 32) [
      | true ↦ fail invalid_json_syntax
      | false ↦ push c (scan_string plain s)
    ]
  ]
]
scan_string escaped (c ∷ s) = elim (c == b'u') [
  | true ↦ push c (scan_string (hex 4) s)
  | false ↦ elim (is_escape c) [
    | true ↦ push c (scan_string plain s)
    | false ↦ fail invalid_json_syntax
  ]
]
scan_string (hex zero) (c ∷ s) = fail invalid_json_syntax
scan_string (hex (suc n)) (c ∷ s) = elim (is_hex c) [
  | true ↦ push c (scan_string (hex_rest n) s)
  | false ↦ fail invalid_json_syntax
]

abbrev unescape : ℕ → ℕ
unescape c =
    if c == b'b'
    then 8
    else if c == b'f'
    then 12
    else if c == b'n'
    then 10
    else if c == b'r'
    then 13
    else if c == b't'
    then 9
    else c

-- The same places while a token is decoded: the digits to come, and the value so far.
pub data Decoding : Type 0 where
  plain escaped : Decoding
  hex : ℕ → ℕ → Decoding

abbrev pub emit : ℕ → Option Str → Option Str
emit c none = none
emit c (some s) = some (c ∷ s)

-- `JSON.parse` of a string token, given without its quotes; `none` is a SyntaxError.
unfoldable pub decode_string : Decoding → Str → Option Str
decode_string plain [] = some []
decode_string escaped [] = none
decode_string (hex n acc) [] = none
decode_string plain (c ∷ s) = elim (c == 34 || ltb c 32) [
  | true ↦ none
  | false ↦ elim (c == 92) [
    | true ↦ decode_string escaped s
    | false ↦ emit c (decode_string plain s)
  ]
]
decode_string escaped (c ∷ s) = elim (c == b'u') [
  | true ↦ decode_string (hex 4 0) s
  | false ↦ elim (is_escape c) [ true ↦ emit (unescape c) (decode_string plain s) | false ↦ none ]
]
decode_string (hex zero acc) (c ∷ s) = none
decode_string (hex (suc zero) acc) (c ∷ s) = elim (is_hex c) [
  | true ↦ emit (acc * 16 + hex_value c) (decode_string plain s)
  | false ↦ none
]
decode_string (hex (suc (suc n)) acc) (c ∷ s) = elim (is_hex c) [
  | true ↦ decode_string (hex (suc n) (acc * 16 + hex_value c)) s
  | false ↦ none
]

abbrev pub decoded : Option Str → Str → Result (Str × Str)
decoded none r = fail invalid_json_syntax
decoded (some t) r = ok (t, r)

-- `parseString`.
unfoldable pub parse_string : Str → Result (Str × Str)
unfolding scan_string decode_string
parse_string [] = fail invalid_json_syntax
parse_string (c ∷ s) = elim (c == 34) [
  | true ↦ do (token, r) ← scan_string plain s; decoded (decode_string plain token) r
  | false ↦ fail invalid_json_syntax
]

-- The digits at the front, `\d*`, as a number that continues `acc`, and what follows them.
unfoldable pub span_digits : ℕ → Str → ℕ × Str
span_digits acc [] = (acc, [])
span_digits acc (c ∷ s) = elim (is_digit c) [
  | true ↦ span_digits (acc * 10 + (c - b'0')) s
  | false ↦ (acc, c ∷ s)
]

-- `0|[1-9]\d*`: the number that the token stands for, and what follows it.
unfoldable pub match_digits : Str → Option (ℕ × Str)
unfolding span_digits
match_digits [] = none
match_digits (c ∷ s) =
    if c == b'0' then some (0, s) else if is_digit c then some (span_digits (c - b'0') s) else none

-- `-?(0|[1-9]\d*)`.
unfoldable pub match_number : Str → Option (Number × Str)
unfolding match_digits
match_number [] = none
match_number (c ∷ s) =
    if c == b'-'
    then elim (match_digits s) [ none ↦ none | some (n, r) ↦ some (minus n, r) ]
    else elim (match_digits (c ∷ s)) [ none ↦ none | some (n, r) ↦ some (nat n, r) ]

abbrev pub is_fraction : Str → Bool
is_fraction [] = false
is_fraction (c ∷ s) = c == b'.' || c == b'e' || c == b'E'

-- `parseNumber`. `Number(token)` is exact below 2 ^ 53, and no safe integer from there on.
unfoldable pub parse_number : Str → Result (Number × Str)
unfolding match_number
parse_number s = elim (match_number s) [
  | none ↦ fail invalid_json_syntax
  | some (n, r) ↦
      if is_fraction r
      then fail invalid_json_number
      else if is_safe_integer n
      then ok (n, r)
      else fail invalid_json_number
]
