-- ===== src/Js.antt =====
-- The JavaScript standard library where the source uses it on strings: trimming, searching, the
-- bytes of a text, and `Buffer.from(text, "hex")`.
use mathlib.Core.List.{reverse}
use aegisone_core.Prelude.{
  ℕ, ◌+◌, ◌-◌, ◌*◌, ◌/◌, ◌%◌, Str, Bool, true, false, ◌&&◌, ◌||◌, List, [], ◌∷◌, Option, none, some,
  if◌then◌else◌, ltb, leb, ◌==◌,
}

-- White space and line ends, as `trim` and `\s` take them.
abbrev pub is_space : ℕ → Bool
is_space c =
    (leb 9 c && leb c 13)
    || c == 32
    || c == 0xa0
    || c == 0x1680
    || (leb 0x2000 c && leb c 0x200a)
    || c == 0x2028
    || c == 0x2029
    || c == 0x202f
    || c == 0x205f
    || c == 0x3000
    || c == 0xfeff

unfoldable pub trim_start : Str → Str
trim_start [] = []
trim_start (c ∷ s) = elim (is_space c) [ true ↦ trim_start s | false ↦ c ∷ s ]

unfoldable pub trim : Str → Str
unfolding trim_start
trim s = reverse (trim_start (reverse (trim_start s)))

unfoldable pub starts_with : Str → Str → Bool
starts_with [] s = true
starts_with (a ∷ p) [] = false
starts_with (a ∷ p) (b ∷ s) = a == b && starts_with p s

-- `text.includes(pattern)`, the pattern first.
unfoldable pub includes : Str → Str → Bool
unfolding starts_with
includes p [] = starts_with p []
includes p (c ∷ s) = starts_with p (c ∷ s) || includes p s

-- `replace(/\s+/g, " ")`; the flag says that the last unit was a space.
unfoldable pub collapse_spaces : Bool → Str → Str
collapse_spaces b [] = []
collapse_spaces true (c ∷ s) = elim (is_space c) [
  | true ↦ collapse_spaces true s
  | false ↦ c ∷ collapse_spaces false s
]
collapse_spaces false (c ∷ s) = elim (is_space c) [
  | true ↦ 32 ∷ collapse_spaces true s
  | false ↦ c ∷ collapse_spaces false s
]

abbrev encode_unit : ℕ → List ℕ → List ℕ
encode_unit c r =
    if ltb c 128
    then c ∷ r
    else if ltb c 2048
    then (192 + c / 64) ∷ (128 + c % 64) ∷ r
    else (224 + c / 4096) ∷ (128 + c / 64 % 64) ∷ (128 + c % 64) ∷ r

abbrev encode_pair : ℕ → ℕ → List ℕ → List ℕ
encode_pair h l r =
    let p = 0x10000 + (h - 0xd800) * 1024 + (l - 0xdc00) in
    (240 + p / 262144) ∷ (128 + p / 4096 % 64) ∷ (128 + p / 64 % 64) ∷ (128 + p % 64) ∷ r

abbrev pub is_high_surrogate : ℕ → Bool
is_high_surrogate c = leb 0xd800 c && leb c 0xdbff

abbrev pub is_low_surrogate : ℕ → Bool
is_low_surrogate c = leb 0xdc00 c && leb c 0xdfff

-- The UTF-8 bytes of a text; the first argument is a high surrogate that waits for its partner,
-- and one without a partner becomes U+FFFD.
unfoldable pub utf8_from : Option ℕ → Str → List ℕ
utf8_from none [] = []
utf8_from (some h) [] = encode_unit 0xfffd []
utf8_from none (c ∷ s) = elim (is_high_surrogate c) [
  | true ↦ utf8_from (some c) s
  | false ↦ encode_unit (if is_low_surrogate c then 0xfffd else c) (utf8_from none s)
]
utf8_from (some h) (c ∷ s) = elim (is_low_surrogate c) [
  | true ↦ encode_pair h c (utf8_from none s)
  | false ↦ elim (is_high_surrogate c) [
    | true ↦ encode_unit 0xfffd (utf8_from (some c) s)
    | false ↦ encode_unit 0xfffd (encode_unit c (utf8_from none s))
  ]
]

unfoldable pub utf8 : Str → List ℕ
unfolding utf8_from
utf8 = utf8_from none

abbrev hex_unit : ℕ → Option ℕ
hex_unit c =
    if leb b'0' c && leb c b'9'
    then some (c - b'0')
    else if leb b'a' c && leb c b'f'
    then some (c - 87)
    else if leb b'A' c && leb c b'F'
    then some (c - 55)
    else none

abbrev hex_byte : Option ℕ → Option ℕ → List ℕ → List ℕ
hex_byte (some a) (some b) r = (a * 16 + b) ∷ r
hex_byte _ _ r = []

-- `Buffer.from(text, "hex")` stops at the first pair that is not hexadecimal.
unfoldable pub from_hex : Str → List ℕ
from_hex (a ∷ b ∷ s) = hex_byte (hex_unit a) (hex_unit b) (from_hex s)
from_hex _ = []
