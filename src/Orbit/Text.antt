-- ===== src/Orbit/Text.antt =====
-- orbit/engine.ts, the text rules: `normalizeSuspiciousText`, `parseIpToken`, `ipv4FromNumber` and
-- `normalizeOrbitText`. The Unicode tables of the platform are a parameter.
use aegisone_core.Prelude.{
  ℕ, zero, suc, ◌+◌, ◌-◌, ◌*◌, ◌/◌, ◌%◌, Str, lit, Bool, false, ◌&&◌, ◌||◌, List, [], ◌∷◌, ◌++◌,
  map, Option, none, some, if◌then◌else◌, ltb, leb, ◌==◌, any, all, take, drop, length, str_eq,
}
use aegisone_core.Js.{trim, collapse_spaces, starts_with}
use aegisone_core.Json.Canonical.{decimal}
use aegisone_core.Json.Lexer.{is_digit, hex_value}

-- `normalize("NFKC")` and `toLowerCase()`.
pub record Unicode : Type 0 where
  pub nfkc : Str → Str
  pub to_lower : Str → Str

abbrev is_lower_hex : ℕ → Bool
is_lower_hex c = is_digit c || (leb b'a' c && leb c b'f')

-- `[a-z0-9]`.
abbrev pub is_word : ℕ → Bool
is_word c = is_digit c || (leb b'a' c && leb c b'z')

-- `normalizeSuspiciousText`.
unfoldable pub normalize_suspicious_text : Unicode → Str → Str
unfolding trim collapse_spaces
normalize_suspicious_text u value = collapse_spaces false (trim (u.to_lower (u.nfkc value)))

-- `ipv4FromNumber` of a number that is not negative.
unfoldable pub ipv4_from_number : ℕ → Option Str
unfolding decimal
ipv4_from_number value =
    if ltb 0xffffffff value
    then none
    else some (
        decimal (value / 16777216 % 256)
        ++ (b'.'
            ∷ (decimal (value / 65536 % 256)
                ++ (b'.' ∷ (decimal (value / 256 % 256) ++ (b'.' ∷ decimal (value % 256)))))))

-- How many of the first `n` units pass the test, up to the first that does not.
unfoldable pub run_length : (ℕ → Bool) → ℕ → Str → ℕ
run_length p zero s = 0
run_length p (suc n) [] = 0
run_length p (suc n) (c ∷ s) = if p c then suc (run_length p n s) else 0

-- The lengths from `hi` down to `lo`, in the order in which a greedy repetition tries them.
unfoldable pub lengths_down : ℕ → ℕ → List ℕ
lengths_down lo zero = []
lengths_down lo (suc hi) = if leb lo (suc hi) then suc hi ∷ lengths_down lo hi else []

abbrev is_dot : Str → Bool
is_dot [] = false
is_dot (c ∷ s) = c == b'.'

abbrev shift : ℕ → List ℕ → List ℕ
shift k ns = map (λ n. k + n) ns

-- `\d{1,3}` of each of the lengths, and then the rest of a dotted group.
unfoldable pub groups_from : (Str → List ℕ) → List ℕ → Str → List ℕ
groups_from rest [] s = []
groups_from rest (k ∷ ks) s =
    (if is_dot (drop k s) then shift (suc k) (rest (drop (suc k) s)) else [])
    ++ groups_from rest ks s

-- The lengths at which `\d{1,3}(?:\.\d{1,3}){n}` matches, in the order of the search.
unfoldable pub dotted_lengths : ℕ → Str → List ℕ
unfolding run_length lengths_down groups_from
dotted_lengths zero s = lengths_down 1 (run_length is_digit 3 s)
dotted_lengths (suc n) s =
    groups_from (dotted_lengths n) (lengths_down 1 (run_length is_digit 3 s)) s

abbrev literal_length : Str → Str → List ℕ
literal_length p s = if starts_with p s then length p ∷ [] else []

abbrev hex_lengths : Str → List ℕ
hex_lengths s =
    if starts_with (lit "0x") s
    then shift 2 (lengths_down 1 (run_length is_lower_hex 8 (drop 2 s)))
    else []

-- The alternatives of the token expression, behind its optional prefix.
unfoldable pub alternatives : Str → List ℕ
unfolding dotted_lengths starts_with
alternatives s =
    hex_lengths s
    ++ (lengths_down 8 (run_length is_digit 10 s)
        ++ (dotted_lengths 3 s
            ++ (literal_length (lit "::1") s ++ literal_length (lit "0:0:0:0:0:0:0:1") s)))

-- The first length that no word unit follows.
unfoldable pub first_bounded : List ℕ → Str → Option ℕ
first_bounded [] s = none
first_bounded (n ∷ ns) s = elim (drop n s) [
  | [] ↦ some n
  | c ∷ r ↦ if is_word c then first_bounded ns s else some n
]

-- The length of the token expression's match at the front, with the optional prefix tried first.
unfoldable pub token_length : Str → Option ℕ
unfolding alternatives first_bounded
token_length s =
    first_bounded
      ((if starts_with (lit "::ffff:") s then shift 7 (alternatives (drop 7 s)) else [])
        ++ alternatives s)
      s

-- `Number.parseInt` of a run of digits.
unfoldable pub digits_value : ℕ → ℕ → Str → ℕ
digits_value base acc [] = acc
digits_value base acc (c ∷ s) = digits_value base (acc * base + hex_value c) s

abbrev is_dotted : Str → Bool
is_dotted s = any (λ n. n == length s) (dotted_lengths 3 s)

-- `parseIpToken`; `none` is null.
unfoldable pub parse_ip_token : Unicode → Str → Option Str
unfolding normalize_suspicious_text ipv4_from_number digits_value dotted_lengths starts_with str_eq
parse_ip_token u token =
    let trimmed = normalize_suspicious_text u token in
    let tail = drop 7 trimmed in
    let hex = drop 2 trimmed in
    if starts_with (lit "::ffff:") trimmed && is_dotted tail
    then some tail
    else if str_eq trimmed (lit "0:0:0:0:0:0:0:1") || str_eq trimmed (lit "::1")
    then some (lit "::1")
    else if starts_with (lit "0x") trimmed
        && all is_lower_hex hex
        && leb 1 (length hex)
        && leb (length hex) 8
    then ipv4_from_number (digits_value 16 0 hex)
    else if all is_digit trimmed && leb 8 (length trimmed) && leb (length trimmed) 10
    then ipv4_from_number (digits_value 10 0 trimmed)
    else none

abbrev or_else : Option Str → Str → Str
or_else none s = s
or_else (some t) s = t

-- The replacement over the text: so many units of a match are still to be passed over, and the
-- flag says that a word unit stands in front.
unfoldable pub replace_tokens : Unicode → ℕ → Bool → Str → Str
unfolding token_length parse_ip_token
replace_tokens u n before [] = []
replace_tokens u (suc n) before (c ∷ s) = replace_tokens u n (is_word c) s
replace_tokens u zero before (c ∷ s) = elim (if before then none else token_length (c ∷ s)) [
  | none ↦ c ∷ replace_tokens u zero (is_word c) s
  | some n ↦
      let token = take n (c ∷ s) in
      or_else (parse_ip_token u token) token ++ replace_tokens u (n - 1) (is_word c) s
]

-- `normalizeOrbitText`.
unfoldable pub normalize_orbit_text : Unicode → Str → Str
unfolding replace_tokens collapse_spaces
normalize_orbit_text u text = replace_tokens u zero false (collapse_spaces false text)
