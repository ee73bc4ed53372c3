-- ===== src/Json/Progress.antt =====
-- The strict parser of shared/json.ts ends: each step of it reads on, so the fuel suffices.
use aegisone_core.Prelude.{
  ℕ, zero, suc, ◌+◌, ◌-◌, ◌*◌, ◌≤◌, ◌<◌, ◌≡◌, ◌≢◌, refl, Str, lit, true, false, [], ◌∷◌, Option,
  none, some, arith, Option-cases, Bool-cases, inl, inr, length, ◌==◌, ltb,
}
use aegisone_core.Json.{Number, is_safe_integer, Value, null, bool, is_well_formed}
use aegisone_core.Json.Lexer.{
  Result, ok, fail, ◌>>=◌, out_of_fuel, invalid_json_syntax, invalid_json_number, push, is_escape,
  is_hex, is_whitespace, skip_whitespace, Mode, plain, escaped, hex, hex_rest, scan_string,
  decode_string, decoded, parse_string, is_digit, span_digits, match_digits, match_number,
  parse_number, is_fraction,
}
use aegisone_core.Json.Parse.{
  or_word, strip_prefix, Lead, open_brace, open_bracket, open_quote, numeric, word, unknown, lead,
}

-- A result that is not for want of fuel: what it holds satisfies the predicate, and its rest is
-- shorter than the bound.
abbrev pub Reads {ℓ} : {A : Type ℓ} → (A → Type 0) → ℕ → Result (A × Str) → Type 0
Reads P n (ok (a, r)) = P a × (length r < n)
Reads P n (fail e) = e ≢ out_of_fuel

abbrev pub Any {ℓ} : {A : Type ℓ} → A → Type 0
Any _ = Unit {0}

pub length-skip_whitespace : (s : Str) → length (skip_whitespace s) ≤ length s
unfolding skip_whitespace
length-skip_whitespace [] = omega arith
length-skip_whitespace (c ∷ s) = elim (Bool-cases (is_whitespace c)) [
  | inl e ↦ rw (e, skip_whitespace) (omega (arith, length-skip_whitespace s))
  | inr e ↦ rw (e, skip_whitespace) (omega arith)
]

push-Reads : (n c : ℕ) (r : Result (Str × Str)) → Reads Any n r → Reads Any (suc n) (push c r)
push-Reads n c (ok (t, u)) h = (tt, omega arith)
push-Reads n c (fail e) h = h

pub syntax : invalid_json_syntax ≢ out_of_fuel
syntax h = cc

scan_string-Reads : (m : Mode) (s : Str) → Reads Any (length s) (scan_string m s)
unfolding scan_string
scan_string-Reads m [] = syntax
scan_string-Reads plain (c ∷ s) = elim (Bool-cases (c == 34)) [
  | inl e ↦ rw (e, scan_string) (tt, omega arith)
  | inr e ↦
      rw (e, scan_string)
        (elim (Bool-cases (c == 92)) [
          | inl f ↦
              rw f (push-Reads (length s) c (scan_string escaped s) (scan_string-Reads escaped s))
          | inr f ↦ rw f (elim (Bool-cases (ltb c 32)) [
            | inl k ↦ rw k syntax
            | inr k ↦
                rw k (push-Reads (length s) c (scan_string plain s) (scan_string-Reads plain s))
          ])
        ])
]
scan_string-Reads escaped (c ∷ s) = elim (Bool-cases (c == b'u')) [
  | inl e ↦
      rw (e, scan_string)
        (push-Reads (length s) c (scan_string (hex 4) s) (scan_string-Reads (hex 4) s))
  | inr e ↦
      rw (e, scan_string)
        (elim (Bool-cases (is_escape c)) [
          | inl f ↦ rw f (push-Reads (length s) c (scan_string plain s) (scan_string-Reads plain s))
          | inr f ↦ rw f syntax
        ])
]
scan_string-Reads (hex zero) (c ∷ s) = syntax
scan_string-Reads (hex (suc n)) (c ∷ s) = elim (Bool-cases (is_hex c)) [
  | inl e ↦
      rw (e, scan_string)
        (push-Reads (length s) c (scan_string (hex_rest n) s) (scan_string-Reads (hex_rest n) s))
  | inr e ↦ rw (e, scan_string) syntax
]

decoded-Reads : (o : Option Str) (r : Str) (n : ℕ) → length r < n → Reads Any n (decoded o r)
decoded-Reads none r n h = syntax
decoded-Reads (some t) r n h = (tt, h)

module _ {A B : Type 0} (P : A → Type 0) (Q : B → Type 0) where
  -- A step that reads on, and then another.
  pub >>=-Reads :
      (n : ℕ) (m : ℕ) (r : Result (A × Str)) (k : A × Str → Result (B × Str))
      → Reads P n r
      → ((a : A) (s : Str) → P a → length s < n → Reads Q m (k (a, s)))
      → Reads Q m (r >>= k)
  >>=-Reads n m (ok (a, s)) k h next = next a s h.0 h.1
  >>=-Reads n m (fail e) k h next = h

pub parse_string-Reads : (s : Str) → Reads Any (length s) (parse_string s)
unfolding parse_string
parse_string-Reads [] = syntax
parse_string-Reads (c ∷ s) = elim (Bool-cases (c == 34)) [
  | inl e ↦
      rw (e, parse_string)
        (>>=-Reads Any Any (length s) (suc (length s)) (scan_string plain s) _
          (scan_string-Reads plain s)
          (λ t r _ h. decoded-Reads (decode_string plain t) r _ (omega arith)))
  | inr e ↦ rw (e, parse_string) syntax
]

length-span_digits : (acc : ℕ) (s : Str) → length (span_digits acc s).1 ≤ length s
unfolding span_digits
length-span_digits acc [] = omega arith
length-span_digits acc (c ∷ s) = elim (Bool-cases (is_digit c)) [
  | inl e ↦ rw (e, span_digits) (omega (arith, length-span_digits (acc * 10 + (c - b'0')) s))
  | inr e ↦ rw (e, span_digits) (omega arith)
]

length-match_digits :
    (s : Str) {n : ℕ} {r : Str} → match_digits s ≡ some (n, r) → length r < length s
unfolding match_digits
length-match_digits [] h = cc
length-match_digits (c ∷ s) h = ground (arith, length-span_digits (c - b'0') s)

length-match_number :
    (s : Str) {n : Number} {r : Str} → match_number s ≡ some (n, r) → length r < length s
unfolding match_number
length-match_number [] h = cc
length-match_number (c ∷ s) h = elim (Bool-cases (c == b'-')) [
  | inl e ↦ elim (Option-cases (match_digits s)) [
    | inl x ↦ absurd (ground arith)
    | inr ((m, q), x) ↦ ground (arith, length-match_digits s x)
  ]
  | inr e ↦ elim (Option-cases (match_digits (c ∷ s))) [
    | inl x ↦ absurd (ground arith)
    | inr ((m, q), x) ↦ ground (arith, length-match_digits (c ∷ s) x)
  ]
]

abbrev pub IsSafe : Number → Type 0
IsSafe n = is_safe_integer n ≡ true

number : invalid_json_number ≢ out_of_fuel
number h = cc

pub parse_number-Reads : (s : Str) → Reads IsSafe (length s) (parse_number s)
unfolding parse_number
parse_number-Reads s = elim (Option-cases (match_number s)) [
  | inl x ↦ rw (x, parse_number) syntax
  | inr ((n, r), x) ↦
      rw (x, parse_number)
        (elim (Bool-cases (is_fraction r)) [
          | inl e ↦ rw e number
          | inr e ↦ rw e (elim (Bool-cases (is_safe_integer n)) [
            | inl f ↦ rw (f, f) (refl, length-match_number s x)
            | inr f ↦ rw f number
          ])
        ])
]

length-strip_prefix : (p s r : Str) → strip_prefix p s ≡ some r → length s ≡ length p + length r
unfolding strip_prefix
length-strip_prefix [] s r h = ground arith
length-strip_prefix (a ∷ p) [] r h = cc
length-strip_prefix (a ∷ p) (b ∷ s) r h = ground (arith, length-strip_prefix p s r)

-- What a lead leaves to be read, and the value of a word.
abbrev pub LeadsOn : ℕ → Lead → Type 0
LeadsOn n (open_brace r) = length r < n
LeadsOn n (open_bracket r) = length r < n
LeadsOn n (open_quote r) = length r ≤ n
LeadsOn n (numeric r) = length r ≤ n
LeadsOn n (word v r) = (is_well_formed v ≡ true) × (length r < n)
LeadsOn n unknown = Unit {0}

or_word-LeadsOn :
    (v : Value) (p s : Str) (l : Lead)
    → is_well_formed v ≡ true
    → 0 < length p
    → LeadsOn (length s) l
    → LeadsOn (length s) (or_word v (strip_prefix p s) l)
or_word-LeadsOn v p s l good filled h = elim (Option-cases (strip_prefix p s)) [
  | inl x ↦ rw x h
  | inr (r, x) ↦ rw x (good, omega (arith, length-strip_prefix p s r x))
]

pub lead-LeadsOn : (s : Str) → LeadsOn (length s) (lead s)
unfolding lead is_well_formed
lead-LeadsOn [] = tt
lead-LeadsOn (c ∷ s) = ground (
  arith,
  or_word-LeadsOn (bool true) (lit "true") (c ∷ s)
      (or_word (bool false) (strip_prefix (lit "false") (c ∷ s))
        (or_word null (strip_prefix (lit "null") (c ∷ s)) unknown))
      refl (omega arith)
      (or_word-LeadsOn (bool false) (lit "false") (c ∷ s)
        (or_word null (strip_prefix (lit "null") (c ∷ s)) unknown) refl (omega arith)
        (or_word-LeadsOn null (lit "null") (c ∷ s) unknown refl (omega arith) tt)),
)
