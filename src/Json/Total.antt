-- ===== src/Json/Total.antt =====
-- `parseStrictJson` of shared/json.ts is total on its fuel, and what it accepts is well-formed.
use aegisone_core.Prelude.{
  ℕ, zero, suc, ◌+◌, ◌*◌, ◌≤◌, ◌<◌, ◌≡◌, ◌≢◌, refl, ◌⊎◌, Str, true, false, not, List, [], ◌∷◌, some,
  arith, Option-cases, Bool-cases, inl, inr, length, has_str, str_eq_iff, all,
}
use aegisone_core.Json.{
  Value, Items, Fields, keys, is_well_formed, well_formed_items, well_formed_fields,
}
use aegisone_core.Json.Lexer.{
  Result, ok, fail, out_of_fuel, invalid_json_syntax, duplicate_json_keys, skip_whitespace,
  parse_string, parse_number,
}
use aegisone_core.Json.Parse.{
  Lead, open_brace, open_bracket, open_quote, numeric, word, unknown, lead, Separator, close, comma,
  neither, separator, strip_unit, read_lead, read_array, after_item, read_object, after_field,
  read_member, finished, finish_parse, parse_value, parse_array, parse_items, parse_object,
  parse_fields, parse_strict_json, parse_fuel,
}
use aegisone_core.Json.Progress.{
  Reads, Any, >>=-Reads, parse_string-Reads, parse_number-Reads, LeadsOn, lead-LeadsOn, IsSafe,
  length-skip_whitespace, syntax,
}

abbrev IsWell : Value → Type 0
IsWell v = is_well_formed v ≡ true

abbrev IsWellItems : Items → Type 0
IsWellItems vs = well_formed_items vs ≡ true

-- Well-formed fields with none of the keys seen before.
abbrev IsWellFields : List Str → Fields → Type 0
IsWellFields seen fs =
    (well_formed_fields fs ≡ true) × (all (λ k. not (has_str k seen)) (keys fs) ≡ true)

Reads-mono {ℓ} :
    {A : Type ℓ} (P : A → Type 0) (n m : ℕ) (r : Result (A × Str))
    → n ≤ m
    → Reads P n r
    → Reads P m r
Reads-mono P n m (ok (a, s)) h (p, l) = (p, omega arith)
Reads-mono P n m (fail e) h p = p

-- The calls that a round makes read on, on every text shorter than the bound.
abbrev ReadsBelow {ℓ} : {A : Type ℓ} → (A → Type 0) → ℕ → (Str → Result (A × Str)) → Type 0
ReadsBelow P n f = (t : Str) → length t < n → Reads P (length t) (f t)

read_lead-Reads :
    (object array : Str → Result (Value × Str)) (n : ℕ) (l : Lead)
    → ReadsBelow IsWell n object
    → ReadsBelow IsWell n array
    → LeadsOn n l
    → Reads IsWell n (read_lead object array l)
unfolding read_lead is_well_formed
read_lead-Reads object array n (open_brace r) ho ha h =
    Reads-mono IsWell (length (skip_whitespace r)) n _ (omega (arith, length-skip_whitespace r))
      (ho (skip_whitespace r) (omega (arith, length-skip_whitespace r)))
read_lead-Reads object array n (open_bracket r) ho ha h =
    Reads-mono IsWell (length (skip_whitespace r)) n _ (omega (arith, length-skip_whitespace r))
      (ha (skip_whitespace r) (omega (arith, length-skip_whitespace r)))
read_lead-Reads object array n (open_quote r) ho ha h =
    >>=-Reads Any IsWell (length r) n (parse_string r) _ (parse_string-Reads r)
      (λ t u _ l. (refl, omega arith))
read_lead-Reads object array n (numeric r) ho ha h =
    >>=-Reads IsSafe IsWell (length r) n (parse_number r) _ (parse_number-Reads r)
      (λ t u p l. (p, omega arith))
read_lead-Reads object array n (word v r) ho ha h = h
read_lead-Reads object array n unknown ho ha h = syntax

length-strip_unit : (c : ℕ) (s r : Str) → strip_unit c s ≡ some r → length r < length s
unfolding strip_unit
length-strip_unit c [] r h = cc
length-strip_unit c (d ∷ s) r h = ground arith

read_array-Reads :
    (loop : Str → Result (Items × Str)) (s : Str)
    → Reads IsWellItems (length s) (loop s)
    → Reads IsWell (length s) (read_array loop s (strip_unit b']' s))
unfolding read_array is_well_formed
read_array-Reads loop s h = elim (Option-cases (strip_unit b']' s)) [
  | inl x ↦
      rw (x, read_array)
        (>>=-Reads IsWellItems IsWell (length s) (length s) (loop s) _ h (λ vs r p l. (p, l)))
  | inr (r, x) ↦ rw (x, read_array) (refl, length-strip_unit b']' s r x)
]

read_object-Reads :
    (loop : Str → Result (Fields × Str)) (s : Str)
    → Reads (IsWellFields []) (length s) (loop s)
    → Reads IsWell (length s) (read_object loop s (strip_unit b'}' s))
unfolding read_object is_well_formed
read_object-Reads loop s h = elim (Option-cases (strip_unit b'}' s)) [
  | inl x ↦
      rw (x, read_object)
        (>>=-Reads (IsWellFields []) IsWell (length s) (length s) (loop s) _ h
          (λ fs r p l. (p.0, l)))
  | inr (r, x) ↦ rw (x, read_object) (refl, length-strip_unit b'}' s r x)
]

abbrev SeparatesOn : ℕ → Separator → Type 0
SeparatesOn n (close t) = length t < n
SeparatesOn n (comma t) = length t < n
SeparatesOn n neither = Unit {0}

separator-SeparatesOn : (c : ℕ) (s : Str) → SeparatesOn (length s) (separator c s)
unfolding separator
separator-SeparatesOn c [] = tt
separator-SeparatesOn c (d ∷ s) = ground arith

after_item-Reads :
    (loop : Str → Result (Items × Str)) (v : Value) (n m : ℕ) (p : Separator)
    → IsWell v
    → n < m
    → ReadsBelow IsWellItems n loop
    → SeparatesOn n p
    → Reads IsWellItems m (after_item loop v p)
unfolding after_item is_well_formed
after_item-Reads loop v n m (close t) w lt hl h = (ground arith, omega arith)
after_item-Reads loop v n m (comma t) w lt hl h =
    >>=-Reads IsWellItems IsWellItems (length (skip_whitespace t)) m (loop (skip_whitespace t)) _
      (hl (skip_whitespace t) (omega (arith, length-skip_whitespace t)))
      (λ vs r q l. (ground arith, omega (arith, length-skip_whitespace t)))
after_item-Reads loop v n m neither w lt hl h = syntax

-- Keys that are not among `k` and the seen ones are not `k`, and not seen.
fresh_keys :
    (k : Str) (seen js : List Str)
    → all (λ j. not (has_str j (k ∷ seen))) js ≡ true
    → (has_str k js ≡ false) × (all (λ j. not (has_str j seen)) js ≡ true)
unfolding has_str
fresh_keys k seen [] h = (refl, refl)
fresh_keys k seen (j ∷ js) h = ground (arith, fresh_keys k seen js, str_eq_iff j k, str_eq_iff k j)

after_field-Reads :
    (loop : Str → Result (Fields × Str)) (k : Str) (v : Value) (seen : List Str) (n m : ℕ)
    (p : Separator)
    → IsWell v
    → has_str k seen ≡ false
    → n < m
    → ReadsBelow (IsWellFields (k ∷ seen)) n loop
    → SeparatesOn n p
    → Reads (IsWellFields seen) m (after_field loop k v p)
unfolding after_field is_well_formed has_str
after_field-Reads loop k v seen n m (close t) w fresh lt hl h =
    ((ground arith, ground arith), omega arith)
after_field-Reads loop k v seen n m (comma t) w fresh lt hl h =
    >>=-Reads (IsWellFields (k ∷ seen)) (IsWellFields seen) (length (skip_whitespace t)) m
      (loop (skip_whitespace t)) _
      (hl (skip_whitespace t) (omega (arith, length-skip_whitespace t)))
      (λ fs r q l. (
        (
          ground (arith, fresh_keys k seen (keys fs) q.1),
          ground (arith, fresh_keys k seen (keys fs) q.1),
        ),
        omega (arith, length-skip_whitespace t),
      ))
after_field-Reads loop k v seen n m neither w fresh lt hl h = syntax

read_member-Reads :
    (value : Str → Result (Value × Str)) (loop : Str → Result (Fields × Str)) (k : Str)
    (seen : List Str) (n m : ℕ) (s : Str)
    → length s < n
    → n ≤ m
    → has_str k seen ≡ false
    → ReadsBelow IsWell n value
    → ReadsBelow (IsWellFields (k ∷ seen)) n loop
    → Reads (IsWellFields seen) m (read_member value loop k (strip_unit b':' s))
unfolding read_member
read_member-Reads value loop k seen n m s short le fresh hv hl =
    elim (Option-cases (strip_unit b':' s)) [
      | inl x ↦ rw (x, read_member) syntax
      | inr (t, x) ↦
          rw (x, read_member)
            (>>=-Reads IsWell (IsWellFields seen) (length t) m (value t) _
              (hv t (omega (arith, length-strip_unit b':' s t x)))
              (λ v u w l.
                after_field-Reads loop k v seen (length (skip_whitespace u)) m
                  (separator b'}' (skip_whitespace u)) w fresh
                  (omega (arith, length-strip_unit b':' s t x, length-skip_whitespace u))
                  (λ y ly.
                    hl y (omega (arith, length-strip_unit b':' s t x, length-skip_whitespace u)))
                  (separator-SeparatesOn b'}' (skip_whitespace u))))
    ]

duplicate : duplicate_json_keys ≢ out_of_fuel
duplicate h = cc

mutual
  unfolding parse_value

  parse_value-Reads :
      (f : ℕ) (s : Str) → 3 * length s < f → Reads IsWell (length s) (parse_value f s)
  parse_value-Reads zero s h = absurd (omega arith)
  parse_value-Reads (suc f) s h =
      Reads-mono IsWell (length (skip_whitespace s)) (length s) _ (length-skip_whitespace s) (
        read_lead-Reads (parse_object f) (parse_array f) (length (skip_whitespace s))
          (lead (skip_whitespace s))
          (λ t lt. parse_object-Reads f t (omega (arith, length-skip_whitespace s)))
          (λ t lt. parse_array-Reads f t (omega (arith, length-skip_whitespace s)))
          (lead-LeadsOn (skip_whitespace s)))

  parse_array-Reads :
      (f : ℕ) (s : Str) → 3 * length s + 2 < f → Reads IsWell (length s) (parse_array f s)
  parse_array-Reads zero s h = absurd (omega arith)
  parse_array-Reads (suc f) s h =
      read_array-Reads (parse_items f) s (parse_items-Reads f s (omega arith))

  parse_items-Reads :
      (f : ℕ) (s : Str) → 3 * length s + 1 < f → Reads IsWellItems (length s) (parse_items f s)
  parse_items-Reads zero s h = absurd (omega arith)
  parse_items-Reads (suc f) s h =
      >>=-Reads IsWell IsWellItems (length s) (length s) (parse_value f s) _
        (parse_value-Reads f s (omega arith))
        (λ v r w l.
          after_item-Reads (parse_items f) v (length (skip_whitespace r)) (length s)
            (separator b']' (skip_whitespace r)) w (omega (arith, length-skip_whitespace r))
            (λ t lt. parse_items-Reads f t (omega (arith, length-skip_whitespace r)))
            (separator-SeparatesOn b']' (skip_whitespace r)))

  parse_object-Reads :
      (f : ℕ) (s : Str) → 3 * length s + 2 < f → Reads IsWell (length s) (parse_object f s)
  parse_object-Reads zero s h = absurd (omega arith)
  parse_object-Reads (suc f) s h =
      read_object-Reads (parse_fields f []) s (parse_fields-Reads f [] s (omega arith))

  parse_fields-Reads :
      (f : ℕ) (seen : List Str) (s : Str)
      → 3 * length s + 1 < f
      → Reads (IsWellFields seen) (length s) (parse_fields f seen s)
  parse_fields-Reads zero seen s h = absurd (omega arith)
  parse_fields-Reads (suc f) seen s h =
      >>=-Reads Any (IsWellFields seen) (length s) (length s) (parse_string s) _
        (parse_string-Reads s)
        (λ k r _ l. elim (Bool-cases (has_str k seen)) [
          | inl x ↦ rw x duplicate
          | inr x ↦ rw x (
              read_member-Reads (parse_value f) (parse_fields f (k ∷ seen)) k seen (length s)
                (length s) (skip_whitespace r) (omega (arith, length-skip_whitespace r))
                (omega arith) x (λ t lt. parse_value-Reads f t (omega arith))
                (λ t lt. parse_fields-Reads f (k ∷ seen) t (omega arith)))
        ])

finished-cases :
    (v : Value) (s : Str) → (finished v s ≡ ok v) ⊎ (finished v s ≡ fail invalid_json_syntax)
finished-cases v [] = inl refl
finished-cases v (c ∷ s) = inr refl

finish_parse-total :
    (n : ℕ) (r : Result (Value × Str))
    → Reads IsWell n r
    → (finish_parse r ≢ fail out_of_fuel)
      × ((v : Value) → finish_parse r ≡ ok v → is_well_formed v ≡ true)
unfolding finish_parse
finish_parse-total n (fail e) h = ((λ x. h (ground arith)), (λ v x. absurd (ground arith)))
finish_parse-total n (ok (w, s)) h = elim (finished-cases w (skip_whitespace s)) [
  | inl x ↦ rw x ((λ y. absurd (ground arith)), (λ v y. ground arith))
  | inr x ↦ rw x ((λ y. absurd (ground arith)), (λ v y. absurd (ground arith)))
]

-- `parseStrictJson` comes to an end on every text: it never runs out of its fuel. A value that it
-- accepts is well-formed: at every depth its numbers are safe integers and its objects have no key
-- twice.
pub parse_strict_json-total :
    (s : Str)
    → (parse_strict_json s ≢ fail out_of_fuel)
      × ((v : Value) → parse_strict_json s ≡ ok v → is_well_formed v ≡ true)
unfolding parse_strict_json
parse_strict_json-total s =
    finish_parse-total (length s) (parse_value (parse_fuel s) s)
      (parse_value-Reads (parse_fuel s) s (omega arith))
