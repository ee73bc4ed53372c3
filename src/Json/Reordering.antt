-- ===== src/Json/Reordering.antt =====
-- The canonical text of shared/json.ts does not depend on the order of an object's fields, at any
-- depth.
use aegisone_core.Prelude.{◌≡◌, ◌≢◌, refl, ◌∙◌, Str, Option-cases, inl, inr}
use aegisone_core.Json.{Value, arr, obj, Items, nil, cons, Fields, end, field}
use aegisone_core.Json.Canonical.{canonicalize_json, canonicalize_items, canonicalize_fields}
use aegisone_core.Json.Printing.{insert_key_comm}

mutual
  -- Two values that differ at most in the order of the fields of their objects.
  pub data Reordered : Value → Value → Type 0 where
    same : {v : Value} → Reordered v v
    in_array : {vs ws : Items} → ReorderedItems vs ws → Reordered (arr vs) (arr ws)
    in_object : {fs gs : Fields} → ReorderedFields fs gs → Reordered (obj fs) (obj gs)

  pub data ReorderedItems : Items → Items → Type 0 where
    no_items : ReorderedItems nil nil
    item :
        {v w : Value} {vs ws : Items}
        → Reordered v w
        → ReorderedItems vs ws
        → ReorderedItems (cons v vs) (cons w ws)

  pub data ReorderedFields : Fields → Fields → Type 0 where
    no_fields : ReorderedFields end end
    member :
        {k : Str} {v w : Value} {fs gs : Fields}
        → Reordered v w
        → ReorderedFields fs gs
        → ReorderedFields (field k v fs) (field k w gs)
    exchange :
        {k j : Str} {v w : Value} {fs : Fields}
        → k ≢ j
        → ReorderedFields (field k v (field j w fs)) (field j w (field k v fs))
    then_also :
        {fs gs hs : Fields} → ReorderedFields fs gs → ReorderedFields gs hs → ReorderedFields fs hs

exchange_fields :
    (k j : Str) (v w : Value) (fs : Fields)
    → k ≢ j
    → canonicalize_fields (field k v (field j w fs))
      ≡ canonicalize_fields (field j w (field k v fs))
unfolding canonicalize_fields
exchange_fields k j v w fs ne = elim (Option-cases (canonicalize_json v)) [
  | inl x ↦ elim (Option-cases (canonicalize_json w)) [ inl y ↦ rw (x, y) | inr (u, y) ↦ rw (x, y) ]
  | inr (t, x) ↦ elim (Option-cases (canonicalize_json w)) [
    | inl y ↦ rw (x, y)
    | inr (u, y) ↦ elim (Option-cases (canonicalize_fields fs)) [
      | inl z ↦ rw (x, y, z)
      | inr (m, z) ↦ rw (x, y, z, insert_key_comm k t j u m ne)
    ]
  ]
]

mutual
  unfolding canonicalize_json

  json-Reordered : {v w : Value} → Reordered v w → canonicalize_json v ≡ canonicalize_json w
  json-Reordered same = refl
  json-Reordered (in_array r) = rw (items_reordered r)
  json-Reordered (in_object r) = rw (fields_reordered r)

  items_reordered :
      {vs ws : Items} → ReorderedItems vs ws → canonicalize_items vs ≡ canonicalize_items ws
  items_reordered no_items = refl
  items_reordered (item r rs) = rw (json-Reordered r, items_reordered rs)

  fields_reordered :
      {fs gs : Fields} → ReorderedFields fs gs → canonicalize_fields fs ≡ canonicalize_fields gs
  fields_reordered no_fields = refl
  fields_reordered (member r rs) = rw (json-Reordered r, fields_reordered rs)
  fields_reordered (exchange {k} {j} {v} {w} {fs} ne) = exchange_fields k j v w fs ne
  fields_reordered (then_also r q) = fields_reordered r ∙ fields_reordered q

-- Values that differ only in the order of the fields of their objects, at any depth, have one
-- canonical text; and where one cannot be printed, the other cannot either.
pub canonicalize_json-Reordered :
    (v w : Value) → Reordered v w → canonicalize_json v ≡ canonicalize_json w
canonicalize_json-Reordered v w r = json-Reordered r
