-- ===== src/Sidecar/Authority/Claims.antt =====
-- sidecar/auth_authority.mjs: `validateAssertionClaims` and `ROLE_CAPABILITIES`. Numbers are those of
-- the JSON values of this library, so the times are whole.
use aegisone_core.Prelude.{
  ℕ, ◌+◌, Str, lit, Bool, true, false, not, ◌||◌, List, [], ◌∷◌, ◌++◌, map, Option, none, some,
  if◌then◌else◌, ltb, leb, ◌==◌, length, any, all, is_empty, str_eq, has_str, lookup,
}
use aegisone_core.Js.{trim, utf8}
use aegisone_core.Json.{Number, nat, minus, Value, num, str, arr, items_list, Fields, get_field}
use aegisone_core.Sidecar.Authority.Nonces.{is_nonce}

pub data Reason : Type 0 where
  auth_required assertion_key_missing assertion_malformed signature_invalid : Reason
  authz_refused replay claims_missing issuer_invalid audience_invalid nonce_invalid : Reason
  time_invalid expired clock_skew assertion_too_long role_invalid capability_invalid : Reason

pub record Grant : Type 0 where
  pub subject : Str
  pub session_id : Str
  pub nonce : Str
  pub role : Str
  pub capabilities : List Str

pub data Checked : Type 0 where
  accepted : Grant → Checked
  rejected : Reason → Checked
  thrown : Checked

-- `ROLE_CAPABILITIES`.
unfoldable pub role_capabilities : Str → Option (List Str)
role_capabilities role = lookup role (
    (
      lit "ADMIN",
      lit "activate_policy"
          ∷ lit "manage_runtime"
          ∷ lit "export_audit"
          ∷ lit "manage_integrations"
          ∷ lit "manage_users"
          ∷ lit "view_runtime"
          ∷ lit "replay_decisions"
          ∷ lit "inspect_receipts"
          ∷ lit "verify_receipts"
          ∷ lit "view_dashboard"
          ∷ [],
    )
    ∷ (
      lit "OPERATOR",
      lit "view_runtime"
          ∷ lit "replay_decisions"
          ∷ lit "inspect_receipts"
          ∷ lit "verify_receipts"
          ∷ lit "view_dashboard"
          ∷ [],
    )
    ∷ (
      lit "AUDITOR",
      lit "inspect_receipts"
          ∷ lit "verify_receipts"
          ∷ lit "replay_decisions"
          ∷ lit "export_audit"
          ∷ lit "view_dashboard"
          ∷ [],
    )
    ∷ (lit "VIEWER", lit "view_dashboard" ∷ [])
    ∷ [])

-- The names that every object inherits. `ROLE_CAPABILITIES` has a value for them, over which the
-- code cannot iterate.
abbrev inherited : List Str
inherited =
    lit "constructor"
    ∷ lit "__defineGetter__"
    ∷ lit "__defineSetter__"
    ∷ lit "hasOwnProperty"
    ∷ lit "__lookupGetter__"
    ∷ lit "__lookupSetter__"
    ∷ lit "isPrototypeOf"
    ∷ lit "propertyIsEnumerable"
    ∷ lit "toString"
    ∷ lit "valueOf"
    ∷ lit "__proto__"
    ∷ lit "toLocaleString"
    ∷ []

abbrev is_known : Str → Bool
is_known role = elim (role_capabilities role) [ none ↦ has_str role inherited | some cs ↦ true ]

abbrev as_text : Option Value → Option Str
as_text (some (str s)) = some s
as_text _ = none

abbrev pub as_number : Option Value → Option Number
as_number (some (num n)) = some n
as_number _ = none

abbrev pub as_filled : Option Value → List Value
as_filled (some (arr vs)) = items_list vs
as_filled _ = []

-- A string claim, empty where it is missing or blank.
unfoldable pub claim : Str → Fields → Str
unfolding trim
claim key payload = elim (as_text (get_field key payload)) [
  | none ↦ []
  | some s ↦ if is_empty (trim s) then [] else s
]

unfoldable pub trimmed : Value → Str
unfolding trim
trimmed (str s) = trim s
trimmed _ = []

-- `new Set(list)`, in the order of the first occurrences.
unfoldable pub distinct : List Str → List Str
distinct [] = []
distinct (s ∷ ss) = s ∷ drop_same s (distinct ss)
  where
    drop_same : Str → List Str → List Str
    drop_same s [] = []
    drop_same s (t ∷ ts) = if str_eq t s then drop_same s ts else t ∷ drop_same s ts

abbrev pub filled : List Str → List Str
filled [] = []
filled (s ∷ ss) = if is_empty s then filled ss else s ∷ filled ss

abbrev pub capabilities_of : Str → List Str
capabilities_of role = elim (role_capabilities role) [ none ↦ [] | some cs ↦ cs ]

abbrev pub allowed : List Str → List Str
allowed [] = []
allowed (r ∷ rs) = capabilities_of r ++ allowed rs

-- `a <= now` of a claimed time.
abbrev pub is_past : Number → ℕ → Bool
is_past (nat a) now = leb a now
is_past (minus n) now = true

abbrev pub is_skewed : Number → ℕ → Bool
is_skewed (nat a) now = ltb (now + 30000) a || ltb (a + 150000) now
is_skewed (minus n) now = ltb 150000 (now + n)

-- `expires_at - issued_at > 120000`, where `expires_at` is in the future.
abbrev pub is_too_long : Number → Number → Bool
is_too_long (nat e) (nat i) = ltb (i + 120000) e
is_too_long (nat e) (minus n) = ltb 120000 (e + n)
is_too_long (minus e) i = false

abbrev first : List Str → Str
first [] = []
first (s ∷ ss) = s

-- The roles and the capabilities of the claims.
unfoldable pub check_powers : Fields → Checked
check_powers payload =
    let claimed_roles = as_filled (get_field (lit "roles") payload) in
    let claimed_capabilities = as_filled (get_field (lit "capabilities") payload) in
    let roles = filled (distinct (map trimmed claimed_roles)) in
    let asserted = distinct (filled (map trimmed claimed_capabilities)) in
    if is_empty claimed_roles
    then rejected role_invalid
    else if is_empty claimed_capabilities
    then rejected capability_invalid
    else if not (length roles == length claimed_roles) || not (all is_known roles)
    then rejected role_invalid
    else if any (λ r. has_str r inherited) roles
    then thrown
    else if not (length asserted == length claimed_capabilities)
    then rejected capability_invalid
    else if not (all (λ c. has_str c (allowed roles)) asserted)
    then rejected capability_invalid
    else accepted (record {
      subject = claim (lit "subject") payload;
      session_id = claim (lit "session_id") payload;
      nonce = claim (lit "nonce") payload;
      role = first roles;
      capabilities = asserted;
    })

unfoldable pub check_times : Fields → ℕ → Option Number → Option Number → Checked
check_times payload now (some issued_at) (some expires_at) =
    if is_past expires_at now
    then rejected expired
    else if is_skewed issued_at now
    then rejected clock_skew
    else if is_too_long expires_at issued_at
    then rejected assertion_too_long
    else check_powers payload
check_times payload now _ _ = rejected time_invalid

abbrev string_claims : List Str
string_claims = lit "issuer" ∷ lit "audience" ∷ lit "subject" ∷ lit "nonce" ∷ lit "session_id" ∷ []

-- `constantStringEqual`.
abbrev constant_string_equal : Str → Str → Bool
constant_string_equal a b = str_eq (utf8 a) (utf8 b)

-- `validateAssertionClaims`.
unfoldable pub validate_assertion_claims : Fields → ℕ → Checked
validate_assertion_claims payload now =
    if any (λ k. is_empty (claim k payload)) string_claims
    then rejected claims_missing
    else if not (constant_string_equal (claim (lit "issuer") payload) (lit "mnde-desktop"))
    then rejected issuer_invalid
    else if not (constant_string_equal (claim (lit "audience") payload) (lit "mnde-sidecar"))
    then rejected audience_invalid
    else if not (is_nonce (claim (lit "nonce") payload))
    then rejected nonce_invalid
    else check_times payload now (as_number (get_field (lit "issued_at") payload))
        (as_number (get_field (lit "expires_at") payload))
