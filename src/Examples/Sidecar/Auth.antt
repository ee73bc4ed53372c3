-- ===== src/Examples/Sidecar/Auth.antt =====
-- An administrator's assertion.
use aegisone_core.Prelude.{
  ◌≡◌, if◌then◌else◌, refl, Str, lit, true, false, List, [], ◌∷◌, Option, none, some, arith, str_eq,
  has_str, lookup, insert,
}
use aegisone_core.Js.{trim, trim_start, utf8, utf8_from}
use aegisone_core.Json.{
  Value, obj, field, end, str, num, nat, arr, Items, cons, nil, get_field, Fields,
}
use aegisone_core.Sidecar.Authority.Nonces.{
  NonceStore, written, untouched, cut_off, is_nonce, unexpired, read_entries,
  load_persistent_nonces, persist_nonces, cleanup_nonces, add_nonce, reserve_nonce,
}
use aegisone_core.Sidecar.Authority.Claims.{
  Grant, allowed, role_capabilities, claim, trimmed, distinct, check_powers, check_times,
  validate_assertion_claims,
}
use aegisone_core.Sidecar.Authority.{
  Platform, granted, Writes, act_on, spend, split_dots, check_parts, required_capability_for_path,
  validate_authority_assertion, authorize_authority_action,
}
use aegisone_core.Sidecar.Authority.Powers.{IsBacked, roles_of}
use aegisone_core.Sidecar.Authority.Once.{
  Event, authorizes, restarts, is_granted, IsReadable, run, authorize_once, authorize-IsBacked,
}

abbrev strings : List Str → Value
strings ss = arr (items ss)
  where
    items : List Str → Items
    items [] = nil
    items (s ∷ ss) = cons (str s) (items ss)

abbrev payload : Str → Fields
payload nonce = field (lit "issuer") (str (lit "mnde-desktop")) (
    field (lit "audience") (str (lit "mnde-sidecar")) (
      field (lit "subject") (str (lit "ann")) (
        field (lit "session_id") (str (lit "s1")) (
          field (lit "nonce") (str nonce) (
            field (lit "issued_at") (num (nat 900)) (
              field (lit "expires_at") (num (nat 2000)) (
                field (lit "roles") (strings (lit "ADMIN" ∷ []))
                  (field (lit "capabilities") (strings (lit "verify_receipts" ∷ [])) end))))))))

abbrev nonce : Str
nonce = lit "abcdefghijklmnopqrstuvwx"

abbrev other_nonce : Str
other_nonce = lit "ABCDEFGHIJKLMNOPQRSTUVWX"

abbrev platform : Platform
platform = record {
  decode = λ part. some (obj (payload (if str_eq part (lit "a") then nonce else other_nonce)));
  verify = λ key part signature. str_eq signature (lit "b");
}

abbrev key : Option Str
key = some (lit "k")

abbrev other_assertion : Option Str
other_assertion = some (lit "c.b")

abbrev assertion : Option Str
assertion = some (lit "a.b")

abbrev writes : Writes
writes = record { cleanup = written; reserve = written }

abbrev torn_writes : Writes
torn_writes = record { cleanup = untouched; reserve = cut_off }

abbrev fresh : NonceStore
fresh = record { seen = []; file = none }

abbrev grant : Grant
grant = record {
  subject = lit "ann";
  session_id = lit "s1";
  nonce = lit "abcdefghijklmnopqrstuvwx";
  role = lit "ADMIN";
  capabilities = lit "verify_receipts" ∷ [];
}

first_granted :
    (authorize_authority_action platform key (lit "/verify") assertion 1000 writes fresh).1
    ≡ granted (lit "verify_receipts") grant
unfolding authorize_authority_action act_on spend required_capability_for_path
    validate_authority_assertion check_parts split_dots validate_assertion_claims check_times
    check_powers claim trimmed distinct role_capabilities reserve_nonce add_nonce cleanup_nonces
    persist_nonces load_persistent_nonces read_entries unexpired is_nonce trim trim_start utf8
    utf8_from get_field str_eq has_str lookup insert
first_granted = refl

-- The assertion again, another one with a torn write, a third try of the other one that writes the
-- file anew, and a restart.
abbrev later_events : List Event
later_events =
    authorizes (lit "/verify") assertion 1100 writes
    ∷ authorizes (lit "/verify") other_assertion 1110 torn_writes
    ∷ authorizes (lit "/verify") other_assertion 1120 writes
    ∷ restarts
    ∷ []

-- A restart behind a torn write.
abbrev torn_events : List Event
torn_events = authorizes (lit "/verify") other_assertion 1110 torn_writes ∷ restarts ∷ []

abbrev first_store : NonceStore
first_store =
    (authorize_authority_action platform key (lit "/verify") assertion 1000 writes fresh).0

later_events-IsReadable : IsReadable platform key later_events first_store
unfolding authorize_authority_action act_on spend required_capability_for_path
    validate_authority_assertion check_parts split_dots validate_assertion_claims check_times
    check_powers claim trimmed distinct role_capabilities reserve_nonce add_nonce cleanup_nonces
    persist_nonces load_persistent_nonces read_entries unexpired is_nonce trim trim_start utf8
    utf8_from get_field str_eq has_str lookup insert
later_events-IsReadable = (refl, tt)

torn_test :
    is_granted
      (authorize_authority_action platform key
        (lit "/verify")
        assertion
        1200
        writes
        (run platform key torn_events first_store)).1
    ≡ true
unfolding run authorize_authority_action act_on spend required_capability_for_path
    validate_authority_assertion check_parts split_dots validate_assertion_claims check_times
    check_powers claim trimmed distinct role_capabilities reserve_nonce add_nonce cleanup_nonces
    persist_nonces load_persistent_nonces read_entries unexpired is_nonce trim trim_start utf8
    utf8_from get_field str_eq has_str lookup insert
torn_test = refl

authorize_once_example :
    is_granted
      (authorize_authority_action platform key (lit "/receipts/verify") assertion 1200 writes (
        run platform key later_events
          (authorize_authority_action platform key
            (lit "/verify")
            assertion
            1000
            writes
            fresh).0)).1
    ≡ false
authorize_once_example =
    authorize_once platform key (lit "/verify") (lit "/receipts/verify") assertion 1000 1200 writes
      writes fresh later_events (lit "verify_receipts") grant first_granted
      (omega arith, (omega arith, (omega arith, tt))) later_events-IsReadable (omega arith)

authorize-IsBacked_example :
    (required_capability_for_path (lit "/verify") ≡ some (lit "verify_receipts"))
    × (b : IsBacked platform (lit "k") (lit "a.b") 1000 grant) × (has_str
          (lit "verify_receipts")
          (allowed (roles_of b.payload))
        ≡ true)
authorize-IsBacked_example =
    authorize-IsBacked platform key (lit "/verify") assertion 1000 writes fresh
      (lit "verify_receipts") grant first_granted
