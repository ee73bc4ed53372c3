-- ===== src/Sidecar/Authority/Once.antt =====
-- sidecar/auth_authority.mjs: over any history, an assertion opens a protected path once, and never
-- more than its roles allow.
use aegisone_core.Prelude.{
  ℕ, ◌+◌, ◌≤◌, ◌<◌, ◌≡◌, ◌⊎◌, refl, Str, Bool, true, false, not, List, [], ◌∷◌, Option, none, some,
  arith, if-cases, Bool-cases, inl, inr, ap, has_str, leb, all, str_eq, str_eq_iff,
}
use aegisone_core.Sidecar.Authority.Nonces.{NonceStore, is_nonce, reserve_nonce, nonce_lifetime}
use aegisone_core.Sidecar.Authority.Claims.{
  Grant, Checked, accepted, rejected, thrown, authz_refused, replay, allowed,
}
use aegisone_core.Sidecar.Authority.{
  Platform, Authorization, granted, refused, unprotected, failed, Writes, spend, act_on,
  authorize_authority_action, validate_authority_assertion, required_capability_for_path, text_of,
}
use aegisone_core.Sidecar.Authority.Powers.{
  IsBacked, roles_of, validate_authority_assertion-IsBacked,
}
use aegisone_core.Sidecar.Authority.Replay.{
  Holds, Remembers, reserve_nonce-fresh, reserve_nonce-Remembers, reserve_nonce_again,
}
use aegisone_core.Sidecar.Authority.Spent.{IsSpent, act_on-IsSpent}

abbrev pub is_granted : Authorization → Bool
is_granted (granted c g) = true
is_granted _ = false

abbrev pub is_file : Option (List (Str × ℕ)) → Bool
is_file none = false
is_file (some m) = true

-- A request with its time, or a restart of the process, which forgets what is not in the file.
pub data Event : Type 0 where
  authorizes : Str → Option Str → ℕ → Writes → Event
  restarts : Event

-- The clock does not run backwards.
abbrev pub IsFrom : ℕ → List Event → Type 0
IsFrom t [] = Unit
IsFrom t (authorizes path assertion now w ∷ es) = (t ≤ now) × IsFrom now es
IsFrom t (restarts ∷ es) = IsFrom t es

abbrev pub end_time : ℕ → List Event → ℕ
end_time t [] = t
end_time t (authorizes path assertion now w ∷ es) = end_time now es
end_time t (restarts ∷ es) = end_time t es

all-has_str :
    (bs : List Str) (c : Str) (cs : List Str)
    → all (λ d. has_str d bs) cs ≡ true
    → has_str c cs ≡ true
    → has_str c bs ≡ true
unfolding has_str
all-has_str bs c [] a h = ground (arith, h)
all-has_str bs c (d ∷ cs) a h = elim (Bool-cases (str_eq c d)) [
  | inl e ↦
      let same = (str_eq_iff c d).0 e in
      let both = ap (λ x. has_str x bs) same in ground (arith, a, both)
  | inr e ↦ all-has_str bs c cs (ground (arith, a)) (ground (arith, h, e))
]

le_or_lt : (a b : ℕ) → (a ≤ b) ⊎ (b < a)
le_or_lt a b = elim (Bool-cases (leb a b)) [
  | inl h ↦ inl (ground (arith, h))
  | inr h ↦ inr (ground (arith, h))
]

grant_of : (r : Authorization) → is_granted r ≡ true → (c : Str) × (g : Grant) × (r ≡ granted c g)
grant_of (granted c g) h = (c, g, refl)
grant_of unprotected h = ground (arith, h)
grant_of (refused r) h = ground (arith, h)
grant_of failed h = ground (arith, h)

-- The nonce is remembered as long as its time has not come.
abbrev Kept : Str → ℕ → ℕ → NonceStore → Type 0
Kept n e t s = (e ≤ t) ⊎ Remembers n e s

-- What the file remembers does not need the process.
forgotten :
    (n : Str) (e : ℕ) (file : Option (List (Str × ℕ))) (seen : List (Str × ℕ))
    → is_file file ≡ true
    → Holds n e file seen
    → Holds n e file []
forgotten n e none seen found h = absurd (ground (arith, found))
forgotten n e (some m) seen found h = h

module _ (n : Str) (e : ℕ) (shaped : is_nonce n ≡ true) where
  act_on-Remembers :
      (o : Option Str) (v : Checked) (now : ℕ) (w : Writes) (s : NonceStore)
      → Remembers n e s
      → now < e
      → Remembers n e (act_on o v now w s).0
  unfolding act_on spend
  act_on-Remembers none v now w s r l = r
  act_on-Remembers (some c) thrown now w s r l = r
  act_on-Remembers (some c) (rejected x) now w s r l = r
  act_on-Remembers (some c) (accepted g) now w s r l =
      let r' = reserve_nonce-Remembers n e shaped g.nonce now w.cleanup w.reserve s r l in
      let s' = (reserve_nonce g.nonce now w.cleanup w.reserve s).0 in
      if-cases (λ (x : NonceStore × Authorization). Remembers n e x.0)
        (not (has_str c g.capabilities)) (s, refused authz_refused) _ (λ a. r)
        (λ a.
          if-cases (λ (x : NonceStore × Authorization). Remembers n e x.0)
            (reserve_nonce g.nonce now w.cleanup w.reserve s).1 (s', granted c g)
            (s', refused replay) (λ b. r') (λ b. r'))

module _ (f : Platform) (key : Option Str) where
  unfoldable pub run : List Event → NonceStore → NonceStore
  run [] s = s
  run (authorizes path assertion now w ∷ es) s =
      run es (authorize_authority_action f key path assertion now w s).0
  run (restarts ∷ es) s = run es (record s { seen = [] })

  -- Whenever the process restarts, it finds a nonce file that it can read.
  abbrev pub IsReadable : List Event → NonceStore → Type 0
  IsReadable [] s = Unit
  IsReadable (authorizes path assertion now w ∷ es) s =
      IsReadable es (authorize_authority_action f key path assertion now w s).0
  IsReadable (restarts ∷ es) s = (is_file s.file ≡ true) × IsReadable es (record s { seen = [] })

  -- A request is granted only for the capability that its path needs, under an assertion that the
  -- key signs, that has not expired and runs for at most 150 seconds more, and whose roles allow
  -- that capability.
  pub authorize-IsBacked :
      (path : Str) (assertion : Option Str) (now : ℕ) (w : Writes) (s : NonceStore) (c : Str)
      (g : Grant)
      → (authorize_authority_action f key path assertion now w s).1 ≡ granted c g
      → (required_capability_for_path path ≡ some c)
        × (b : IsBacked f (text_of key) (text_of assertion) now g) × (has_str c
              (allowed (roles_of b.payload))
            ≡ true)
  unfolding act_on authorize_authority_action
  authorize-IsBacked path assertion now w s c g h =
      let spent = act_on-IsSpent _ _ now w s c g h in
      let b = validate_authority_assertion-IsBacked f key assertion now g spent.valid in
      (spent.needed, b, all-has_str _ c g.capabilities b.backed spent.able)

  run-Kept :
      (n : Str) (e : ℕ)
      → is_nonce n ≡ true
      → (es : List Event) (t : ℕ) (s : NonceStore) → IsFrom t es
      → IsReadable es s
      → Kept n e t s
      → Kept n e (end_time t es) (run es s)
  unfolding run authorize_authority_action
  run-Kept n e shaped [] t s i readable k = k
  run-Kept n e shaped (restarts ∷ es) t s i (found, readable) k =
      run-Kept n e shaped es t (record s { seen = [] }) i readable (forget k)
    where
      forget : Kept n e t s → Kept n e t (record s { seen = [] })
      forget (inl h) = inl h
      forget (inr h) = inr (forgotten n e s.file s.seen found h)
  run-Kept n e shaped (authorizes path assertion now w ∷ es) t s (le, i) readable k =
      run-Kept n e shaped es now (authorize_authority_action f key path assertion now w s).0 i
        readable (later k (le_or_lt e now))
    where
      later :
          Kept n e t s
          → (e ≤ now) ⊎ (now < e)
          → Kept n e now (authorize_authority_action f key path assertion now w s).0
      later k (inl h) = inl h
      later (inl h) (inr l) = inl (omega (arith, h, le))
      later (inr r) (inr l) = inr (act_on-Remembers n e shaped _ _ now w s r l)

  -- Two valid checks of one assertion have the nonce and the expiry of its one payload.
  same_payload :
      (assertion : Option Str) (now later : ℕ) (g h : Grant)
      → (a : IsBacked f (text_of key) (text_of assertion) now g)
      → (b : IsBacked f (text_of key) (text_of assertion) later h)
      → (a.expires_at ≡ b.expires_at) × (h.nonce ≡ g.nonce)
  same_payload assertion now later g h a b =
      let same_part : a.payload_part ≡ b.payload_part = cc in
      let same_fields : a.payload ≡ b.payload = cc in (cc, cc)

  -- An assertion that was granted is granted no more: not after any requests, in which the clock
  -- does not run backwards, whatever comes of their writes, and any restarts, each of which finds a
  -- nonce file that it can read, and on no path that needs a capability.
  pub authorize_once :
      (path again : Str) (assertion : Option Str) (now later : ℕ) (w v : Writes) (s : NonceStore)
      (es : List Event) (c : Str) (g : Grant)
      → (authorize_authority_action f key path assertion now w s).1 ≡ granted c g
      → IsFrom now es
      → IsReadable es (authorize_authority_action f key path assertion now w s).0
      → end_time now es ≤ later
      → is_granted
          (authorize_authority_action f key again assertion later v
            (run es (authorize_authority_action f key path assertion now w s).0)).1
        ≡ false
  unfolding act_on authorize_authority_action
  authorize_once path again assertion now later w v s es c g h i readable le =
      elim (Bool-cases
        (is_granted (authorize_authority_action f key again assertion later v after_all).1)) [
          | inr x ↦ x
          | inl x ↦ absurd (never x)
        ]
    where
      first_time :
          IsSpent
            (required_capability_for_path path)
            (validate_authority_assertion f key assertion now)
            now
            w
            s
            c
            g
      first_time = act_on-IsSpent _ _ now w s c g h

      backed : IsBacked f (text_of key) (text_of assertion) now g
      backed = validate_authority_assertion-IsBacked f key assertion now g first_time.valid

      after_all : NonceStore
      after_all = run es (authorize_authority_action f key path assertion now w s).0

      kept : Kept g.nonce (now + nonce_lifetime) (end_time now es) after_all
      kept = run-Kept g.nonce (now + nonce_lifetime) backed.nonce_shaped es now _ i readable (
          inr (
            rw first_time.after
              (reserve_nonce-fresh g.nonce now w.cleanup w.reserve s first_time.fresh)))

      never : ¬ (
          is_granted (authorize_authority_action f key again assertion later v after_all).1 ≡ true)
      never x =
          let (d, k, e) = grant_of _ x in
          let second = act_on-IsSpent _ _ later v after_all d k e in
          let again_backed =
            validate_authority_assertion-IsBacked f key assertion later k second.valid in
          let (same_expiry, same_nonce) =
            same_payload assertion now later g k backed again_backed in
          let early : later < now + nonce_lifetime =
            omega (arith, again_backed.unexpired, backed.lifetime, same_expiry) in
          let known : Remembers g.nonce (now + nonce_lifetime) after_all = elim kept [
            | inl h ↦ absurd (omega (arith, h, le, early))
            | inr r ↦ r
          ] in
          let spent =
            reserve_nonce_again g.nonce (now + nonce_lifetime) backed.nonce_shaped later v.cleanup
              v.reserve after_all known early in
          let fresh =
            ap (λ n. (reserve_nonce n later v.cleanup v.reserve after_all).1) same_nonce in
          let second_fresh = second.fresh in ground (arith, spent, fresh, second_fresh)
