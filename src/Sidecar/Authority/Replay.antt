-- ===== src/Sidecar/Authority/Replay.antt =====
-- sidecar/auth_authority.mjs: an assertion is spent once.
use aegisone_core.Prelude.{
  ℕ, ◌+◌, ◌<◌, ◌≡◌, refl, Str, Bool, true, false, List, [], ◌∷◌, Option, none, some, arith,
  if-cases, Bool-cases, inl, inr, ◌∙◌, any, ap, leb, str_eq, str_eq_iff, lookup, insert,
  lookup-insert, str_eq_self,
}
use aegisone_core.Sidecar.Authority.Nonces.{
  NonceStore, Write, written, untouched, cut_off, unclosed, remove, is_nonce, unexpired,
  read_entries, load_persistent_nonces, persist_nonces, cleanup_nonces, is_seen, nonce_lifetime,
  add_nonce, reserve_nonce,
}

lookup-unexpired :
    (now : ℕ) (n : Str) (e : ℕ) (m : List (Str × ℕ))
    → lookup n m ≡ some e
    → now < e
    → lookup n (unexpired now m) ≡ some e
unfolding lookup unexpired
lookup-unexpired now n e [] h l = h
lookup-unexpired now n e ((k, x) ∷ m) h l = ground (arith, lookup-unexpired now n e m)

lookup-read_entries :
    (now : ℕ) (n : Str) (e : ℕ) (m seen : List (Str × ℕ))
    → lookup n m ≡ some e
    → is_nonce n ≡ true
    → now < e
    → lookup n (read_entries now m seen) ≡ some e
unfolding lookup read_entries
lookup-read_entries now n e [] seen h p l = ground (arith, h)
lookup-read_entries now n e ((k, x) ∷ m) seen h p l = ground (
  arith,
  lookup-read_entries now n e m seen,
  str_eq_iff k n,
  lookup-insert k n x (read_entries now m seen),
)

lookup-remove :
    (k n : Str) (e : ℕ) (m : List (Str × ℕ))
    → str_eq k n ≡ false
    → lookup n m ≡ some e
    → lookup n (remove k m) ≡ some e
unfolding lookup
lookup-remove k n e [] d h = h
lookup-remove k n e ((j, x) ∷ m) d h = elim (Bool-cases (str_eq j k)) [
  | inl y ↦
      let same = (str_eq_iff j k).0 y in
      let other = ap (λ i. str_eq i n) same in ground (arith, lookup-remove k n e m, d, h, y, other)
  | inr y ↦ ground (arith, lookup-remove k n e m, d, h, y)
]

-- The nonce is remembered until a time: by the file, or by the process where there is no file that
-- it could read.
abbrev pub Holds : Str → ℕ → Option (List (Str × ℕ)) → List (Str × ℕ) → Type 0
Holds n e none seen = lookup n seen ≡ some e
Holds n e (some m) seen = lookup n m ≡ some e

abbrev pub Remembers : Str → ℕ → NonceStore → Type 0
Remembers n e s = Holds n e s.file s.seen

module _ (n : Str) (e : ℕ) (shaped : is_nonce n ≡ true) where
  abbrev IsKept : NonceStore → Type 0
  IsKept s = (lookup n s.seen ≡ some e) × Remembers n e s

  -- What is seen may change.
  reseen :
      (file : Option (List (Str × ℕ))) (seen seen' : List (Str × ℕ))
      → Holds n e file seen
      → lookup n seen' ≡ some e
      → Holds n e file seen'
  reseen none seen seen' h k = k
  reseen (some m) seen seen' h k = h

  -- After the file is read, the nonce is seen.
  load-IsKept :
      (now : ℕ) (seen : List (Str × ℕ)) (file : Option (List (Str × ℕ)))
      → Holds n e file seen
      → now < e
      → IsKept (load_persistent_nonces now (record { seen = seen; file = file }))
  unfolding load_persistent_nonces
  load-IsKept now seen none h l = (h, h)
  load-IsKept now seen (some m) h l = (lookup-read_entries now n e m seen h shaped l, h)

  -- However the write ends.
  persist-IsKept :
      (now : ℕ) (w : Write) (s : NonceStore)
      → IsKept s
      → now < e
      → IsKept (persist_nonces now w s).0
  unfolding persist_nonces
  persist-IsKept now written s (h, k) l = (h, lookup-unexpired now n e s.seen h l)
  persist-IsKept now untouched s (h, k) l = (h, k)
  persist-IsKept now cut_off s (h, k) l = (h, h)
  persist-IsKept now unclosed s (h, k) l = (h, lookup-unexpired now n e s.seen h l)

  cleanup-IsKept :
      (now : ℕ) (w : Write) (s : NonceStore) → IsKept s → now < e → IsKept (cleanup_nonces now w s)
  unfolding cleanup_nonces
  cleanup-IsKept now w s (h, k) l =
      let there = lookup-unexpired now n e s.seen h l in
      let s' : NonceStore = record s { seen = unexpired now s.seen } in
      let kept : IsKept s' = (there, reseen s.file s.seen (unexpired now s.seen) k there) in
      if-cases IsKept (any (λ x. leb x.1 now) s.seen) (persist_nonces now w s').0 s'
        (λ c. persist-IsKept now w s' kept l) (λ c. kept)

  remembered :
      (now : ℕ) (w : Write) (s : NonceStore)
      → Remembers n e s
      → now < e
      → IsKept (cleanup_nonces now w (load_persistent_nonces now s))
  remembered now w s r l =
      cleanup-IsKept now w (load_persistent_nonces now s) (load-IsKept now s.seen s.file r l) l

  differs :
      (k : Str) (seen : List (Str × ℕ))
      → lookup n seen ≡ some e
      → is_seen (lookup k seen) ≡ false
      → str_eq k n ≡ false
  differs k seen h f = elim (Bool-cases (str_eq k n)) [
    | inl x ↦ let same = (str_eq_iff k n).0 x in absurd (seen_not same)
    | inr x ↦ x
  ]
    where
      seen_not : k ≡ n → ⊥
      seen_not same =
          let there = ap (λ j. is_seen (lookup j seen)) same in ground (arith, there, f, h)

  -- Another nonce joins, and leaves where its write fails.
  add_nonce-IsKept :
      (k : Str) (now : ℕ) (w : Write) (s : NonceStore)
      → IsKept s
      → is_seen (lookup k s.seen) ≡ false
      → now < e
      → IsKept (add_nonce k now w s).0
  unfolding add_nonce persist_nonces
  add_nonce-IsKept k now w s (h, r) f l =
      let d = differs k s.seen h f in
      let joined = insert k (now + nonce_lifetime) s.seen in
      let there : lookup n joined ≡ some e = lookup-insert k n _ s.seen ∙ rw d h in
      let s' : NonceStore = record s { seen = joined } in
      let p = persist_nonces now w s' in
      let kept = persist-IsKept now w s' (there, reseen s.file s.seen joined r there) l in
      let left = lookup-remove k n e joined d there in
      if-cases (λ (x : NonceStore × Bool). IsKept x.0) p.1 (p.0, true)
        (record p.0 { seen = remove k joined }, false) (λ c. kept)
        (λ c. (left, reseen p.0.file joined (remove k joined) kept.1 left))

  -- A reservation at a time before `e` keeps it, and does not give the nonce again.
  pub reserve_nonce-Remembers :
      (k : Str) (now : ℕ) (w v : Write) (s : NonceStore)
      → Remembers n e s
      → now < e
      → Remembers n e (reserve_nonce k now w v s).0
  unfolding reserve_nonce
  reserve_nonce-Remembers k now w v s r l =
      let kept = remembered now w s r l in
      let s' = cleanup_nonces now w (load_persistent_nonces now s) in
      if-cases (λ (x : NonceStore × Bool). Remembers n e x.0) (is_seen (lookup k s'.seen))
        (s', false) (add_nonce k now v s') (λ h. kept.1)
        (λ h. (add_nonce-IsKept k now v s' kept h l).1)

  pub reserve_nonce_again :
      (now : ℕ) (w v : Write) (s : NonceStore)
      → Remembers n e s
      → now < e
      → (reserve_nonce n now w v s).1 ≡ false
  unfolding reserve_nonce
  reserve_nonce_again now w v s r l = let (seen, kept) = remembered now w s r l in rw seen refl

add_nonce-fresh :
    (n : Str) (now : ℕ) (w : Write) (s : NonceStore)
    → (add_nonce n now w s).1 ≡ true
    → Remembers n (now + nonce_lifetime) (add_nonce n now w s).0
unfolding add_nonce persist_nonces
add_nonce-fresh n now written s x =
    lookup-unexpired now n (now + nonce_lifetime) _
      (lookup-insert n n _ s.seen ∙ rw (str_eq_self n) refl) (omega arith)
add_nonce-fresh n now untouched s x = ground (arith, x)
add_nonce-fresh n now cut_off s x = ground (arith, x)
add_nonce-fresh n now unclosed s x = ground (arith, x)

-- A nonce that is given is in the file.
pub reserve_nonce-fresh :
    (n : Str) (now : ℕ) (w v : Write) (s : NonceStore)
    → (reserve_nonce n now w v s).1 ≡ true
    → Remembers n (now + nonce_lifetime) (reserve_nonce n now w v s).0
unfolding reserve_nonce
reserve_nonce-fresh n now w v s =
    let s' = cleanup_nonces now w (load_persistent_nonces now s) in
    if-cases (λ (x : NonceStore × Bool). x.1 ≡ true → Remembers n (now + nonce_lifetime) x.0)
      (is_seen (lookup n s'.seen)) (s', false) (add_nonce n now v s') (λ h x. ground (arith, x))
      (λ h x. add_nonce-fresh n now v s' x)
