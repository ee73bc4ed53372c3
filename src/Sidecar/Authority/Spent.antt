-- ===== src/Sidecar/Authority/Spent.antt =====
-- sidecar/auth_authority.mjs: what a granted request has passed.
use aegisone_core.Prelude.{
  ℕ, ◌≡◌, refl, Str, true, Option, none, some, arith, Bool-cases, inl, inr, ◌∙◌, ap, sym, has_str,
}
use mathlib.Core.Path.{subst}
use aegisone_core.Sidecar.Authority.Nonces.{NonceStore, reserve_nonce}
use aegisone_core.Sidecar.Authority.Claims.{Grant, Checked, accepted, rejected, thrown}
use aegisone_core.Sidecar.Authority.{granted, Writes, spend, act_on}

-- A granted request has valid claims, and its nonce was fresh.
pub record IsSpent (o : Option Str) (v : Checked) (now : ℕ) (w : Writes) (s : NonceStore) (c : Str)
    (g : Grant) : Type 0 where
  pub needed : o ≡ some c
  pub valid : v ≡ accepted g
  pub able : has_str c g.capabilities ≡ true
  pub fresh : (reserve_nonce g.nonce now w.cleanup w.reserve s).1 ≡ true
  pub after : (act_on o v now w s).0 ≡ (reserve_nonce g.nonce now w.cleanup w.reserve s).0

granted_eq : {c d : Str} {g h : Grant} → granted c g ≡ granted d h → (c ≡ d) × (g ≡ h)
granted_eq e = (cc, cc)

spend-IsSpent :
    (d c : Str) (h g : Grant) (now : ℕ) (w : Writes) (s : NonceStore)
    → (spend d h now w s).1 ≡ granted c g
    → IsSpent (some d) (accepted h) now w s c g
unfolding spend act_on
spend-IsSpent d c h g now w s e = elim (Bool-cases (has_str d h.capabilities)) [
  | inr x ↦ ground (arith, e, x)
  | inl x ↦ elim (Bool-cases (reserve_nonce h.nonce now w.cleanup w.reserve s).1) [
    | inr y ↦ ground (arith, e, x, y)
    | inl y ↦
        let given : spend d h now w s
            ≡ ((reserve_nonce h.nonce now w.cleanup w.reserve s).0, granted d h) =
          rw (spend, x, y) refl in
        let (p, q) = granted_eq (sym (ap (λ r. r.1) given) ∙ e) in
        let base : IsSpent (some d) (accepted h) now w s d h = record {
          needed = refl;
          valid = refl;
          able = x;
          fresh = y;
          after = ap (λ r. r.0) given;
        } in
        subst (λ k. IsSpent (some d) (accepted h) now w s k g) p
          (subst (λ k. IsSpent (some d) (accepted h) now w s d k) q base)
  ]
]

pub act_on-IsSpent :
    (o : Option Str) (v : Checked) (now : ℕ) (w : Writes) (s : NonceStore) (c : Str) (g : Grant)
    → (act_on o v now w s).1 ≡ granted c g
    → IsSpent o v now w s c g
unfolding act_on
act_on-IsSpent none v now w s c g h = ground (arith, h)
act_on-IsSpent (some d) thrown now w s c g h = ground (arith, h)
act_on-IsSpent (some d) (rejected r) now w s c g h = ground (arith, h)
act_on-IsSpent (some d) (accepted k) now w s c g h = spend-IsSpent d c k g now w s h
