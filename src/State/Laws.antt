-- ===== src/State/Laws.antt =====
-- The stores of shared/state.ts: when `begin` and `reserve` succeed, and what they leave behind.
use aegisone_core.Prelude.{
  ℕ, ◌+◌, ◌≤◌, ◌<◌, if◌then◌else◌, false, ltb, ◌≡◌, refl, ap, ◌↔◌, Str, [], ◌∷◌, none, some, arith,
  All, Option-cases, Bool-cases, inl, inr, lookup, insert, lookup-insert, str_eq, str_eq_iff,
}
use aegisone_core.State.{
  AuthorityStore, BudgetStore, BudgetTokenState, begin, created, reserve, reserved, exhausted,
  define,
}
use aegisone_core.Json.{safe_limit}

-- `begin` creates exactly the ids that have no record.
pub begin-created_iff :
    (id hash : Str) (m : AuthorityStore) → ((begin id hash m).1 ≡ created) ↔ (lookup id m ≡ none)
unfolding begin
begin-created_iff id hash m = ground arith

-- No call of `begin` takes a record away.
pub lookup-begin_ne :
    (id hash j : Str) (m : AuthorityStore)
    → str_eq id j ≡ false
    → lookup j (begin id hash m).0 ≡ lookup j m
unfolding begin
lookup-begin_ne id hash j m h = elim (Option-cases (lookup id m)) [
  | inl e ↦ rw (e, begin, lookup-insert, h)
  | inr (r, e) ↦ rw (e, begin)
]

-- Each token has consumed at most its maximum.
abbrev pub IsWithin : BudgetStore → Type 0
IsWithin m = All (λ e. e.1.consumed_cents ≤ e.1.max_budget_cents) m

insert-IsWithin :
    (token : Str) (r : BudgetTokenState) (m : BudgetStore)
    → r.consumed_cents ≤ r.max_budget_cents
    → IsWithin m
    → IsWithin (insert token r m)
unfolding insert
insert-IsWithin token r [] h w = (h, tt)
insert-IsWithin token r ((j, x) ∷ m) h (w, ws) = elim (Bool-cases (str_eq j token)) [
  | inl e ↦ rw e (h, ws)
  | inr e ↦ rw e (w, insert-IsWithin token r m h ws)
]

pub define-IsWithin :
    (token : Str) (max : ℕ) (m : BudgetStore) → IsWithin m → IsWithin (define token max m)
unfolding define
define-IsWithin token max m w = insert-IsWithin token _ m (omega arith) w

-- Where each token is within its maximum, each still is after a reservation, whether it succeeds
-- or not.
pub reserve-IsWithin :
    (token : Str) (cost : ℕ) (m : BudgetStore) → IsWithin m → IsWithin (reserve token cost m).0
unfolding reserve
reserve-IsWithin token cost m w = elim (Option-cases (lookup token m)) [
  | inl e ↦ rw (e, reserve) w
  | inr (r, e) ↦
      rw (e, reserve)
        (elim (Bool-cases (ltb r.max_budget_cents (r.consumed_cents + cost))) [
          | inl over ↦ rw over w
          | inr fits ↦ rw fits (insert-IsWithin token _ m (ground arith) w)
        ])
]

-- The token is defined and has room for the cost.
abbrev pub HasRoom : Str → ℕ → BudgetStore → Type 0
HasRoom token cost m =
    (r : BudgetTokenState) × (lookup token m ≡ some r)
    × (r.consumed_cents + cost ≤ r.max_budget_cents)

pub reserve-reserved_iff :
    (token : Str) (cost : ℕ) (m : BudgetStore)
    → ((reserve token cost m).1 ≡ reserved) ↔ HasRoom token cost m
unfolding reserve
reserve-reserved_iff token cost m = ground arith

-- A refused reservation changes nothing.
pub reserve-exhausted :
    (token : Str) (cost : ℕ) (m : BudgetStore)
    → (reserve token cost m).1 ≡ exhausted
    → (reserve token cost m).0 ≡ m
unfolding reserve
reserve-exhausted token cost m h = ground arith

-- Bounds on what a reservation, of this or another token, leaves of a token that is defined and
-- within its maximum.
pub reserve-growth :
    (t token : Str) (cost : ℕ) (m : BudgetStore) (r : BudgetTokenState)
    → lookup token m ≡ some r
    → r.consumed_cents ≤ r.max_budget_cents
    → (q : BudgetTokenState) × (lookup token (reserve t cost m).0 ≡ some q)
      × (q.max_budget_cents ≡ r.max_budget_cents)
      × (r.consumed_cents ≤ q.consumed_cents)
      × (q.consumed_cents ≤ q.max_budget_cents)
      × ((reserve t cost m).1 ≡ reserved → t ≡ token → r.consumed_cents + cost ≤ q.consumed_cents)
unfolding reserve
reserve-growth t token cost m r found within = elim (Option-cases (lookup t m)) [
  | inl e ↦ rw (e, reserve) (r, found, refl, omega arith, within, λ h. absurd (ground arith))
  | inr (x, e) ↦
      rw (e, reserve)
        (elim (Bool-cases (ltb x.max_budget_cents (x.consumed_cents + cost))) [
          | inl over ↦ rw over (r, found, refl, omega arith, within, λ h. absurd (ground arith))
          | inr fits ↦
              rw (fits, lookup-insert)
                (elim (Bool-cases (str_eq t token)) [
                  | inl same ↦
                      let here : x ≡ r = ground (arith, str_eq_iff t token) in
                      rw same (
                        record x { consumed_cents = x.consumed_cents + cost },
                        refl,
                        ap (λ y. y.max_budget_cents) here,
                        ground arith,
                        ground arith,
                        λ _ _. ground arith,
                      )
                  | inr other ↦ rw other (
                    r,
                    found,
                    refl,
                    omega arith,
                    within,
                    λ _ e'. absurd (ground (arith, str_eq_iff t token)),
                  )
                ])
        ])
]

-- For a token that is defined with a safe integer as its maximum: it is reserved exactly if what it
-- has consumed and the cost are at most the maximum; then it has consumed exactly the cost more, a
-- safe integer, with its maximum unchanged, and every other token is as it was; and where it is not
-- reserved, the whole store is as it was.
pub reserve-exact :
    (token : Str) (cost : ℕ) (m : BudgetStore) (r : BudgetTokenState)
    → lookup token m ≡ some r
    → r.max_budget_cents < safe_limit
    → (((reserve token cost m).1 ≡ reserved) ↔ (r.consumed_cents + cost ≤ r.max_budget_cents))
      × ((reserve token cost m).1 ≡ reserved
          → (r.consumed_cents + cost < safe_limit)
            × ((other : Str)
                → lookup other (reserve token cost m).0 ≡ (
                    if str_eq token other
                    then some (record r { consumed_cents = r.consumed_cents + cost })
                    else lookup other m)))
      × ((reserve token cost m).1 ≡ exhausted → (reserve token cost m).0 ≡ m)
unfolding reserve
reserve-exact token cost m r found safe =
    elim (Bool-cases (ltb r.max_budget_cents (r.consumed_cents + cost))) [
      | inl over ↦
          rw (reserve, found, over)
            (
              (λ h. absurd (ground (arith, h)), λ h. absurd (ground (arith, over, h))),
              λ h. absurd (ground (arith, h)),
              λ h. refl,
            )
      | inr fits ↦
          rw (reserve, found, fits)
            (
              (λ h. ground (arith, fits), λ h. refl),
              λ h. (ground (arith, fits, safe), λ other. lookup-insert token other _ m),
              λ h. absurd (ground (arith, h)),
            )
    ]
