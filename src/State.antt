-- ===== src/State.antt =====
-- shared/state.ts: the two in-memory stores, each a `Map`; a method returns the new store beside
-- its result.
pub mod Laws
use aegisone_core.Prelude.{
  ℕ, ◌+◌, Str, List, [], Option, none, some, if◌then◌else◌, ltb, lookup, insert, map,
}

pub data Status : Type 0 where
  inflight allowed : Status

pub record ExecutionAuthorityState : Type 0 where
  pub execution_id : Str
  pub status : Status
  pub request_hash : Str
  pub decision_hash : Option Str

pub record BudgetTokenState : Type 0 where
  pub budget_token : Str
  pub max_budget_cents : ℕ
  pub consumed_cents : ℕ

abbrev pub AuthorityStore : Type 0
AuthorityStore = List (Str × ExecutionAuthorityState)

abbrev pub BudgetStore : Type 0
BudgetStore = List (Str × BudgetTokenState)

pub data BeginStatus : Type 0 where
  created inflight_exists allowed_exists : BeginStatus

pub data ReserveStatus : Type 0 where
  reserved exhausted : ReserveStatus

abbrev existing_status : Status → BeginStatus
existing_status inflight = inflight_exists
existing_status allowed = allowed_exists

unfoldable pub begin : Str → Str → AuthorityStore → AuthorityStore × BeginStatus
begin id hash m = elim (lookup id m) [
  | none ↦ (
    insert id
        (record { execution_id = id; status = inflight; request_hash = hash; decision_hash = none })
        m,
    created,
  )
  | some r ↦ (m, existing_status r.status)
]

unfoldable pub commit_allow : Str → Str → Str → AuthorityStore → AuthorityStore
commit_allow id hash decision_hash m =
    insert id
      (record {
        execution_id = id;
        status = allowed;
        request_hash = hash;
        decision_hash = some decision_hash;
      })
      m

-- `snapshot` of either store: the values in order.
unfoldable pub snapshot {ℓ} : {V : Type ℓ} → List (Str × V) → List V
snapshot m = map (λ e. e.1) m

-- `reset` of either store.
abbrev pub reset {ℓ} : {V : Type ℓ} → List (Str × V) → List (Str × V)
reset m = []

unfoldable pub define : Str → ℕ → BudgetStore → BudgetStore
define token max m =
    insert token (record { budget_token = token; max_budget_cents = max; consumed_cents = 0 }) m

unfoldable pub reserve : Str → ℕ → BudgetStore → BudgetStore × ReserveStatus
reserve token cost m = elim (lookup token m) [
  | none ↦ (m, exhausted)
  | some r ↦
      if ltb r.max_budget_cents (r.consumed_cents + cost)
      then (m, exhausted)
      else (insert token (record r { consumed_cents = r.consumed_cents + cost }) m, reserved)
]
