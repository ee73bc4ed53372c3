-- ===== src/Sidecar/WorkerPool/Counting.antt =====
-- sidecar/deterministic_worker_pool.mjs: lemmas on the store of worker states and on the idle list.
use aegisone_core.Prelude.{
  ℕ, zero, suc, ◌+◌, ◌≡◌, refl, Bool, true, false, List, [], ◌∷◌, ◌++◌, Option, none, some, arith,
  if◌then◌else◌, ◌==◌, length, Bool-cases, ==_iff, inl, inr, if-cases, ◌∙◌,
}
use aegisone_core.Sidecar.WorkerPool.State.{
  Task, ActiveTask, WorkerState, state_at, set_state, create_worker_state, has, without,
}

-- Whether the worker works on the task, as a number.
abbrev pub on_task : ℕ → Option ActiveTask → ℕ
on_task id none = 0
on_task id (some a) = if a.task.id == id then 1 else 0

abbrev pub active_count : ℕ → List WorkerState → ℕ
active_count id [] = 0
active_count id (w ∷ ws) = on_task id w.active_task + active_count id ws

abbrev pub queued_count : ℕ → List Task → ℕ
queued_count id [] = 0
queued_count id (t ∷ ts) = (if t.id == id then 1 else 0) + queued_count id ts

abbrev pub is_idle : Option WorkerState → Bool
is_idle none = false
is_idle (some w) = elim w.active_task [ none ↦ true | some a ↦ false ]

-- The place has a worker without a task.
abbrev pub is_free : ℕ → List WorkerState → Bool
is_free u ws = is_idle (state_at u ws)

-- The idle list names free workers, each once.
abbrev pub IsIdle : List WorkerState → List ℕ → Type 0
IsIdle ws [] = Unit
IsIdle ws (u ∷ us) = (is_free u ws ≡ true) × (has u us ≡ false) × IsIdle ws us

module _ (id : ℕ) where
  on_task_of :
      (x w : WorkerState) → some x ≡ some w → on_task id x.active_task ≡ on_task id w.active_task
  on_task_of x w h = cc

  pub active_count-set_state :
      (u : ℕ) (w v : WorkerState) (ws : List WorkerState)
      → state_at u ws ≡ some w
      → active_count id (set_state u v ws) + on_task id w.active_task
        ≡ active_count id ws + on_task id v.active_task
  active_count-set_state u w v [] h = ground arith
  active_count-set_state zero w v (x ∷ ws) h =
      let same : on_task id x.active_task ≡ on_task id w.active_task = on_task_of x w h in
      omega (arith, same)
  active_count-set_state (suc u) w v (x ∷ ws) h = omega (arith, active_count-set_state u w v ws h)

  pub active_count-append :
      (ws : List WorkerState) (worker_id : ℕ)
      → active_count id (ws ++ (create_worker_state worker_id ∷ [])) ≡ active_count id ws
  active_count-append [] k = refl
  active_count-append (w ∷ ws) k = omega (arith, active_count-append ws k)

  pub queued_count-append :
      (ts : List Task) (t : Task)
      → queued_count id (ts ++ (t ∷ [])) ≡ queued_count id ts + (if t.id == id then 1 else 0)
  queued_count-append [] t = omega arith
  queued_count-append (x ∷ ts) t = omega (arith, queued_count-append ts t)

is_free-set_state_ne :
    (u x : ℕ) (v : WorkerState) (ws : List WorkerState)
    → (u == x) ≡ false
    → is_free x (set_state u v ws) ≡ is_free x ws
is_free-set_state_ne u x v [] h = refl
is_free-set_state_ne zero zero v (w ∷ ws) h = ground arith
is_free-set_state_ne zero (suc x) v (w ∷ ws) h = refl
is_free-set_state_ne (suc u) zero v (w ∷ ws) h = refl
is_free-set_state_ne (suc u) (suc x) v (w ∷ ws) h =
    is_free-set_state_ne u x v ws (ground (arith, h))

pub is_free-set_state :
    (u : ℕ) (w v : WorkerState) (ws : List WorkerState)
    → state_at u ws ≡ some w
    → v.active_task ≡ none
    → is_free u (set_state u v ws) ≡ true
is_free-set_state u w v [] h e = ground arith
is_free-set_state zero w v (x ∷ ws) h e = rw e refl
is_free-set_state (suc u) w v (x ∷ ws) h e = is_free-set_state u w v ws h e

is_free-append :
    (u k : ℕ) (ws : List WorkerState)
    → is_free u ws ≡ true
    → is_free u (ws ++ (create_worker_state k ∷ [])) ≡ true
is_free-append u k [] h = ground arith
is_free-append zero k (w ∷ ws) h = h
is_free-append (suc u) k (w ∷ ws) h = is_free-append u k ws h

pub is_free_new :
    (k : ℕ) (ws : List WorkerState)
    → is_free (length ws) (ws ++ (create_worker_state k ∷ [])) ≡ true
is_free_new k [] = refl
is_free_new k (w ∷ ws) = is_free_new k ws

is_free_end : (ws : List WorkerState) → is_free (length ws) ws ≡ false
is_free_end [] = refl
is_free_end (w ∷ ws) = is_free_end ws

pub IsIdle-set_state :
    (u : ℕ) (v : WorkerState) (ws : List WorkerState) (us : List ℕ)
    → has u us ≡ false
    → IsIdle ws us
    → IsIdle (set_state u v ws) us
IsIdle-set_state u v ws [] h i = tt
IsIdle-set_state u v ws (x ∷ us) h (f, n, i) = (
  is_free-set_state_ne u x v ws (ground (arith, h)) ∙ f,
  n,
  IsIdle-set_state u v ws us (ground (arith, h)) i,
)

pub IsIdle-append :
    (k : ℕ) (ws : List WorkerState) (us : List ℕ)
    → IsIdle ws us
    → IsIdle (ws ++ (create_worker_state k ∷ [])) us
IsIdle-append k ws [] i = tt
IsIdle-append k ws (u ∷ us) (f, n, i) = (is_free-append u k ws f, n, IsIdle-append k ws us i)

-- A place that is not free is not in the idle list.
pub has_not_free :
    (u : ℕ) (ws : List WorkerState) (us : List ℕ)
    → is_free u ws ≡ false
    → IsIdle ws us
    → has u us ≡ false
has_not_free u ws [] h i = refl
has_not_free u ws (x ∷ us) h (f, n, i) = elim (Bool-cases (x == u)) [
  | inl e ↦ let same = (==_iff x u).0 e in cc
  | inr e ↦ rw e (has_not_free u ws us h i)
]

pub has_new : (ws : List WorkerState) (us : List ℕ) → IsIdle ws us → has (length ws) us ≡ false
has_new ws us i = has_not_free (length ws) ws us (is_free_end ws) i

has-push :
    (x u : ℕ) (us : List ℕ) → has x us ≡ false → (u == x) ≡ false → has x (us ++ (u ∷ [])) ≡ false
has-push x u [] h e = rw e refl
has-push x u (y ∷ us) h e = ground (arith, h, has-push x u us)

pub IsIdle-push :
    (u : ℕ) (ws : List WorkerState) (us : List ℕ)
    → is_free u ws ≡ true
    → has u us ≡ false
    → IsIdle ws us
    → IsIdle ws (us ++ (u ∷ []))
IsIdle-push u ws [] f h i = (f, refl, tt)
IsIdle-push u ws (x ∷ us) f h (g, n, i) =
    (g, has-push x u us n (ground (arith, h)), IsIdle-push u ws us f (ground (arith, h)) i)

pub has-without_self : (u : ℕ) (us : List ℕ) → has u (without u us) ≡ false
has-without_self u [] = refl
has-without_self u (x ∷ us) = ground (arith, has-without_self u us)

has-without : (u x : ℕ) (us : List ℕ) → has x us ≡ false → has x (without u us) ≡ false
has-without u x [] h = refl
has-without u x (y ∷ us) h = ground (arith, has-without u x us)

pub IsIdle-without :
    (u : ℕ) (ws : List WorkerState) (us : List ℕ) → IsIdle ws us → IsIdle ws (without u us)
IsIdle-without u ws [] i = tt
IsIdle-without u ws (x ∷ us) (f, n, i) =
    let rest = IsIdle-without u ws us i in
    if-cases (IsIdle ws) (x == u) (without u us) (x ∷ without u us) (λ e. rest)
      (λ e. (f, has-without u x us n, rest))

-- A fresh worker joins the idle ones.
pub IsIdle-add_worker :
    (k n : ℕ) (ws : List WorkerState) (us : List ℕ)
    → n ≡ length ws
    → IsIdle ws us
    → IsIdle (ws ++ (create_worker_state k ∷ [])) (us ++ (n ∷ []))
IsIdle-add_worker k n ws us e i =
    rw e
      (IsIdle-push (length ws) _ us (is_free_new k ws) (has_new ws us i) (IsIdle-append k ws us i))
