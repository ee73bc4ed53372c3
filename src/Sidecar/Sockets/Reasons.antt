-- ===== src/Sidecar/Sockets/Reasons.antt =====
-- sidecar/socket_registry.mjs: what is counted as destroyed, and for which reason.
use aegisone_core.Prelude.{
  ℕ, ◌+◌, ◌-◌, ◌≤◌, ◌≡◌, refl, Bool, false, List, [], ◌∷◌, Option, none, some, arith, if◌then◌else◌,
  Option-cases, inl, inr,
}
use aegisone_core.Sidecar.Sockets.{
  RegistryConfig, SocketMetrics, Registry, new_registry, state_of, DestroyReason, idle, shutdown,
  destroy_idle, idle_sockets, all_sockets, Event, starts, stops, errs, sweeps, tracks, receives,
  requests, closes, destroys, evicts, track, close_socket, receive_data, mark_request, step, run,
}
use aegisone_core.Sidecar.Sockets.Laws.{
  marked, marked_le, IsTallied, IsFreshly, run-IsTallied, new_registry-IsTallied,
}
use aegisone_core.Sidecar.Sockets.Marks.{
  for_any, for_idle, for_shutdown, IsGrown, destroy-IsGrown, destroy_each-IsGrown,
}

-- The reason for which an event destroys, if it does.
abbrev pub reason_of : Event → Option DestroyReason
reason_of sweeps = some shutdown
reason_of (destroys s reason) = some reason
reason_of (evicts now) = some idle
reason_of _ = none

-- How many open sockets the events of these reasons mark as destroyed.
abbrev pub newly_marked : (Option DestroyReason → Bool) → List Event → Registry → ℕ
newly_marked p [] r = 0
newly_marked p (e ∷ es) r =
    let rest = newly_marked p es (step e r) in
    (if p (reason_of e) then marked (step e r).sockets - marked r.sockets else 0) + rest

-- What an event adds to a counter is what it newly marks.
record IsExact (e : Event) (r r' : Registry) : Type 0 where
  all :
      r'.metrics.destroyed
      ≡ r.metrics.destroyed
        + (if for_any (reason_of e) then marked r'.sockets - marked r.sockets else 0)
  idles :
      r'.metrics.idle_destroyed
      ≡ r.metrics.idle_destroyed
        + (if for_idle (reason_of e) then marked r'.sockets - marked r.sockets else 0)
  shutdowns :
      r'.metrics.shutdown_destroyed
      ≡ r.metrics.shutdown_destroyed
        + (if for_shutdown (reason_of e) then marked r'.sockets - marked r.sockets else 0)

grown-IsExact :
    (e : Event) (k : DestroyReason) (r r' : Registry)
    → reason_of e ≡ some k
    → (d : ℕ) × IsGrown (some k) d r r'
    → IsExact e r r'
grown-IsExact e k r r' same (d, g) =
    let new : marked r'.sockets - marked r.sockets ≡ d = omega (arith, g.marks) in
    record {
      all = rw (same, new) g.all;
      idles = rw (same, new) g.idles;
      shutdowns = rw (same, new) g.shutdowns;
    }

-- The counters of destroyed sockets are the same.
abbrev IsSame : SocketMetrics → SocketMetrics → Type 0
IsSame m n =
    (n.destroyed ≡ m.destroyed)
    × (n.idle_destroyed ≡ m.idle_destroyed)
    × (n.shutdown_destroyed ≡ m.shutdown_destroyed)

same-IsExact :
    (e : Event) (r r' : Registry)
    → reason_of e ≡ none
    → IsSame r.metrics r'.metrics
    → IsExact e r r'
same-IsExact e r r' same (a, i, s) = record {
  all = rw same (omega (arith, a));
  idles = rw same (omega (arith, i));
  shutdowns = rw same (omega (arith, s));
}

close_socket-IsSame : (s : ℕ) (r : Registry) → IsSame r.metrics (close_socket s r).metrics
unfolding close_socket
close_socket-IsSame s r = elim (Option-cases (state_of s r.sockets)) [
  | inl e ↦ rw (e, close_socket) (refl, refl, refl)
  | inr (x, e) ↦ rw (e, close_socket) (refl, refl, refl)
]

receive_data-IsSame : (s now : ℕ) (r : Registry) → IsSame r.metrics (receive_data s now r).metrics
unfolding receive_data
receive_data-IsSame s now r = elim (Option-cases (state_of s r.sockets)) [
  | inl e ↦ rw (e, receive_data) (refl, refl, refl)
  | inr (x, e) ↦ rw (e, receive_data) (refl, refl, refl)
]

mark_request-IsSame : (s now : ℕ) (r : Registry) → IsSame r.metrics (mark_request s now r).metrics
unfolding mark_request
mark_request-IsSame s now r = elim (Option-cases (state_of s r.sockets)) [
  | inl e ↦ rw (e, mark_request) (refl, refl, refl)
  | inr (x, e) ↦ rw (e, mark_request) (refl, refl, refl)
]

step-IsExact : (e : Event) (r : Registry) → IsExact e r (step e r)
unfolding step destroy_idle track
step-IsExact starts r = same-IsExact starts r _ refl (refl, refl, refl)
step-IsExact stops r = same-IsExact stops r _ refl (refl, refl, refl)
step-IsExact errs r = same-IsExact errs r _ refl (refl, refl, refl)
step-IsExact sweeps r =
    let (d, g) =
      destroy_each-IsGrown (all_sockets r.sockets) shutdown (record r { timer = false }) in
    grown-IsExact sweeps shutdown r _ refl
      (d, record { marks = g.marks; all = g.all; idles = g.idles; shutdowns = g.shutdowns })
step-IsExact (tracks s now) r = same-IsExact (tracks s now) r _ refl (refl, refl, refl)
step-IsExact (receives s now) r =
    same-IsExact (receives s now) r _ refl (receive_data-IsSame s now r)
step-IsExact (requests s now) r =
    same-IsExact (requests s now) r _ refl (mark_request-IsSame s now r)
step-IsExact (closes s) r = same-IsExact (closes s) r _ refl (close_socket-IsSame s r)
step-IsExact (destroys s k) r = grown-IsExact (destroys s k) k r _ refl (destroy-IsGrown s k r)
step-IsExact (evicts now) r =
    grown-IsExact (evicts now) idle r _ refl
      (destroy_each-IsGrown (idle_sockets r.config.idle_timeout_ms now r.sockets) idle r)

-- Each counter is what it was and what was newly marked for its reason.
record IsReasoned (es : List Event) (r r' : Registry) : Type 0 where
  all : r'.metrics.destroyed ≡ r.metrics.destroyed + newly_marked for_any es r
  idles : r'.metrics.idle_destroyed ≡ r.metrics.idle_destroyed + newly_marked for_idle es r
  shutdowns :
      r'.metrics.shutdown_destroyed ≡ r.metrics.shutdown_destroyed + newly_marked for_shutdown es r

run-IsReasoned : (es : List Event) (r : Registry) → IsReasoned es r (run es r)
unfolding run
run-IsReasoned [] r = record { all = omega arith; idles = omega arith; shutdowns = omega arith }
run-IsReasoned (e ∷ es) r =
    let x = step-IsExact e r in
    let rest = run-IsReasoned es (step e r) in
    record {
      all = omega (arith, x.all, rest.all);
      idles = omega (arith, x.idles, rest.idles);
      shutdowns = omega (arith, x.shutdowns, rest.shutdowns);
    }

-- Whatever happens to a new registry, if only sockets that are not open are tracked, then the sockets
-- that it opened are the closed and the open ones, the peak lies between the open and the opened
-- ones, no more are counted as destroyed than were opened, and those counted as destroyed, as idle
-- and at the shutdown are exactly the open sockets that were marked as destroyed, those among them
-- that an eviction or a call with that reason marked, and those that a shutdown or a call with that
-- reason marked.
pub run-new_registry-IsTallied :
    (c : RegistryConfig) (es : List Event)
    → IsFreshly es (new_registry c)
    → let r = run es (new_registry c) in
      IsTallied r
      × (r.metrics.destroyed ≤ r.metrics.opened)
      × (r.metrics.destroyed ≡ newly_marked for_any es (new_registry c))
      × (r.metrics.idle_destroyed ≡ newly_marked for_idle es (new_registry c))
      × (r.metrics.shutdown_destroyed ≡ newly_marked for_shutdown es (new_registry c))
unfolding new_registry
run-new_registry-IsTallied c es i =
    let r = run es (new_registry c) in
    let v = run-IsTallied es (new_registry c) i (new_registry-IsTallied c) in
    let x = run-IsReasoned es (new_registry c) in
    (
      v,
      omega (arith, v.destroyed_once, marked_le r.sockets),
      omega (arith, x.all),
      omega (arith, x.idles),
      omega (arith, x.shutdowns),
    )
