-- ===== src/Sidecar/Sockets/Laws.antt =====
-- sidecar/socket_registry.mjs: what the counters say.
use aegisone_core.Prelude.{
  ℕ, ◌+◌, ◌≤◌, ◌≡◌, refl, true, false, List, [], ◌∷◌, Option, none, some, arith, if◌then◌else◌,
  length, Option-cases, Bool-cases, inl, inr,
}
use aegisone_core.Sidecar.Sockets.{
  RegistryConfig, SocketState, Registry, new_registry, state_of, set_socket, delete_socket, track,
  close_socket, receive_data, mark_request, DestroyReason, destroyed, idle, shutdown,
  count_destroyed, destroy, destroy_each, destroy_idle, idle_sockets, all_sockets, Event, starts,
  stops, errs, sweeps, tracks, receives, requests, closes, destroys, evicts, step, run,
}

-- The open sockets that are marked as destroyed.
abbrev pub marked : List (ℕ × SocketState) → ℕ
marked [] = 0
marked ((s, x) ∷ m) = (if x.destroyed then 1 else 0) + marked m

-- The opened sockets are the closed and the open ones, those counted as destroyed are closed or
-- marked, and the peak lies between the open ones and the opened ones.
pub record IsTallied (r : Registry) : Type 0 where
  pub opened : r.metrics.closed + length r.sockets ≡ r.metrics.opened
  pub destroyed_once : r.metrics.destroyed + length r.sockets ≤ r.metrics.opened + marked r.sockets
  pub peak_seen : length r.sockets ≤ r.metrics.max_open
  pub peak : r.metrics.max_open ≤ r.metrics.opened

abbrev pub flag : Option SocketState → ℕ
flag none = 0
flag (some x) = if x.destroyed then 1 else 0

abbrev pub present : Option SocketState → ℕ
present none = 0
present (some x) = 1

module _ (s : ℕ) where
  length-set_socket :
      (x : SocketState) (m : List (ℕ × SocketState))
      → length (set_socket s x m) + present (state_of s m) ≡ length m + 1
  length-set_socket x [] = omega arith
  length-set_socket x ((t, y) ∷ m) = ground (arith, length-set_socket x m)

  pub marked-set_socket :
      (x : SocketState) (m : List (ℕ × SocketState))
      → marked (set_socket s x m) + flag (state_of s m) ≡ marked m + (if x.destroyed then 1 else 0)
  marked-set_socket x [] = omega arith
  marked-set_socket x ((t, y) ∷ m) = ground (arith, marked-set_socket x m)

  length-delete_socket :
      (m : List (ℕ × SocketState)) → length (delete_socket s m) + present (state_of s m) ≡ length m
  length-delete_socket [] = omega arith
  length-delete_socket ((t, y) ∷ m) = ground (arith, length-delete_socket m)

  marked-delete_socket :
      (m : List (ℕ × SocketState)) → marked (delete_socket s m) + flag (state_of s m) ≡ marked m
  marked-delete_socket [] = omega arith
  marked-delete_socket ((t, y) ∷ m) = ground (arith, marked-delete_socket m)

flag_le : (o : Option SocketState) → flag o ≤ present o
flag_le none = omega arith
flag_le (some x) = ground arith

destroy-IsTallied :
    (s : ℕ) (reason : DestroyReason) (r : Registry) → IsTallied r → IsTallied (destroy s reason r)
unfolding destroy
destroy-IsTallied s reason r v = elim (Option-cases (state_of s r.sockets)) [
  | inl e ↦ rw (e, destroy) v
  | inr (x, e) ↦ elim (Bool-cases x.destroyed) [
    | inl d ↦ rw (e, destroy, d) v
    | inr d ↦ rw (e, destroy, d) (marked_once reason x e d)
  ]
]
  where
    marked_once :
        (reason : DestroyReason) (x : SocketState)
        → state_of s r.sockets ≡ some x
        → x.destroyed ≡ false
        → IsTallied (record r {
          sockets = set_socket s (record x { destroyed = true }) r.sockets;
          metrics = count_destroyed reason r.metrics;
        })
    marked_once reason x e d =
        let y : SocketState = record x { destroyed = true } in
        let l = length-set_socket s y r.sockets in
        let m = marked-set_socket s y r.sockets in
        let there : present (state_of s r.sockets) ≡ 1 = rw e refl in
        let unmarked : flag (state_of s r.sockets) ≡ 0 = rw (e, d) refl in
        elim reason [
          | destroyed ↦ ground (arith, l, m, there, unmarked)
          | idle ↦ ground (arith, l, m, there, unmarked)
          | shutdown ↦ ground (arith, l, m, there, unmarked)
        ]

track-IsTallied :
    (s now : ℕ) (r : Registry)
    → state_of s r.sockets ≡ none
    → IsTallied r
    → IsTallied (track s now r)
unfolding track
track-IsTallied s now r new v =
    let x : SocketState = record {
      id = r.next_id;
      opened_at_ms = now;
      last_active_at_ms = now;
      first_byte_at_ms = 0;
      requests = 0;
      destroyed = false;
    } in
    let l = length-set_socket s x r.sockets in
    let m = marked-set_socket s x r.sockets in
    let f = flag_le (state_of s r.sockets) in
    let absent : present (state_of s r.sockets) ≡ 0 = rw new refl in
    record {
      opened = omega (arith, l, absent, v.opened);
      destroyed_once = omega (arith, l, m, f, v.destroyed_once);
      peak_seen = omega arith;
      peak = omega (arith, l, absent, v.opened, v.peak);
    }

close_socket-IsTallied : (s : ℕ) (r : Registry) → IsTallied r → IsTallied (close_socket s r)
unfolding close_socket
close_socket-IsTallied s r v = elim (Option-cases (state_of s r.sockets)) [
  | inl e ↦ rw (e, close_socket) v
  | inr (x, e) ↦
      let there : present (state_of s r.sockets) ≡ 1 = rw e refl in
      let f = flag_le (state_of s r.sockets) in
      let l = length-delete_socket s r.sockets in
      let m = marked-delete_socket s r.sockets in
      rw (e, close_socket)
        (record {
          opened = omega (arith, l, there, v.opened);
          destroyed_once = omega (arith, l, m, f, there, v.destroyed_once);
          peak_seen = omega (arith, l, v.peak_seen);
          peak = v.peak;
        })
]

-- A change of a state that leaves its mark.
same_mark :
    (s : ℕ) (x y : SocketState) (r : Registry)
    → state_of s r.sockets ≡ some x
    → y.destroyed ≡ x.destroyed
    → IsTallied r
    → IsTallied (record r { sockets = set_socket s y r.sockets })
same_mark s x y r e d v =
    let l = length-set_socket s y r.sockets in
    let m = marked-set_socket s y r.sockets in
    let there : present (state_of s r.sockets) ≡ 1 = rw e refl in
    let kept : flag (state_of s r.sockets) ≡ (if y.destroyed then 1 else 0) = rw (e, d) refl in
    record {
      opened = omega (arith, l, there, v.opened);
      destroyed_once = omega (arith, l, m, there, kept, v.destroyed_once);
      peak_seen = omega (arith, l, there, v.peak_seen);
      peak = v.peak;
    }

destroy_each-IsTallied :
    (ss : List ℕ) (reason : DestroyReason) (r : Registry)
    → IsTallied r
    → IsTallied (destroy_each ss reason r)
destroy_each-IsTallied [] reason r v = v
destroy_each-IsTallied (s ∷ ss) reason r v =
    destroy_each-IsTallied ss reason _ (destroy-IsTallied s reason r v)

-- What an event demands.
abbrev IsNew : Event → Registry → Type 0
IsNew (tracks s now) r = state_of s r.sockets ≡ none
IsNew _ r = Unit

step-IsTallied : (e : Event) (r : Registry) → IsNew e r → IsTallied r → IsTallied (step e r)
unfolding step receive_data mark_request destroy_idle
step-IsTallied starts r n v = record {
  opened = v.opened;
  destroyed_once = v.destroyed_once;
  peak_seen = v.peak_seen;
  peak = v.peak;
}
step-IsTallied stops r n v = record {
  opened = v.opened;
  destroyed_once = v.destroyed_once;
  peak_seen = v.peak_seen;
  peak = v.peak;
}
step-IsTallied errs r n v = record {
  opened = v.opened;
  destroyed_once = v.destroyed_once;
  peak_seen = v.peak_seen;
  peak = v.peak;
}
step-IsTallied sweeps r n v =
    destroy_each-IsTallied (all_sockets r.sockets) shutdown (record r { timer = false })
      (record {
        opened = v.opened;
        destroyed_once = v.destroyed_once;
        peak_seen = v.peak_seen;
        peak = v.peak;
      })
step-IsTallied (tracks s now) r n v = track-IsTallied s now r n v
step-IsTallied (receives s now) r n v = elim (Option-cases (state_of s r.sockets)) [
  | inl e ↦ rw (step, receive_data, e) v
  | inr (x, e) ↦ rw (step, receive_data, e) (same_mark s x _ r e refl v)
]
step-IsTallied (requests s now) r n v = elim (Option-cases (state_of s r.sockets)) [
  | inl e ↦ rw (step, mark_request, e) v
  | inr (x, e) ↦ rw (step, mark_request, e) (same_mark s x _ r e refl v)
]
step-IsTallied (closes s) r n v = close_socket-IsTallied s r v
step-IsTallied (destroys s reason) r n v = destroy-IsTallied s reason r v
step-IsTallied (evicts now) r n v =
    destroy_each-IsTallied (idle_sockets r.config.idle_timeout_ms now r.sockets) idle r v

-- Only a socket that is not open is tracked.
abbrev pub IsFreshly : List Event → Registry → Type 0
IsFreshly [] r = Unit
IsFreshly (e ∷ es) r = IsNew e r × IsFreshly es (step e r)

pub run-IsTallied :
    (es : List Event) (r : Registry) → IsFreshly es r → IsTallied r → IsTallied (run es r)
unfolding run
run-IsTallied [] r i v = v
run-IsTallied (e ∷ es) r (n, i) v = run-IsTallied es (step e r) i (step-IsTallied e r n v)

pub marked_le : (m : List (ℕ × SocketState)) → marked m ≤ length m
marked_le [] = omega arith
marked_le ((s, x) ∷ m) = ground (arith, marked_le m)

pub new_registry-IsTallied : (c : RegistryConfig) → IsTallied (new_registry c)
unfolding new_registry
new_registry-IsTallied c = record {
  opened = omega arith;
  destroyed_once = omega arith;
  peak_seen = omega arith;
  peak = omega arith;
}
