-- ===== src/Sidecar/Admission/Laws.antt =====
-- sidecar/http_admission.mjs: how many permits are held.
use aegisone_core.Prelude.{
  ℕ, zero, suc, ◌+◌, ◌≤◌, ◌≡◌, refl, Bool, true, false, List, [], ◌∷◌, ◌++◌, arith, if◌then◌else◌,
}
use aegisone_core.Sidecar.Admission.{
  AdmissionLimits, Controller, new_controller, is_held, mark_released, try_acquire_request,
  release_request, try_acquire_socket, release_socket, note_socket_request, Call, acquires_request,
  acquires_socket, refusal_recorded, releases_request, releases_socket, notes_request, step, run,
}

-- The permits that are not released.
abbrev pub held : List Bool → ℕ
held [] = 0
held (released ∷ ps) = (if released then 0 else 1) + held ps

held-grow : (ps : List Bool) → held (ps ++ (false ∷ [])) ≡ held ps + 1
held-grow [] = omega arith
held-grow (p ∷ ps) = omega (arith, held-grow ps)

held-mark_released :
    (i : ℕ) (ps : List Bool) → is_held i ps ≡ true → held (mark_released i ps) + 1 ≡ held ps
held-mark_released i [] h = ground arith
held-mark_released zero (p ∷ ps) h = ground arith
held-mark_released (suc i) (p ∷ ps) h = omega (arith, held-mark_released i ps h)

-- The counts are the permits that are held, and stay within the limits.
pub record IsCounted (c : Controller) : Type 0 where
  pub requests : c.active_requests ≡ held c.request_permits
  pub sockets : c.active_sockets ≡ held c.socket_permits
  pub requests_within : c.active_requests ≤ c.limits.max_active_requests
  pub sockets_within : c.active_sockets ≤ c.limits.max_active_sockets

new_controller-IsCounted : (l : AdmissionLimits) → IsCounted (new_controller l)
unfolding new_controller
new_controller-IsCounted l = record {
  requests = refl;
  sockets = refl;
  requests_within = omega arith;
  sockets_within = omega arith;
}

abbrev IsAfter {ℓ} : {A : Type ℓ} → Controller × A → Type 0
IsAfter r = IsCounted r.0

step-IsCounted : (k : Call) (c : Controller) → IsCounted c → IsCounted (step k c)
unfolding step try_acquire_request try_acquire_socket release_request release_socket
    note_socket_request
step-IsCounted acquires_request c v = ground (arith, held-grow c.request_permits)
step-IsCounted acquires_socket c v = ground (arith, held-grow c.socket_permits)
step-IsCounted refusal_recorded c v = record {
  requests = v.requests;
  sockets = v.sockets;
  requests_within = v.requests_within;
  sockets_within = v.sockets_within;
}
step-IsCounted (releases_request i) c v = ground (arith, held-mark_released i c.request_permits)
step-IsCounted (releases_socket i) c v = ground (arith, held-mark_released i c.socket_permits)
step-IsCounted (notes_request s) c v = ground arith

run-IsCounted : (ks : List Call) (c : Controller) → IsCounted c → IsCounted (run ks c)
unfolding run
run-IsCounted [] c v = v
run-IsCounted (k ∷ ks) c v = run-IsCounted ks (step k c) (step-IsCounted k c v)

-- After any calls on a new controller, the requests and the sockets that it counts as active are
-- the permits that are held, and neither count is above its limit.
pub run-new_controller-IsCounted :
    (l : AdmissionLimits) (ks : List Call) → IsCounted (run ks (new_controller l))
run-new_controller-IsCounted l ks = run-IsCounted ks (new_controller l) (new_controller-IsCounted l)
