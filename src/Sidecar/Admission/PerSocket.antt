-- ===== src/Sidecar/Admission/PerSocket.antt =====
-- sidecar/http_admission.mjs: the requests of one socket, and the limits that are read.
use aegisone_core.Prelude.{
  ℕ, ◌+◌, ◌≤◌, ◌<◌, ◌≡◌, ◌↔◌, refl, Str, lit, true, List, [], ◌∷◌, some, arith, ◌==◌, if◌then◌else◌,
  ◌∙◌, >>=-eq-some,
}
use aegisone_core.Sidecar.Admission.Config.{
  Env, parse_limit, checked_mode, TransportLimits, parse_l0_limit_config,
}
use aegisone_core.Sidecar.Admission.{
  AdmissionLimits, Controller, new_controller, try_acquire_request, release_request,
  try_acquire_socket, release_socket, request_count, set_count, note_socket_request, Call,
  acquires_request, acquires_socket, refusal_recorded, releases_request, releases_socket,
  notes_request, step, run,
}

request_count-set_count :
    (s j n : ℕ) (m : List (ℕ × ℕ))
    → request_count j (set_count s n m) ≡ (if s == j then n else request_count j m)
request_count-set_count s j n [] = refl
request_count-set_count s j n ((t, k) ∷ m) = ground (arith, request_count-set_count s j n m)

abbrev noted : ℕ → Call → ℕ
noted s (notes_request t) = if t == s then 1 else 0
noted s _ = 0

-- How often a history notes a request of the socket.
abbrev pub note_count : ℕ → List Call → ℕ
note_count s [] = 0
note_count s (k ∷ ks) = noted s k + note_count s ks

step-request_count :
    (s : ℕ) (k : Call) (c : Controller)
    → request_count s (step k c).socket_requests ≡ request_count s c.socket_requests + noted s k
unfolding step try_acquire_request try_acquire_socket release_request release_socket
    note_socket_request
step-request_count s acquires_request c = ground arith
step-request_count s acquires_socket c = ground arith
step-request_count s refusal_recorded c = omega arith
step-request_count s (releases_request i) c = ground arith
step-request_count s (releases_socket i) c = ground arith
step-request_count s (notes_request t) c =
    ground
      (arith, request_count-set_count t s (request_count t c.socket_requests + 1) c.socket_requests)

step-limits : (k : Call) (c : Controller) → (step k c).limits ≡ c.limits
unfolding step try_acquire_request try_acquire_socket release_request release_socket
    note_socket_request
step-limits acquires_request c = ground arith
step-limits acquires_socket c = ground arith
step-limits refusal_recorded c = refl
step-limits (releases_request i) c = ground arith
step-limits (releases_socket i) c = ground arith
step-limits (notes_request t) c = ground arith

run-request_count :
    (s : ℕ) (ks : List Call) (c : Controller)
    → (request_count s (run ks c).socket_requests
        ≡ request_count s c.socket_requests + note_count s ks)
      × ((run ks c).limits ≡ c.limits)
unfolding run
run-request_count s [] c = (omega arith, refl)
run-request_count s (k ∷ ks) c =
    let (counted, same) = run-request_count s ks (step k c) in
    (omega (arith, counted, step-request_count s k c), same ∙ step-limits k c)

-- Whatever came before, a request of a socket is let through exactly when the history has noted
-- fewer requests of that socket than the limit.
pub note_socket_request_iff :
    (s : ℕ) (l : AdmissionLimits) (ks : List Call)
    → ((note_socket_request s (run ks (new_controller l))).1 ≡ true)
      ↔ (note_count s ks < l.max_requests_per_socket)
unfolding note_socket_request new_controller
note_socket_request_iff s l ks =
    let (counted, same) = run-request_count s ks (new_controller l) in ground (arith, counted, same)

parse_limit_pos :
    (env : Env) (name : Str) (fallback n : ℕ)
    → 0 < fallback
    → parse_limit env name fallback ≡ some n
    → 0 < n
unfolding parse_limit
parse_limit_pos env name fallback n pos h = ground arith

-- Limits that are read leave room for connections, have positive times, and the hybrid threshold
-- is not below the limit of connections.
pub parse_l0_limit_config-IsOrdered :
    (env : Env) (t : TransportLimits)
    → parse_l0_limit_config env ≡ some t
    → (0 < t.max_connections)
      × (t.max_connections ≤ t.hybrid_503_connections)
      × (0 < t.backlog)
      × (0 < t.keepalive_timeout_ms)
      × (0 < t.headers_timeout_ms)
unfolding parse_l0_limit_config
parse_l0_limit_config-IsOrdered env t h =
    let (mode, _, h1) = >>=-eq-some (checked_mode (env (lit "MNDE_L0_SHED_MODE"))) _ h in
    let (a, e1, h2) = >>=-eq-some (parse_limit env (lit "MNDE_L0_MAX_CONNECTIONS") 64) _ h1 in
    let (b, e2, h3) =
      >>=-eq-some (parse_limit env (lit "MNDE_L0_HYBRID_503_CONNECTIONS") 72) _ h2 in
    let (c, e3, h4) = >>=-eq-some (parse_limit env (lit "MNDE_L0_BACKLOG") 128) _ h3 in
    let (d, e4, h5) = >>=-eq-some (parse_limit env (lit "MNDE_L0_KEEPALIVE_TIMEOUT_MS") 250) _ h4 in
    let (e, e5, h6) = >>=-eq-some (parse_limit env (lit "MNDE_L0_HEADERS_TIMEOUT_MS") 750) _ h5 in
    let p1 = parse_limit_pos env _ 64 a (omega arith) e1 in
    let p3 = parse_limit_pos env _ 128 c (omega arith) e3 in
    let p4 = parse_limit_pos env _ 250 d (omega arith) e4 in
    let p5 = parse_limit_pos env _ 750 e (omega arith) e5 in ground (arith, h6, p1, p3, p4, p5)
