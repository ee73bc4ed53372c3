-- ===== src/Sidecar/Admission.antt =====
-- sidecar/http_admission.mjs: `createAdmissionController`. A permit is named by its place in the
-- order of acquisition, and the wait that the code measures is left out.
pub mod Config
pub mod Laws
pub mod PerSocket
use aegisone_core.Prelude.{
  ℕ, zero, suc, ◌+◌, ◌-◌, Bool, true, false, ◌&&◌, List, [], ◌∷◌, ◌++◌, Option, none, some,
  if◌then◌else◌, ltb, leb, ◌==◌, length,
}
use aegisone_core.Sidecar.Settings.{Setting, positive_integer, or_default, number}

pub record AdmissionLimits : Type 0 where
  pub max_active_requests : ℕ
  pub max_active_sockets : ℕ
  pub max_requests_per_socket : ℕ

pub record AdmissionSettings : Type 0 where
  pub max_active_requests : Setting
  pub max_active_sockets : Setting
  pub max_requests_per_socket : Setting

-- The checked limits; `none` is the error.
unfoldable pub admission_limits : AdmissionSettings → Option AdmissionLimits
admission_limits c =
    let max_active_requests = or_default c.max_active_requests 96 in
    let max_active_sockets = or_default c.max_active_sockets 128 in
    let max_requests_per_socket = or_default c.max_requests_per_socket 100 in
    if positive_integer max_active_requests
      && positive_integer max_active_sockets
      && positive_integer max_requests_per_socket
    then some (record {
      max_active_requests = number max_active_requests;
      max_active_sockets = number max_active_sockets;
      max_requests_per_socket = number max_requests_per_socket;
    })
    else none

-- The `released` variables of the permits given so far, and the socket counts of the `WeakMap`.
pub record Controller : Type 0 where
  pub limits : AdmissionLimits
  pub active_requests : ℕ
  pub active_sockets : ℕ
  pub refused_by_admission : ℕ
  pub request_permits : List Bool
  pub socket_permits : List Bool
  pub socket_requests : List (ℕ × ℕ)

unfoldable pub new_controller : AdmissionLimits → Controller
new_controller l = record {
  limits = l;
  active_requests = 0;
  active_sockets = 0;
  refused_by_admission = 0;
  request_permits = [];
  socket_permits = [];
  socket_requests = [];
}

-- Whether a permit is given and not released.
abbrev pub is_held : ℕ → List Bool → Bool
is_held i [] = false
is_held zero (released ∷ ps) = elim released [ true ↦ false | false ↦ true ]
is_held (suc i) (released ∷ ps) = is_held i ps

abbrev pub mark_released : ℕ → List Bool → List Bool
mark_released i [] = []
mark_released zero (released ∷ ps) = true ∷ ps
mark_released (suc i) (released ∷ ps) = released ∷ mark_released i ps

-- The reply of an acquisition is the name of the permit, or nothing where it is refused.
unfoldable pub try_acquire_request : Controller → Controller × Option ℕ
try_acquire_request c =
    if leb c.limits.max_active_requests c.active_requests
    then (record c { refused_by_admission = c.refused_by_admission + 1 }, none)
    else (
      record c {
        active_requests = c.active_requests + 1;
        request_permits = c.request_permits ++ (false ∷ []);
      },
      some (length c.request_permits),
    )

-- `release` of a request's permit.
unfoldable pub release_request : ℕ → Controller → Controller
release_request i c =
    if is_held i c.request_permits
    then record c {
      active_requests = c.active_requests - 1;
      request_permits = mark_released i c.request_permits;
    }
    else c

unfoldable pub try_acquire_socket : Controller → Controller × Option ℕ
try_acquire_socket c =
    if leb c.limits.max_active_sockets c.active_sockets
    then (record c { refused_by_admission = c.refused_by_admission + 1 }, none)
    else (
      record c {
        active_sockets = c.active_sockets + 1;
        socket_permits = c.socket_permits ++ (false ∷ []);
      },
      some (length c.socket_permits),
    )

-- `release` of a socket's permit.
unfoldable pub release_socket : ℕ → Controller → Controller
release_socket i c =
    if is_held i c.socket_permits
    then record c {
      active_sockets = c.active_sockets - 1;
      socket_permits = mark_released i c.socket_permits;
    }
    else c

-- `socketRequests.get(socket) ?? 0`.
abbrev pub request_count : ℕ → List (ℕ × ℕ) → ℕ
request_count s [] = 0
request_count s ((t, n) ∷ m) = if t == s then n else request_count s m

abbrev pub set_count : ℕ → ℕ → List (ℕ × ℕ) → List (ℕ × ℕ)
set_count s n [] = (s, n) ∷ []
set_count s n ((t, k) ∷ m) = if t == s then (s, n) ∷ m else (t, k) ∷ set_count s n m

-- `noteSocketRequest`; the reply is `ok`.
unfoldable pub note_socket_request : ℕ → Controller → Controller × Bool
note_socket_request s c =
    let next = request_count s c.socket_requests + 1 in
    let c' = record c { socket_requests = set_count s next c.socket_requests } in
    if ltb c.limits.max_requests_per_socket next
    then (record c' { refused_by_admission = c.refused_by_admission + 1 }, false)
    else (c', true)

-- `recordAdmissionRefusal`.
abbrev pub record_admission_refusal : Controller → Controller
record_admission_refusal c = record c { refused_by_admission = c.refused_by_admission + 1 }

pub data Call : Type 0 where
  acquires_request acquires_socket refusal_recorded : Call
  releases_request releases_socket notes_request : ℕ → Call

unfoldable pub step : Call → Controller → Controller
step acquires_request c = (try_acquire_request c).0
step acquires_socket c = (try_acquire_socket c).0
step refusal_recorded c = record_admission_refusal c
step (releases_request i) c = release_request i c
step (releases_socket i) c = release_socket i c
step (notes_request s) c = (note_socket_request s c).0

unfoldable pub run : List Call → Controller → Controller
run [] c = c
run (k ∷ ks) c = run ks (step k c)
