-- ===== src/Examples/Sidecar/Guards.antt =====
-- The watchdog and the admission control at small limits.
use aegisone_core.Prelude.{
  ◌<◌, ◌≤◌, ◌≡◌, ◌↔◌, ◌⊎◌, refl, lit, true, false, List, [], ◌∷◌, none, some, str_eq, if◌then◌else◌,
  has_str,
}
use aegisone_core.Js.{trim_start}
use aegisone_core.Sidecar.Watchdog
use aegisone_core.Sidecar.Watchdog.{
  WatchdogConfig, RuntimeSnapshot, new_watchdog, can_accept_decisions, tick, starts, ticks, clears,
  fails,
}
use aegisone_core.Sidecar.Watchdog.Laws.{IsHealthy, run-never_accepts, tick-accepts_iff}
use aegisone_core.Sidecar.Admission
use aegisone_core.Sidecar.Admission.{
  AdmissionLimits, new_controller, release_request, note_socket_request, Call, acquires_request,
  releases_request, acquires_socket, notes_request, try_acquire_request,
}
use aegisone_core.Sidecar.Admission.Config.{
  Env, leading_digits, parse_int, parse_limit, checked_mode, TransportLimits, parse_l0_limit_config,
}
use aegisone_core.Sidecar.Admission.Laws.{IsCounted, run-new_controller-IsCounted}
use aegisone_core.Sidecar.Admission.PerSocket.{
  note_count, note_socket_request_iff, parse_l0_limit_config-IsOrdered,
}
use aegisone_core.Sidecar.Sockets
use aegisone_core.Sidecar.Sockets.{
  RegistryConfig, new_registry, tracks, receives, evicts, closes, sweeps, track, receive_data,
  destroy_idle, destroy, close_socket,
}
use aegisone_core.Sidecar.Sockets.Laws.{IsTallied, IsFreshly}
use aegisone_core.Sidecar.Sockets.Marks.{for_any, for_idle, for_shutdown}
use aegisone_core.Sidecar.Sockets.Reasons.{newly_marked, run-new_registry-IsTallied}

abbrev watch : WatchdogConfig
watch = record {
  interval_ms = 250;
  max_event_loop_lag_ms = 250;
  fatal_event_loop_lag_ms = 2000;
  max_open_sockets = 256;
  fatal_open_sockets = 1024;
}

abbrev quiet : RuntimeSnapshot
quiet = record { open_sockets = some 3; receipt_fail_closed = false }

run-never_accepts_example :
    can_accept_decisions (
      Watchdog.run
        (starts 5 ∷ ticks 255 quiet ∷ clears ∷ [])
        (Watchdog.step (fails (lit "x")) (new_watchdog watch 1)))
    ≡ false
unfolding Watchdog.step
run-never_accepts_example =
    run-never_accepts (starts 5 ∷ ticks 255 quiet ∷ clears ∷ [])
      (Watchdog.step (fails (lit "x")) (new_watchdog watch 1)) refl

abbrev started : Watchdog.Watchdog
started = Watchdog.step (starts 5) (new_watchdog watch 1)

tick-accepts_iff_example : (can_accept_decisions (tick 300 quiet started) ≡ true) ↔ (
    IsHealthy started 300 quiet
    × (started.state.fatal ≡ false)
    × ((quiet.receipt_fail_closed ≡ false) ⊎ (started.state.degraded ≡ false)))
tick-accepts_iff_example = tick-accepts_iff 300 quiet started

abbrev limits : AdmissionLimits
limits = record { max_active_requests = 1; max_active_sockets = 2; max_requests_per_socket = 2 }

abbrev calls : List Call
calls =
    acquires_request
    ∷ acquires_request
    ∷ releases_request 0
    ∷ releases_request 0
    ∷ acquires_socket
    ∷ notes_request 9
    ∷ []

run-new_controller-IsCounted_example : IsCounted (Admission.run calls (new_controller limits))
run-new_controller-IsCounted_example = run-new_controller-IsCounted limits calls

note_socket_request_iff_example :
    ((note_socket_request 9 (Admission.run calls (new_controller limits))).1 ≡ true)
    ↔ (note_count 9 calls < limits.max_requests_per_socket)
note_socket_request_iff_example = note_socket_request_iff 9 limits calls

-- One setting.
abbrev env : Env
env name = if str_eq name (lit "MNDE_L0_BACKLOG") then some (lit " 12abc") else none

abbrev read_limits : TransportLimits
read_limits = record {
  enable = true;
  shed_mode = lit "503";
  max_connections = 64;
  hybrid_503_connections = 72;
  backlog = 12;
  keepalive_timeout_ms = 250;
  headers_timeout_ms = 750;
}

prefix_test : parse_l0_limit_config env ≡ some read_limits
unfolding parse_l0_limit_config parse_limit parse_int trim_start leading_digits checked_mode has_str
    str_eq
prefix_test = refl

negative_test : parse_limit (λ n. some (lit "-5")) (lit "x") 1 ≡ none
unfolding parse_limit parse_int trim_start leading_digits
negative_test = refl

parse_l0_limit_config-IsOrdered_example :
    (0 < read_limits.max_connections)
    × (read_limits.max_connections ≤ read_limits.hybrid_503_connections)
    × (0 < read_limits.backlog)
    × (0 < read_limits.keepalive_timeout_ms)
    × (0 < read_limits.headers_timeout_ms)
parse_l0_limit_config-IsOrdered_example =
    parse_l0_limit_config-IsOrdered env read_limits prefix_test

abbrev registry : RegistryConfig
registry = record { idle_timeout_ms = 100; eviction_interval_ms = 250; shutdown_grace_ms = 500 }

-- Two sockets, of which the first becomes idle and closes, and a shutdown.
abbrev connections : List Sockets.Event
connections =
    tracks 4 0 ∷ tracks 5 10 ∷ receives 5 90 ∷ evicts 150 ∷ evicts 160 ∷ closes 4 ∷ sweeps ∷ []

connections_test : (Sockets.run connections (new_registry registry)).metrics ≡ record {
  opened = 2;
  closed = 1;
  destroyed = 2;
  idle_destroyed = 1;
  shutdown_destroyed = 1;
  errors = 0;
  max_open = 2;
}
unfolding Sockets.run Sockets.step track receive_data destroy_idle destroy close_socket new_registry
connections_test = refl

connections_fresh : IsFreshly connections (new_registry registry)
unfolding Sockets.run Sockets.step track receive_data destroy_idle destroy close_socket new_registry
connections_fresh = (refl, (refl, (tt, (tt, (tt, (tt, (tt, tt)))))))

run-new_registry-IsTallied_example :
    let r = Sockets.run connections (new_registry registry) in
    IsTallied r
    × (r.metrics.destroyed ≤ r.metrics.opened)
    × (r.metrics.destroyed ≡ newly_marked for_any connections (new_registry registry))
    × (r.metrics.idle_destroyed ≡ newly_marked for_idle connections (new_registry registry))
    × (r.metrics.shutdown_destroyed ≡ newly_marked for_shutdown connections (new_registry registry))
run-new_registry-IsTallied_example =
    run-new_registry-IsTallied registry connections connections_fresh
