-- ===== src/Sidecar/Watchdog.antt =====
-- sidecar/runtime_watchdog.mjs: `RuntimeWatchdog`. Times are whole milliseconds, read by the caller;
-- each public call and each tick of the interval timer is an event.
pub mod Laws
use aegisone_core.Prelude.{
  ℕ, ◌+◌, ◌-◌, Str, lit, Bool, true, false, not, ◌&&◌, ◌||◌, List, [], ◌∷◌, Option, none, some,
  if◌then◌else◌, leb, str_eq,
}
use aegisone_core.Sidecar.Settings.{Setting, positive_integer, or_default, number}

pub record WatchdogConfig : Type 0 where
  pub interval_ms : ℕ
  pub max_event_loop_lag_ms : ℕ
  pub fatal_event_loop_lag_ms : ℕ
  pub max_open_sockets : ℕ
  pub fatal_open_sockets : ℕ

pub record WatchdogSettings : Type 0 where
  pub interval_ms : Setting
  pub max_event_loop_lag_ms : Setting
  pub fatal_event_loop_lag_ms : Setting
  pub max_open_sockets : Setting
  pub fatal_open_sockets : Setting

-- `validateWatchdogConfig`; `none` is its error.
unfoldable pub validate_watchdog_config : WatchdogSettings → Option WatchdogConfig
validate_watchdog_config c =
    let interval_ms = or_default c.interval_ms 250 in
    let max_event_loop_lag_ms = or_default c.max_event_loop_lag_ms 250 in
    let fatal_event_loop_lag_ms = or_default c.fatal_event_loop_lag_ms 2000 in
    let max_open_sockets = or_default c.max_open_sockets 256 in
    let fatal_open_sockets = or_default c.fatal_open_sockets 1024 in
    if positive_integer interval_ms
      && positive_integer max_event_loop_lag_ms
      && positive_integer fatal_event_loop_lag_ms
      && positive_integer max_open_sockets
      && positive_integer fatal_open_sockets
    then some (record {
      interval_ms = number interval_ms;
      max_event_loop_lag_ms = number max_event_loop_lag_ms;
      fatal_event_loop_lag_ms = number fatal_event_loop_lag_ms;
      max_open_sockets = number max_open_sockets;
      fatal_open_sockets = number fatal_open_sockets;
    })
    else none

pub record WatchdogState : Type 0 where
  pub started_at_ms : ℕ
  pub last_heartbeat_ms : ℕ
  pub last_watchdog_ms : ℕ
  pub event_loop_lag_ms : ℕ
  pub degraded : Bool
  pub degraded_reason : Option Str
  pub fatal : Bool
  pub fatal_reason : Option Str
  pub interventions : ℕ
  pub degraded_transitions : ℕ
  pub fatal_transitions : ℕ
  pub endpoint_responsiveness_ms : ℕ

pub record Watchdog : Type 0 where
  pub config : WatchdogConfig
  pub timer : Bool
  pub expected_next_tick : ℕ
  pub state : WatchdogState

-- What the provider of the snapshot tells a tick; the count of sockets may be missing.
pub record RuntimeSnapshot : Type 0 where
  pub open_sockets : Option ℕ
  pub receipt_fail_closed : Bool

-- `constructor`, behind the validation.
unfoldable pub new_watchdog : WatchdogConfig → ℕ → Watchdog
new_watchdog c now = record {
  config = c;
  timer = false;
  expected_next_tick = 0;
  state = record {
    started_at_ms = now;
    last_heartbeat_ms = now;
    last_watchdog_ms = 0;
    event_loop_lag_ms = 0;
    degraded = false;
    degraded_reason = none;
    fatal = false;
    fatal_reason = none;
    interventions = 0;
    degraded_transitions = 0;
    fatal_transitions = 0;
    endpoint_responsiveness_ms = 0;
  };
}

abbrev start : ℕ → Watchdog → Watchdog
start now w = record w {
  timer = true;
  expected_next_tick = if w.timer then w.expected_next_tick else now + w.config.interval_ms;
}

abbrev heartbeat : Str → ℕ → WatchdogState → WatchdogState
heartbeat label now s = record s {
  last_heartbeat_ms = now;
  endpoint_responsiveness_ms =
      if str_eq label (lit "healthz") then now else s.endpoint_responsiveness_ms;
}

abbrev is_reason : Str → Option Str → Bool
is_reason r none = false
is_reason r (some s) = str_eq r s

-- `setDegraded`.
abbrev pub set_degraded : Str → WatchdogState → WatchdogState
set_degraded reason s = record s {
  degraded = true;
  degraded_reason = some reason;
  degraded_transitions =
      s.degraded_transitions
      + (if not s.degraded || not (is_reason reason s.degraded_reason) then 1 else 0);
}

-- `clearDegraded`.
abbrev pub clear_degraded : WatchdogState → WatchdogState
clear_degraded s = record s { degraded = false; degraded_reason = none }

-- `setFatal`.
abbrev pub set_fatal : Str → WatchdogState → WatchdogState
set_fatal reason s = set_degraded reason (record s {
  fatal = true;
  fatal_reason = some reason;
  fatal_transitions =
      s.fatal_transitions + (if not s.fatal || not (is_reason reason s.fatal_reason) then 1 else 0);
})

-- `canAcceptDecisions`.
abbrev pub can_accept_decisions : Watchdog → Bool
can_accept_decisions w = not w.state.degraded && not w.state.fatal

abbrev reaches : Option ℕ → ℕ → Bool
reaches none limit = false
reaches (some n) limit = leb limit n

-- The conclusion of a tick.
unfoldable pub assess : WatchdogConfig → ℕ → RuntimeSnapshot → WatchdogState → WatchdogState
assess c lag snapshot s =
    if leb c.fatal_event_loop_lag_ms lag
    then set_fatal (lit "ERR_EVENT_LOOP_FATAL") s
    else if reaches snapshot.open_sockets c.fatal_open_sockets
    then set_fatal (lit "ERR_SOCKET_ACCUMULATION_FATAL") s
    else if leb c.max_event_loop_lag_ms lag
    then set_degraded (lit "ERR_EVENT_LOOP_LAG") s
    else if reaches snapshot.open_sockets c.max_open_sockets
    then set_degraded (lit "ERR_SOCKET_ACCUMULATION") s
    else if not snapshot.receipt_fail_closed
    then clear_degraded s
    else s

-- `#tick`; the subtraction that stops at 0 is the code's `Math.max(0, ...)`.
unfoldable pub tick : ℕ → RuntimeSnapshot → Watchdog → Watchdog
tick now snapshot w =
    let lag = now - w.expected_next_tick in
    record w {
      expected_next_tick = now + w.config.interval_ms;
      state =
          assess w.config lag snapshot
            (record w.state { last_watchdog_ms = now; event_loop_lag_ms = lag });
    }

pub data Event : Type 0 where
  starts : ℕ → Event
  stops : Event
  beats : Str → ℕ → Event
  intervenes : Event
  degrades : Str → Event
  clears : Event
  fails : Str → Event
  ticks : ℕ → RuntimeSnapshot → Event

-- One event; a tick comes only while the timer is set.
unfoldable pub step : Event → Watchdog → Watchdog
step (starts now) w = start now w
step stops w = record w { timer = false }
step (beats label now) w = record w { state = heartbeat label now w.state }
step intervenes w = record w {
  state = record w.state { interventions = w.state.interventions + 1 };
}
step (degrades reason) w = record w { state = set_degraded reason w.state }
step clears w = record w { state = clear_degraded w.state }
step (fails reason) w = record w { state = set_fatal reason w.state }
step (ticks now snapshot) w = if w.timer then tick now snapshot w else w

unfoldable pub run : List Event → Watchdog → Watchdog
run [] w = w
run (e ∷ es) w = run es (step e w)
