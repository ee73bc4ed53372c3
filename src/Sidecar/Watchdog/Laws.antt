-- ===== src/Sidecar/Watchdog/Laws.antt =====
-- sidecar/runtime_watchdog.mjs: when decisions are accepted.
use aegisone_core.Prelude.{
  ℕ, ◌-◌, ◌<◌, ◌≡◌, ◌↔◌, ◌⊎◌, refl, true, false, List, [], ◌∷◌, Option, none, some, arith, if-cases,
}
use aegisone_core.Sidecar.Watchdog.{
  WatchdogConfig, WatchdogState, Watchdog, RuntimeSnapshot, can_accept_decisions, assess, tick,
  Event, starts, stops, beats, intervenes, degrades, clears, fails, ticks, step, run,
}

assess-fatal :
    (c : WatchdogConfig) (lag : ℕ) (n : RuntimeSnapshot) (s : WatchdogState)
    → s.fatal ≡ true
    → (assess c lag n s).fatal ≡ true
unfolding assess
assess-fatal c lag n s h = ground (arith, h)

step-fatal : (e : Event) (w : Watchdog) → w.state.fatal ≡ true → (step e w).state.fatal ≡ true
unfolding step tick
step-fatal (starts now) w h = h
step-fatal stops w h = h
step-fatal (beats label now) w h = h
step-fatal intervenes w h = h
step-fatal (degrades reason) w h = h
step-fatal clears w h = h
step-fatal (fails reason) w h = refl
step-fatal (ticks now n) w h =
    if-cases (λ v. v.state.fatal ≡ true) w.timer (tick now n w) w
      (λ e. assess-fatal w.config _ n _ h) (λ e. h)

run-fatal : (es : List Event) (w : Watchdog) → w.state.fatal ≡ true → (run es w).state.fatal ≡ true
unfolding run
run-fatal [] w h = h
run-fatal (e ∷ es) w h = run-fatal es (step e w) (step-fatal e w h)

-- Once the watchdog is fatal, nothing that happens makes it accept decisions again.
pub run-never_accepts :
    (es : List Event) (w : Watchdog)
    → w.state.fatal ≡ true
    → can_accept_decisions (run es w) ≡ false
run-never_accepts es w h = let k = run-fatal es w h in ground (arith, k)

-- The open sockets are known to stay below a limit, or not known.
abbrev pub IsBelow : Option ℕ → ℕ → Type 0
IsBelow none limit = Unit
IsBelow (some n) limit = n < limit

-- Lag and sockets stay below all four thresholds.
pub record IsHealthy (w : Watchdog) (now : ℕ) (n : RuntimeSnapshot) : Type 0 where
  pub lag_fatal : now - w.expected_next_tick < w.config.fatal_event_loop_lag_ms
  pub lag : now - w.expected_next_tick < w.config.max_event_loop_lag_ms
  pub sockets_fatal : IsBelow n.open_sockets w.config.fatal_open_sockets
  pub sockets : IsBelow n.open_sockets w.config.max_open_sockets

-- After a tick decisions are accepted exactly when lag and sockets are below their thresholds, the
-- watchdog never was fatal, and either the receipts have not failed closed or it was not degraded
-- before.
pub tick-accepts_iff :
    (now : ℕ) (n : RuntimeSnapshot) (w : Watchdog)
    → (can_accept_decisions (tick now n w) ≡ true) ↔ (
        IsHealthy w now n
        × (w.state.fatal ≡ false)
        × ((n.receipt_fail_closed ≡ false) ⊎ (w.state.degraded ≡ false)))
unfolding tick assess
tick-accepts_iff now n w = ground arith
