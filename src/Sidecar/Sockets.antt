-- ===== src/Sidecar/Sockets.antt =====
-- sidecar/socket_registry.mjs: `SocketRegistry`. A socket is a number, the map keeps the order of
-- insertion, and the calls of a socket's own methods are left out: what they bring about is an event.
pub mod Laws
pub mod Marks
pub mod Reasons
use aegisone_core.Prelude.{
  ℕ, ◌+◌, ◌-◌, max, Bool, true, false, ◌&&◌, List, [], ◌∷◌, Option, none, some, if◌then◌else◌, ltb,
  ◌==◌, length,
}
use aegisone_core.Sidecar.Settings.{Setting, positive_integer, or_default, number}

pub record RegistryConfig : Type 0 where
  pub idle_timeout_ms : ℕ
  pub eviction_interval_ms : ℕ
  pub shutdown_grace_ms : ℕ

pub record RegistrySettings : Type 0 where
  pub idle_timeout_ms : Setting
  pub eviction_interval_ms : Setting
  pub shutdown_grace_ms : Setting

-- `validateSocketRegistryConfig`; `none` is its error.
unfoldable pub validate_socket_registry_config : RegistrySettings → Option RegistryConfig
validate_socket_registry_config c =
    let idle_timeout_ms = or_default c.idle_timeout_ms 1000 in
    let eviction_interval_ms = or_default c.eviction_interval_ms 250 in
    let shutdown_grace_ms = or_default c.shutdown_grace_ms 500 in
    if positive_integer idle_timeout_ms
      && positive_integer eviction_interval_ms
      && positive_integer shutdown_grace_ms
    then some (record {
      idle_timeout_ms = number idle_timeout_ms;
      eviction_interval_ms = number eviction_interval_ms;
      shutdown_grace_ms = number shutdown_grace_ms;
    })
    else none

pub record SocketState : Type 0 where
  pub id : ℕ
  pub opened_at_ms : ℕ
  pub last_active_at_ms : ℕ
  pub first_byte_at_ms : ℕ
  pub requests : ℕ
  pub destroyed : Bool

pub record SocketMetrics : Type 0 where
  pub opened : ℕ
  pub closed : ℕ
  pub destroyed : ℕ
  pub idle_destroyed : ℕ
  pub shutdown_destroyed : ℕ
  pub errors : ℕ
  pub max_open : ℕ

pub record Registry : Type 0 where
  pub config : RegistryConfig
  pub sockets : List (ℕ × SocketState)
  pub timer : Bool
  pub next_id : ℕ
  pub metrics : SocketMetrics

-- `constructor`, behind the validation.
unfoldable pub new_registry : RegistryConfig → Registry
new_registry c = record {
  config = c;
  sockets = [];
  timer = false;
  next_id = 1;
  metrics = record {
    opened = 0;
    closed = 0;
    destroyed = 0;
    idle_destroyed = 0;
    shutdown_destroyed = 0;
    errors = 0;
    max_open = 0;
  };
}

-- `get`, `set` and `delete` of the map.
abbrev pub state_of : ℕ → List (ℕ × SocketState) → Option SocketState
state_of s [] = none
state_of s ((t, x) ∷ m) = if t == s then some x else state_of s m

abbrev pub set_socket : ℕ → SocketState → List (ℕ × SocketState) → List (ℕ × SocketState)
set_socket s x [] = (s, x) ∷ []
set_socket s x ((t, y) ∷ m) = if t == s then (s, x) ∷ m else (t, y) ∷ set_socket s x m

abbrev pub delete_socket : ℕ → List (ℕ × SocketState) → List (ℕ × SocketState)
delete_socket s [] = []
delete_socket s ((t, y) ∷ m) = if t == s then m else (t, y) ∷ delete_socket s m

-- `track`.
unfoldable pub track : ℕ → ℕ → Registry → Registry
track s now r =
    let state : SocketState = record {
      id = r.next_id;
      opened_at_ms = now;
      last_active_at_ms = now;
      first_byte_at_ms = 0;
      requests = 0;
      destroyed = false;
    } in
    let sockets = set_socket s state r.sockets in
    record r {
      sockets = sockets;
      next_id = r.next_id + 1;
      metrics = record r.metrics {
        opened = r.metrics.opened + 1;
        max_open = max r.metrics.max_open (length sockets);
      };
    }

-- The listener of `close`.
unfoldable pub close_socket : ℕ → Registry → Registry
close_socket s r = elim (state_of s r.sockets) [
  | none ↦ r
  | some x ↦ record r {
    sockets = delete_socket s r.sockets;
    metrics = record r.metrics { closed = r.metrics.closed + 1 };
  }
]

-- The listener of `data`, with `markActive`.
unfoldable pub receive_data : ℕ → ℕ → Registry → Registry
receive_data s now r = elim (state_of s r.sockets) [
  | none ↦ r
  | some x ↦ record r {
    sockets =
        set_socket s
          (record x {
            last_active_at_ms = now;
            first_byte_at_ms = if x.first_byte_at_ms == 0 then now else x.first_byte_at_ms;
          })
          r.sockets;
  }
]

-- `markRequest`.
unfoldable pub mark_request : ℕ → ℕ → Registry → Registry
mark_request s now r = elim (state_of s r.sockets) [
  | none ↦ r
  | some x ↦ record r {
    sockets =
        set_socket s (record x { requests = x.requests + 1; last_active_at_ms = now }) r.sockets;
  }
]

pub data DestroyReason : Type 0 where
  destroyed idle shutdown : DestroyReason

abbrev pub count_destroyed : DestroyReason → SocketMetrics → SocketMetrics
count_destroyed destroyed m = record m { destroyed = m.destroyed + 1 }
count_destroyed idle m = record m {
  destroyed = m.destroyed + 1;
  idle_destroyed = m.idle_destroyed + 1;
}
count_destroyed shutdown m = record m {
  destroyed = m.destroyed + 1;
  shutdown_destroyed = m.shutdown_destroyed + 1;
}

-- `destroy`.
unfoldable pub destroy : ℕ → DestroyReason → Registry → Registry
destroy s reason r = elim (state_of s r.sockets) [
  | none ↦ r
  | some x ↦ if x.destroyed then r else record r {
    sockets = set_socket s (record x { destroyed = true }) r.sockets;
    metrics = count_destroyed reason r.metrics;
  }
]

-- The loops over `values()`.
abbrev pub destroy_each : List ℕ → DestroyReason → Registry → Registry
destroy_each [] reason r = r
destroy_each (s ∷ ss) reason r = destroy_each ss reason (destroy s reason r)

abbrev pub idle_sockets : ℕ → ℕ → List (ℕ × SocketState) → List ℕ
idle_sockets timeout now [] = []
idle_sockets timeout now ((s, x) ∷ m) =
    if ltb timeout (now - x.last_active_at_ms)
    then s ∷ idle_sockets timeout now m
    else idle_sockets timeout now m

abbrev pub all_sockets : List (ℕ × SocketState) → List ℕ
all_sockets [] = []
all_sockets ((s, x) ∷ m) = s ∷ all_sockets m

-- `destroyIdle`.
unfoldable pub destroy_idle : ℕ → Registry → Registry
destroy_idle now r = destroy_each (idle_sockets r.config.idle_timeout_ms now r.sockets) idle r

pub data Event : Type 0 where
  starts stops errs sweeps : Event
  tracks receives requests : ℕ → ℕ → Event
  closes : ℕ → Event
  destroys : ℕ → DestroyReason → Event
  evicts : ℕ → Event

-- One event; `sweeps` is each of the two loops of `shutdown`.
unfoldable pub step : Event → Registry → Registry
step starts r = record r { timer = true }
step stops r = record r { timer = false }
step errs r = record r { metrics = record r.metrics { errors = r.metrics.errors + 1 } }
step sweeps r = destroy_each (all_sockets r.sockets) shutdown (record r { timer = false })
step (tracks s now) r = track s now r
step (receives s now) r = receive_data s now r
step (requests s now) r = mark_request s now r
step (closes s) r = close_socket s r
step (destroys s reason) r = destroy s reason r
step (evicts now) r = destroy_idle now r

unfoldable pub run : List Event → Registry → Registry
run [] r = r
run (e ∷ es) r = run es (step e r)
