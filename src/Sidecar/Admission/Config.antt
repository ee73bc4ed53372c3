-- ===== src/Sidecar/Admission/Config.antt =====
-- sidecar/http_admission.mjs: the limits that are read from the environment.
use aegisone_core.Prelude.{
  ℕ, ◌+◌, ◌-◌, ◌*◌, Str, lit, Bool, true, false, ◌&&◌, [], ◌∷◌, Option, none, some, ◌>>=◌,
  if◌then◌else◌, ltb, str_eq, has_str, ◌==◌,
}
use aegisone_core.Js.{trim_start}
use aegisone_core.Json.{Number, nat, minus, safe_limit}
use aegisone_core.Json.Lexer.{is_digit}

-- `process.env`.
abbrev pub Env : Type 0
Env = Str → Option Str

-- The number that the digits at the beginning continue.
unfoldable pub leading_digits : ℕ → Str → ℕ
leading_digits n [] = n
leading_digits n (c ∷ s) = elim (is_digit c) [
  | true ↦ leading_digits (n * 10 + (c - b'0')) s
  | false ↦ n
]

-- A text without a digit at its beginning is not a number.
abbrev unsigned : Str → Option ℕ
unsigned [] = none
unsigned (c ∷ s) = if is_digit c then some (leading_digits 0 (c ∷ s)) else none

abbrev signed : Str → Option Number
signed [] = none
signed (c ∷ s) =
    if c == b'-'
    then map_number minus (unsigned s)
    else map_number nat (unsigned (if c == b'+' then s else c ∷ s))
  where
    map_number : (ℕ → Number) → Option ℕ → Option Number
    map_number f none = none
    map_number f (some n) = some (f n)

-- `Number.parseInt(raw, 10)`; `none` is NaN. It reads the number that the text begins with.
unfoldable pub parse_int : Str → Option Number
unfolding trim_start leading_digits
parse_int raw = signed (trim_start raw)

-- `positiveInteger` of a parsed number.
abbrev pub as_positive : Option Number → Option ℕ
as_positive (some (nat n)) = if ltb 0 n && ltb n safe_limit then some n else none
as_positive _ = none

-- `parseLimit`; `none` is its error.
unfoldable pub parse_limit : Env → Str → ℕ → Option ℕ
parse_limit env name fallback = elim (env name) [
  | none ↦ some fallback
  | some [] ↦ some fallback
  | some (c ∷ s) ↦ as_positive (parse_int (c ∷ s))
]

pub record HttpLimits : Type 0 where
  pub max_active_requests : ℕ
  pub max_active_sockets : ℕ
  pub max_request_body_bytes : ℕ
  pub request_timeout_ms : ℕ
  pub keep_alive_timeout_ms : ℕ
  pub headers_timeout_ms : ℕ
  pub max_requests_per_socket : ℕ

-- `parseHttpLimitConfig`.
unfoldable pub parse_http_limit_config : Env → Option HttpLimits
parse_http_limit_config env = do
  max_active_requests ← parse_limit env (lit "MNDE_HTTP_MAX_ACTIVE_REQUESTS") 96
  max_active_sockets ← parse_limit env (lit "MNDE_HTTP_MAX_ACTIVE_SOCKETS") 128
  max_request_body_bytes ← parse_limit env (lit "MNDE_HTTP_MAX_REQUEST_BODY_BYTES") 1048576
  request_timeout_ms ← parse_limit env (lit "MNDE_HTTP_REQUEST_TIMEOUT_MS") 10000
  keep_alive_timeout_ms ← parse_limit env (lit "MNDE_HTTP_KEEP_ALIVE_TIMEOUT_MS") 1000
  headers_timeout_ms ← parse_limit env (lit "MNDE_HTTP_HEADERS_TIMEOUT_MS") 2000
  max_requests_per_socket ← parse_limit env (lit "MNDE_HTTP_MAX_REQUESTS_PER_SOCKET") 100
  some (record {
    max_active_requests = max_active_requests;
    max_active_sockets = max_active_sockets;
    max_request_body_bytes = max_request_body_bytes;
    request_timeout_ms = request_timeout_ms;
    keep_alive_timeout_ms = keep_alive_timeout_ms;
    headers_timeout_ms = headers_timeout_ms;
    max_requests_per_socket = max_requests_per_socket;
  })

pub record TransportLimits : Type 0 where
  pub enable : Bool
  pub shed_mode : Str
  pub max_connections : ℕ
  pub hybrid_503_connections : ℕ
  pub backlog : ℕ
  pub keepalive_timeout_ms : ℕ
  pub headers_timeout_ms : ℕ

abbrev is_enabled : Option Str → Bool
is_enabled none = true
is_enabled (some s) = str_eq s (lit "1")

abbrev mode_or_503 : Option Str → Str
mode_or_503 none = lit "503"
mode_or_503 (some s) = s

unfoldable pub checked_mode : Option Str → Option Str
checked_mode m =
    let mode = mode_or_503 m in
    if has_str mode (lit "destroy" ∷ lit "503" ∷ lit "hybrid" ∷ []) then some mode else none

-- `parseL0LimitConfig`.
unfoldable pub parse_l0_limit_config : Env → Option TransportLimits
parse_l0_limit_config env = do
  shed_mode ← checked_mode (env (lit "MNDE_L0_SHED_MODE"))
  max_connections ← parse_limit env (lit "MNDE_L0_MAX_CONNECTIONS") 64
  hybrid_503_connections ← parse_limit env (lit "MNDE_L0_HYBRID_503_CONNECTIONS") 72
  backlog ← parse_limit env (lit "MNDE_L0_BACKLOG") 128
  keepalive_timeout_ms ← parse_limit env (lit "MNDE_L0_KEEPALIVE_TIMEOUT_MS") 250
  headers_timeout_ms ← parse_limit env (lit "MNDE_L0_HEADERS_TIMEOUT_MS") 750
  if ltb hybrid_503_connections max_connections
      then none
      else some (record {
        enable = is_enabled (env (lit "MNDE_L0_ENABLE"));
        shed_mode = shed_mode;
        max_connections = max_connections;
        hybrid_503_connections = hybrid_503_connections;
        backlog = backlog;
        keepalive_timeout_ms = keepalive_timeout_ms;
        headers_timeout_ms = headers_timeout_ms;
      })
