-- ===== src/Http/Server.antt =====
-- pkg/http/server.go: the endpoints of the operations server and the state behind them. `net/http`'s
-- listener and its serving are parameters; times are nanoseconds.
pub mod Readiness
pub mod Ready
pub mod CheckRate
use ocis_ftp_bridge.Prelude.{
  ℕ, ◌-◌, Bool, true, false, not, ltb, if◌then◌else◌, Option, none, some, Bytes, codes, List, [],
  ◌∷◌, ◌++◌, Result, ok, err,
}
use ocis_ftp_bridge.Prelude.Map.{Map}
use ocis_ftp_bridge.Http.Auth.{AuthConfig, Request, authenticate}
use ocis_ftp_bridge.Http.Json.{escape_json}
use ocis_ftp_bridge.Http.Health.{
  HealthCheckConfig, CheckRequest, Outside, Metric, Round, perform_health_checks,
}

-- The checks' results and their failures are those of the last round, which ended at `health_cached_at`.
-- `sent` and `metrics` log the requests of the checks and the metrics.
pub record OperationsServer : Type 0 where
  pub address : Bytes
  pub actual_addr : Bytes
  pub started : Bool
  pub healthy : Bool
  pub ready : Bool
  pub config : HealthCheckConfig
  pub auth : AuthConfig
  pub health_cached_at : Option ℕ
  pub health_checks : Map Bytes Bytes
  pub health_failed : List Bytes
  pub sent : List CheckRequest
  pub metrics : List Metric

unfoldable pub new_operations_server : Bytes → AuthConfig → HealthCheckConfig → OperationsServer
new_operations_server address auth config = record {
  address = address;
  actual_addr = [];
  started = false;
  healthy = true;
  ready = true;
  config = config;
  auth = auth;
  health_cached_at = none;
  health_checks = [];
  health_failed = [];
  sent = [];
  metrics = [];
}

-- Five seconds.
abbrev pub health_check_cache_ttl : ℕ
health_check_cache_ttl = 5000000000

-- `time.Since` of the zero time is centuries.
unfoldable pub is_fresh : Option ℕ → ℕ → Bool
is_fresh none now = false
is_fresh (some at) now = ltb (now - at) health_check_cache_ttl

-- The checks of a round, logged.
unfoldable pub checked : Outside → OperationsServer → Round × OperationsServer
unfolding perform_health_checks
checked o s =
    let r = perform_health_checks o s.config in
    (r, record s { sent = s.sent ++ r.sent; metrics = s.metrics ++ r.logged })

-- The clock reads `now` before the checks and `after` behind them.
unfoldable pub cached_health_checks :
    Outside → ℕ → ℕ → OperationsServer → (Map Bytes Bytes × List Bytes) × OperationsServer
unfolding is_fresh checked
cached_health_checks o now after s =
    if is_fresh s.health_cached_at now
    then ((s.health_checks, s.health_failed), s)
    else let (r, s') = checked o s in
      (
        (r.checks, r.failed),
        record s' {
          health_checks = r.checks;
          health_failed = r.failed;
          health_cached_at = some after;
        },
      )

unfoldable pub update_readiness : Outside → OperationsServer → OperationsServer
unfolding checked
update_readiness o s =
    let (r, s') = checked o s in
    record s' { ready = elim r.failed [ [] ↦ true | f ∷ more ↦ false ] }

pub record Response : Type 0 where
  pub status : ℕ
  pub headers : Map Bytes Bytes
  pub body : Bytes

abbrev pub json_type : Bytes × Bytes
json_type = (codes "Content-Type", codes "application/json; charset=utf-8")

abbrev pub text_type : Bytes × Bytes
text_type = (codes "Content-Type", codes "text/plain; charset=utf-8")

-- http.Error
abbrev pub http_error : Map Bytes Bytes → Bytes → ℕ → Response
http_error headers text status = record {
  status = status;
  headers = headers ++ text_type ∷ (codes "X-Content-Type-Options", codes "nosniff") ∷ [];
  body = text ++ 10 ∷ [];
}

abbrev pub quoted : Bytes → Bytes
quoted text = 34 ∷ text ++ 34 ∷ []

-- The texts with commas between them.
unfoldable pub with_commas : List Bytes → Bytes
with_commas [] = []
with_commas (f ∷ []) = f
with_commas (f ∷ g ∷ fs) = f ++ b',' ∷ with_commas (g ∷ fs)

unfoldable pub error_texts : List Bytes → List Bytes
unfolding escape_json
error_texts [] = []
error_texts (e ∷ more) = quoted (escape_json e) ∷ error_texts more

unfoldable pub check_texts : Map Bytes Bytes → List Bytes
check_texts [] = []
check_texts ((check, status) ∷ more) = (quoted check ++ b':' ∷ quoted status) ∷ check_texts more

-- The checks stand in the order of the map here; Go's order is any.
unfoldable pub checks_json : Map Bytes Bytes → Bytes
unfolding with_commas check_texts
checks_json checks = b'{' ∷ with_commas (check_texts checks) ++ b'}' ∷ []

unfoldable pub errors_json : List Bytes → Bytes
unfolding with_commas error_texts
errors_json failed = b'[' ∷ with_commas (error_texts failed) ++ b']' ∷ []

-- The names of the JSON fields, in their quotes.
abbrev pub field : Bytes → Bytes
field name = quoted name ++ b':' ∷ []

-- The answer of /readyz after the checks; `timestamp` is the time in its quotes.
unfoldable pub report : Bytes → Map Bytes Bytes → List Bytes → Response
unfolding checks_json errors_json
report timestamp checks [] = record {
  status = 200;
  headers = json_type ∷ [];
  body =
      b'{' ∷ field (codes "status")
      ++ quoted (codes "ready")
      ++ b',' ∷ field (codes "checks")
      ++ checks_json checks
      ++ b',' ∷ field (codes "timestamp")
      ++ timestamp
      ++ b'}' ∷ [];
}
report timestamp checks (e ∷ failed) = record {
  status = 503;
  headers = json_type ∷ [];
  body =
      b'{' ∷ field (codes "status")
      ++ quoted (codes "not_ready")
      ++ b',' ∷ field (codes "checks")
      ++ checks_json checks
      ++ b',' ∷ field (codes "errors")
      ++ errors_json (e ∷ failed)
      ++ b',' ∷ field (codes "timestamp")
      ++ timestamp
      ++ b'}' ∷ [];
}

-- A handler of `http.ServeMux`.
abbrev pub Handler : Type 0
Handler = Request → OperationsServer → Response × OperationsServer

unfoldable pub unauthorized : Response
unauthorized =
    http_error
      ((codes "WWW-Authenticate", codes "Basic realm=" ++ quoted (codes "ocis-ftp-bridge")) ∷ [])
      (codes "Unauthorized") 401

unfoldable pub middleware : AuthConfig → Handler → Handler
unfolding unauthorized
middleware c next r s =
    if not c.enabled then next r s else (if authenticate c r then next r s else (unauthorized, s))

-- Liveness.
unfoldable pub healthz : Bytes → Handler
healthz timestamp r s =
    if not s.healthy then (http_error [] (codes "Service is unhealthy") 503, s) else (
      record {
        status = 200;
        headers = json_type ∷ [];
        body =
            b'{' ∷ field (codes "status")
            ++ quoted (codes "live")
            ++ b',' ∷ field (codes "timestamp")
            ++ timestamp
            ++ b'}' ∷ [];
      },
      s,
    )

unfoldable pub serve_readiness : Outside → ℕ → ℕ → Bytes → Handler
serve_readiness o now after timestamp r s =
    if not s.ready
    then (
      record {
        status = 503;
        headers = text_type ∷ [];
        body = codes "Service is not ready to accept traffic";
      },
      s,
    )
    else let ((checks, failed), s') = cached_health_checks o now after s in
      (report timestamp checks failed, s')

unfoldable pub readyz : Outside → ℕ → ℕ → Bytes → Handler
readyz o now after timestamp r s = middleware s.auth (serve_readiness o now after timestamp) r s

-- `page` is what the Prometheus handler writes.
unfoldable pub metrics_page : (List Metric → Bytes) → Handler
metrics_page page r s =
    middleware s.auth (λ q t. (record { status = 200; headers = []; body = page t.metrics }, t)) r s

pub data RunError : Type 0 where
  already_started listen_failed shutdown_failed : RunError

-- `listen` is the address that the listener got; `none` is an error.
unfoldable pub run : (Bytes → Option Bytes) → OperationsServer → Option RunError × OperationsServer
run listen s = if s.started then (some already_started, s) else elim (listen s.address) [
  | none ↦ (some listen_failed, record s { started = false })
  | some addr ↦ (none, record s { started = true; actual_addr = addr })
]

-- `shuts` tells whether `Shutdown` succeeds.
unfoldable pub stop : Bool → OperationsServer → Option RunError × OperationsServer
stop shuts s =
    if not s.started
    then (none, s)
    else (if shuts then (none, record s { started = false }) else (some shutdown_failed, s))

unfoldable pub set_healthy : Bool → OperationsServer → OperationsServer
set_healthy healthy s = record s { healthy = healthy }

unfoldable pub set_ready : Bool → OperationsServer → OperationsServer
set_ready ready s = record s { ready = ready }
