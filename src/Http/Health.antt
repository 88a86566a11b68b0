-- ===== src/Http/Health.antt =====
-- internal/httpapi/health.go: the health report and the status code that it maps to.
-- What the dependencies return when they are called are arguments; `none` is a nil dependency.
pub mod Contract
use go_clipboard.Base.{
  ℕ, ◌+◌, ◌-◌, Bool, true, false, not, ◌||◌, ◌&&◌, Option, none, some, ℤ, pos, negsuc, Result, ok,
  err, String, if◌then◌else◌, ◌/◌, eqb,
}
use go_clipboard.Clock.{Time, Duration}
use go_clipboard.Database.{ProbeResult}
use go_clipboard.Migrate.{Status}
use go_clipboard.Http.{
  HealthStatus, degraded, DatabaseHealth, MigrationHealth, HealthResponse, Response, write_json,
  health_response,
}

-- What `Probe`, `CheckPending` and `ServerTime` would return.
pub record HealthDependencies : Type 0 where
  pub pool : Option ProbeResult
  pub migrations : Option (Result String Status)
  pub server_time : Option (Result String Time)

-- d.Milliseconds(), truncated towards zero.
unfoldable pub milliseconds : Duration → ℤ
milliseconds (pos n) = pos (n / 1000000)
milliseconds (negsuc n) =
    if eqb ((n + 1) / 1000000) 0 then pos 0 else negsuc ((n + 1) / 1000000 - 1)

-- The three blocks of `buildHealthResponse`: each fills its part, and may set the status.
unfoldable pub check_pool : Option ProbeResult → HealthResponse → HealthResponse
unfolding milliseconds
check_pool none resp = record resp { status = degraded }
check_pool (some probe) resp =
    if probe.reachable
    then record resp {
      database = record { reachable = true; latency_ms = some (milliseconds probe.latency) };
    }
    else record resp { database = record resp.database { reachable = false }; status = degraded }

unfoldable pub check_migrations : Option (Result String Status) → HealthResponse → HealthResponse
check_migrations none resp = record resp { status = degraded }
check_migrations (some (err e)) resp = record resp { status = degraded }
check_migrations (some (ok status)) resp =
    let filled = record resp {
      migrations =
          some (record { pending = status.pending; current_version = status.current_version });
    } in
    if status.pending then record filled { status = degraded } else filled

unfoldable pub check_time : Option (Result String Time) → HealthResponse → HealthResponse
check_time none resp = record resp { status = degraded }
check_time (some (err e)) resp = record resp { status = degraded }
check_time (some (ok time)) resp =
    if eqb time 0
    then record resp { status = degraded }
    else record resp { server_time = some time }

abbrev pub blank : HealthResponse
blank = record {
  status = HealthStatus.ok;
  database = record { reachable = false; latency_ms = none };
  migrations = none;
  server_time = none;
}

unfoldable pub build_health_response : HealthDependencies → HealthResponse
unfolding check_pool check_migrations check_time
build_health_response deps =
    let resp = check_migrations deps.migrations (check_pool deps.pool blank) in
    if resp.database.reachable then check_time deps.server_time resp else resp

abbrev pub is_pending : Option MigrationHealth → Bool
is_pending none = true
is_pending (some m) = m.pending

unfoldable pub health_http_status : HealthResponse → ℕ
health_http_status resp =
    if not resp.database.reachable then 503 else if is_pending resp.migrations then 503 else 200

-- The handler of GET /api/health.
unfoldable pub handle_health : HealthDependencies → Response
unfolding build_health_response health_http_status write_json
handle_health deps =
    let resp = build_health_response deps in
    write_json (health_http_status resp) (health_response resp)

-- openapiServer.GetHealth, in internal/httpapi/clips.go, which no route calls.
unfoldable pub get_health : HealthDependencies → Response
unfolding build_health_response write_json
get_health deps = write_json 200 (health_response (build_health_response deps))
