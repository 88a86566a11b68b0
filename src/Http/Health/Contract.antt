-- ===== src/Http/Health/Contract.antt =====
-- internal/httpapi/health.go: what the status code and the blocks of the report stand for.
use go_clipboard.Base.{
  ◌≡◌, ◌≢◌, refl, ◌↔◌, ◌⊎◌, true, false, Option, none, some, Result, ok, err, String, arith,
  Bool-cases, inl, inr, sym, ap, ◌∙◌,
}
use go_clipboard.Clock.{Time}
use go_clipboard.Http.{DatabaseHealth, HealthResponse}
use go_clipboard.Database.{ProbeResult}
use go_clipboard.Migrate.{Status}
use go_clipboard.Http.Health.{
  HealthDependencies, check_pool, check_migrations, check_time, build_health_response,
  health_http_status, handle_health, is_pending, blank,
}

-- The database answered its probe.
abbrev pub IsReachable : Option ProbeResult → Type 0
IsReachable none = ⊥
IsReachable (some probe) = probe.reachable ≡ true

-- The migration check ran, and found nothing to apply.
abbrev pub IsMigrated : Option (Result String Status) → Type 0
IsMigrated none = ⊥
IsMigrated (some (err e)) = ⊥
IsMigrated (some (ok status)) = status.pending ≡ false

-- The server's time could be read.
abbrev pub HasTime : Option (Result String Time) → Type 0
HasTime none = ⊥
HasTime (some (err e)) = ⊥
HasTime (some (ok time)) = time ≢ 0

abbrev deps_of :
    Option ProbeResult
    → Option (Result String Status)
    → Option (Result String Time)
    → HealthDependencies
deps_of pool migrations time = record { pool = pool; migrations = migrations; server_time = time }

-- The blocks that the later parts of the report leave alone.
check_time_keeps :
    (time : Option (Result String Time)) (resp : HealthResponse)
    → ((check_time time resp).database ≡ resp.database)
      × ((check_time time resp).migrations ≡ resp.migrations)
unfolding check_time
check_time_keeps none resp = (refl, refl)
check_time_keeps (some (err e)) resp = (refl, refl)
check_time_keeps (some (ok t)) resp = ground arith

check_migrations_keeps :
    (m : Option (Result String Status)) (resp : HealthResponse)
    → (check_migrations m resp).database ≡ resp.database
unfolding check_migrations
check_migrations_keeps none resp = refl
check_migrations_keeps (some (err e)) resp = refl
check_migrations_keeps (some (ok status)) resp = ground arith

check_pool_iff :
    (pool : Option ProbeResult)
    → ((check_pool pool blank).database.reachable ≡ true) ↔ IsReachable pool
unfolding check_pool
check_pool_iff none = ground arith
check_pool_iff (some probe) = ground arith

check_migrations_iff :
    (m : Option (Result String Status)) (resp : HealthResponse)
    → resp.migrations ≡ none
    → (is_pending (check_migrations m resp).migrations ≡ false) ↔ IsMigrated m
unfolding check_migrations
check_migrations_iff none resp h = (λ e. ground (arith, h, e), λ e. absurd e)
check_migrations_iff (some (err x)) resp h = (λ e. ground (arith, h, e), λ e. absurd e)
check_migrations_iff (some (ok status)) resp h = ground arith

check_pool-blank : (pool : Option ProbeResult) → (check_pool pool blank).migrations ≡ none
unfolding check_pool
check_pool-blank none = refl
check_pool-blank (some probe) = ground arith

build_health_response_lem :
    (deps : HealthDependencies)
    → ((build_health_response deps).database ≡ (check_pool deps.pool blank).database)
      × ((build_health_response deps).migrations
          ≡ (check_migrations deps.migrations (check_pool deps.pool blank)).migrations)
unfolding build_health_response
build_health_response_lem deps =
    let resp = check_migrations deps.migrations (check_pool deps.pool blank) in
    elim (Bool-cases resp.database.reachable) [
      | inl up ↦ rw up (
        (check_time_keeps deps.server_time resp).0
            ∙ check_migrations_keeps deps.migrations (check_pool deps.pool blank),
        (check_time_keeps deps.server_time resp).1,
      )
      | inr down ↦
          rw down (check_migrations_keeps deps.migrations (check_pool deps.pool blank), refl)
    ]

status_iff :
    (resp : HealthResponse)
    → (health_http_status resp ≡ 200)
      ↔ ((resp.database.reachable ≡ true) × (is_pending resp.migrations ≡ false))
unfolding health_http_status
status_iff resp = ground arith

pub status_other :
    (resp : HealthResponse) → (health_http_status resp ≡ 200) ⊎ (health_http_status resp ≡ 503)
unfolding health_http_status
status_other resp = ground arith

-- The health endpoint answers 200 exactly when the database is reachable and the migration check
-- ran and found nothing pending, whatever became of the server's time; it answers 503 otherwise.
pub handle_health_iff :
    (deps : HealthDependencies)
    → (((handle_health deps).status ≡ 200) ↔ (IsReachable deps.pool × IsMigrated deps.migrations))
      × (((handle_health deps).status ≡ 200) ⊎ ((handle_health deps).status ≡ 503))
unfolding handle_health
handle_health_iff deps =
    let (db, mig) = build_health_response_lem deps in
    let up = check_pool_iff deps.pool in
    let current =
      check_migrations_iff deps.migrations (check_pool deps.pool blank)
        (check_pool-blank deps.pool) in
    let status = status_iff (build_health_response deps) in
    (
      (
        λ h.
            let (reached, none_pending) = status.0 h in
            (
              up.0 (sym (ap (λ (d : DatabaseHealth). d.reachable) db) ∙ reached),
              current.0 (sym (ap is_pending mig) ∙ none_pending),
            ),
        λ (reached, migrated). status.1 (
          ap (λ (d : DatabaseHealth). d.reachable) db ∙ up.1 reached,
          ap is_pending mig ∙ current.1 migrated,
        ),
      ),
      status_other (build_health_response deps),
    )
