-- ===== src/Openapi/Declared.antt =====
-- docs/api/openapi.yaml against internal/httpapi: the handlers answer as the document declares.
use go_clipboard.Base.{
  ◌≡◌, ◌≢◌, refl, ◌⊎◌, inl, inr, Bool, true, Bytes, String, ◌==◌, Option, none, some, Result, ok,
  err, ℤ,
}
use go_clipboard.Clock.{Time, Duration}
use go_clipboard.Clips.{
  Error, invalid_slug, slug_in_use, not_found, body_too_large, invalid_ttl, failure, Clip,
}
use go_clipboard.Clips.Service.{CreateResult}
use go_clipboard.Http.Clips.{write_clip_error, created_response, clip_response, hint_response}
use go_clipboard.Http.Limiting.{too_many_requests}
use go_clipboard.Http.Health.Contract.{status_other}
use go_clipboard.Json.{find}
use go_clipboard.Json.Schema.{conforms, is_closed, is_declared_name}
use go_clipboard.Http.{
  MigrationHealth, HealthStatus, degraded, Response, write_json, write_internal_error,
}
use go_clipboard.Http.Health.{HealthDependencies, handle_health, build_health_response}
use go_clipboard.Http.Server.{Endpoint, health, create, read, availability}
use go_clipboard.Openapi.{health_json, database_json, migration_json}
use go_clipboard.Openapi.Document.{responses, health_schema, is_declared}

module _ (format : Time → Bytes) (is_date_time : Bytes → Bool)
    (printed : (t : Time) → is_date_time (format t) ≡ true) where
  health_conforms :
      (status : HealthStatus) (reachable : Bool) (latency : Option ℤ)
      (migrations : Option MigrationHealth) (time : Option Time)
      → conforms is_date_time health_schema (
          health_json format (record {
            status = status;
            database = record { reachable = reachable; latency_ms = latency };
            migrations = migrations;
            server_time = time;
          }))
        ≡ true
  unfolding conforms is_closed is_declared_name find ◌==◌ health_json database_json migration_json
  health_conforms HealthStatus.ok b none none none = refl
  health_conforms HealthStatus.ok b none none (some t) = rw (printed t) refl
  health_conforms HealthStatus.ok b none (some m) none = refl
  health_conforms HealthStatus.ok b none (some m) (some t) = rw (printed t) refl
  health_conforms HealthStatus.ok b (some z) none none = refl
  health_conforms HealthStatus.ok b (some z) none (some t) = rw (printed t) refl
  health_conforms HealthStatus.ok b (some z) (some m) none = refl
  health_conforms HealthStatus.ok b (some z) (some m) (some t) = rw (printed t) refl
  health_conforms degraded b none none none = refl
  health_conforms degraded b none none (some t) = rw (printed t) refl
  health_conforms degraded b none (some m) none = refl
  health_conforms degraded b none (some m) (some t) = rw (printed t) refl
  health_conforms degraded b (some z) none none = refl
  health_conforms degraded b (some z) none (some t) = rw (printed t) refl
  health_conforms degraded b (some z) (some m) none = refl
  health_conforms degraded b (some z) (some m) (some t) = rw (printed t) refl

  -- A response that the document declares for an endpoint, or the internal error, which it does not.
  abbrev pub IsCovered : Endpoint → Response → Type 0
  IsCovered e resp =
      (is_declared format is_date_time resp (responses e) ≡ true) ⊎ (resp ≡ write_internal_error)

  pub handle_health-IsCovered :
      (deps : HealthDependencies)
      → is_declared format is_date_time (handle_health deps) (responses health) ≡ true
  unfolding is_declared handle_health write_json
  handle_health-IsCovered deps =
      let h = build_health_response deps in
      let body =
        health_conforms h.status h.database.reachable h.database.latency_ms h.migrations
          h.server_time in
      elim (status_other h) [ inl up ↦ rw (up, body) refl | inr down ↦ rw (down, body) refl ]

  write_clip_error-create : (e : Error) → IsCovered create (write_clip_error e)
  unfolding is_declared write_clip_error
  write_clip_error-create (invalid_slug e) = inl refl
  write_clip_error-create body_too_large = inl refl
  write_clip_error-create invalid_ttl = inl refl
  write_clip_error-create slug_in_use = inl refl
  write_clip_error-create not_found = inl refl
  write_clip_error-create (failure message) = inr refl

  write_clip_error-availability :
      (e : Error) → e ≢ slug_in_use → IsCovered availability (write_clip_error e)
  unfolding is_declared write_clip_error
  write_clip_error-availability (invalid_slug e) h = inl refl
  write_clip_error-availability body_too_large h = inl refl
  write_clip_error-availability invalid_ttl h = inl refl
  write_clip_error-availability slug_in_use h = absurd (h refl)
  write_clip_error-availability not_found h = inl refl
  write_clip_error-availability (failure message) h = inr refl

  pub created_response-IsCovered :
      (r : Result Error CreateResult) → IsCovered create (created_response r)
  unfolding is_declared created_response
  created_response-IsCovered (ok r) = inl (rw (printed r.expires_at) refl)
  created_response-IsCovered (err e) = write_clip_error-create e

  pub too_many_requests-create :
      (d : Duration)
      → is_declared format is_date_time (too_many_requests d) (responses create) ≡ true
  unfolding is_declared too_many_requests
  too_many_requests-create d = refl

  pub too_many_requests-availability :
      (d : Duration)
      → is_declared format is_date_time (too_many_requests d) (responses availability) ≡ true
  unfolding is_declared too_many_requests
  too_many_requests-availability d = refl

  pub clip_response-IsCovered :
      (now : Time) (r : Result Error Clip)
      → ((e : Error) → r ≡ err e → (e ≡ not_found) ⊎ ((m : String) × (e ≡ failure m)))
      → IsCovered read (clip_response now r)
  unfolding is_declared clip_response write_clip_error
  clip_response-IsCovered now (ok c) h = inl (rw (printed c.expires_at, printed now) refl)
  clip_response-IsCovered now (err e) h = elim (h e refl) [
    | inl missing ↦ inl (rw missing refl)
    | inr (m, failed) ↦ inr (rw failed refl)
  ]

  pub hint_response-IsCovered :
      (slug : Bytes) (r : Result Error Bool)
      → ((e : Error) → r ≡ err e → e ≢ slug_in_use)
      → IsCovered availability (hint_response slug r)
  unfolding is_declared hint_response
  hint_response-IsCovered slug (ok b) h = inl refl
  hint_response-IsCovered slug (err e) h = write_clip_error-availability e (h e refl)
