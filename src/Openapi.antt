-- ===== src/Openapi.antt =====
-- docs/api/openapi.yaml and internal/openapi: the HTTP contract, the JSON of the responses that internal/httpapi
-- writes, and the server code that is generated from the contract.
pub mod Document
pub mod Declared
pub mod Answers
pub mod Served
pub mod Dispatched
pub mod Runs
pub mod Generated
pub mod Decode
mod Tests
mod DecodeTests
use go_clipboard.Base.{
  ℕ, Bool, true, false, Bytes, ascii, String, ℤ, pos, List, [], ◌∷◌, Option, none, some, eqb, ◌||◌,
}
use go_clipboard.Clock.{Time}
use go_clipboard.Json.{Json, boolean, integer, text, object, Members, no_members, member, optional}
use go_clipboard.Http.{
  DatabaseHealth, MigrationHealth, HealthStatus, HealthResponse, Payload, error_response,
  create_response, read_response, availability_response, health_response,
}
use go_clipboard.Http

abbrev pub map_some : {A B : Type 0} → (A → B) → Option A → Option B
map_some f none = none
map_some f (some a) = some (f a)

abbrev pub status_text : HealthStatus → Bytes
status_text HealthStatus.ok = ascii "ok"
status_text HealthStatus.degraded = ascii "degraded"

-- The JSON of the types that handlers encode, by the tags of their fields. `format` is time.RFC3339Nano.
module _ (format : Time → Bytes) where
  abbrev pub time_json : Time → Json
  time_json t = text (format t)

  unfoldable pub database_json : DatabaseHealth → Json
  database_json d = object (
      member (ascii "reachable") (boolean d.reachable)
        (optional (ascii "latencyMs") (map_some integer d.latency_ms) no_members))

  unfoldable pub migration_json : MigrationHealth → Json
  migration_json m = object (
      member (ascii "pending") (boolean m.pending)
        (member (ascii "currentVersion") (integer m.current_version) no_members))

  unfoldable pub health_json : HealthResponse → Json
  unfolding database_json migration_json
  health_json h = object (
      member (ascii "status") (text (status_text h.status)) (
        member (ascii "database") (database_json h.database) (
          optional (ascii "migrations") (map_some migration_json h.migrations)
            (optional (ascii "serverTime") (map_some time_json h.server_time) no_members))))

  unfoldable pub error_json : String → String → Json
  error_json code message = object (
      member (ascii "code") (text (ascii code))
        (member (ascii "message") (text (ascii message)) no_members))

  unfoldable pub create_json : Bytes → Time → Json
  create_json slug expires = object (
      member (ascii "expiresAt") (time_json expires) (member (ascii "slug") (text slug) no_members))

  unfoldable pub read_json : Bytes → Bytes → Time → Time → Json
  read_json slug body expires now = object (
      member (ascii "body") (text body) (
        member (ascii "expiresAt") (time_json expires) (
          member (ascii "serverTime") (time_json now)
            (member (ascii "slug") (text slug) no_members))))

  unfoldable pub availability_json : Bytes → Bool → Json
  availability_json slug available = object (
      member (ascii "available") (boolean available) (member (ascii "slug") (text slug) no_members))

  -- What is encoded; a plain text is none of it.
  unfoldable pub payload_json : Payload → Option Json
  unfolding error_json create_json read_json availability_json health_json
  payload_json (error_response code message) = some (error_json code message)
  payload_json (create_response slug expires) = some (create_json slug expires)
  payload_json (read_response slug body expires now) = some (read_json slug body expires now)
  payload_json (availability_response slug available) = some (availability_json slug available)
  payload_json (health_response h) = some (health_json h)
  payload_json (Http.text s) = none
