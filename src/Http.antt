-- ===== src/Http.antt =====
-- internal/httpapi: requests, responses and the JSON error format (errors.go).
-- A handler's use of the ResponseWriter is the response that it writes. Header values that the
-- source formats as decimal text or joins by commas are kept as the number or the list.
pub mod Clips
pub mod Health
pub mod ClientIp
pub mod Limiting
pub mod Host
pub mod Server
pub mod Writer
pub mod Middleware
pub mod Mux
pub mod Static
pub mod App
mod Tests
mod ClientTests
mod ServerTests
mod AppTests
mod StaticTests
use go_clipboard.Base.{ℕ, Bool, true, false, Bytes, String, ℤ, List, [], ◌∷◌, Option}
use go_clipboard.Clock.{Time}

pub data Header : Type 0 where
  content_type : String → Header
  retry_after : ℤ → Header
  allow : List Bytes → Header
  content_type_options : String → Header

pub record DatabaseHealth : Type 0 where
  pub reachable : Bool
  pub latency_ms : Option ℤ

pub record MigrationHealth : Type 0 where
  pub pending : Bool
  pub current_version : ℤ

-- The statuses are "ok" and "degraded".
pub data HealthStatus : Type 0 where
  ok degraded : HealthStatus

pub record HealthResponse : Type 0 where
  pub status : HealthStatus
  pub database : DatabaseHealth
  pub migrations : Option MigrationHealth
  pub server_time : Option Time

-- What a handler encodes.
pub data Payload : Type 0 where
  error_response : String → String → Payload
  create_response : Bytes → Time → Payload
  read_response : Bytes → Bytes → Time → Time → Payload
  availability_response : Bytes → Bool → Payload
  health_response : HealthResponse → Payload
  text : Bytes → Payload

pub record Response : Type 0 where
  pub status : ℕ
  pub headers : List Header
  pub body : Payload

-- A request, as far as its handlers read it. The values of headers that are absent are empty. `path`
-- is r.URL.Path; `escaped` are the segments of the escaped path, the last one empty after a slash at the
-- end, and `segments` the same, each unescaped.
pub record Request : Type 0 where
  pub method : Bytes
  pub path : Bytes
  pub escaped : List Bytes
  pub segments : List Bytes
  pub remote_addr : Bytes
  pub host : Bytes
  pub forwarded_for : Bytes
  pub body : Bytes

-- http.Error
unfoldable pub plain_error : Bytes → ℕ → Response
plain_error message status = record {
  status = status;
  headers = content_type "text/plain; charset=utf-8" ∷ content_type_options "nosniff" ∷ [];
  body = text message;
}

unfoldable pub write_json : ℕ → Payload → Response
write_json status body = record {
  status = status;
  headers = content_type "application/json" ∷ [];
  body = body;
}

unfoldable pub write_error : ℕ → String → String → Response
unfolding write_json
write_error status code message = write_json status (error_response code message)

unfoldable pub write_internal_error : Response
unfolding write_error
write_internal_error = write_error 500 "internal_error" "an unexpected error occurred"

unfoldable pub handle_not_found : Response
unfolding write_error
handle_not_found = write_error 404 "not_found" "resource not found"
