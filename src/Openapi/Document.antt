-- ===== src/Openapi/Document.antt =====
-- docs/api/openapi.yaml: the responses that the document declares.
use go_clipboard.Base.{
  ℕ, Bool, true, false, ◌&&◌, ◌||◌, Bytes, ascii, ◌==◌, List, [], ◌∷◌, Option, none, some, pos, eqb,
}
use go_clipboard.Clock.{Time}
use go_clipboard.Json.{Json}
use go_clipboard.Json.Schema.{
  Schema, any_text, date_time, any_boolean, any_integer, one_of, one_integer_of, structure,
  no_properties, property, conforms,
}
use go_clipboard.Http.{Header, content_type, retry_after, allow, Response}
use go_clipboard.Http.Server.{Endpoint, health, create, read, availability}
use go_clipboard.Openapi.{payload_json}

abbrev pub error_schema : Schema
error_schema =
    structure (
      property (ascii "code") true any_text
        (property (ascii "message") true any_text no_properties))

-- The limits of the lengths and the pattern are left to the service's checks.
abbrev pub create_request_schema : Schema
create_request_schema = structure (
    property (ascii "slug") true any_text (
      property (ascii "body") true any_text (
        property (ascii "ttlSeconds") false (one_integer_of (pos 600 ∷ pos 3600 ∷ pos 7200 ∷ []))
          no_properties)))

abbrev pub create_schema : Schema
create_schema = structure (
    property (ascii "slug") true any_text
      (property (ascii "expiresAt") true date_time no_properties))

abbrev pub read_schema : Schema
read_schema = structure (
    property (ascii "slug") true any_text (
      property (ascii "body") true any_text (
        property (ascii "expiresAt") true date_time
          (property (ascii "serverTime") true date_time no_properties))))

abbrev pub availability_schema : Schema
availability_schema = structure (
    property (ascii "slug") true any_text
      (property (ascii "available") true any_boolean no_properties))

abbrev pub database_schema : Schema
database_schema = structure (
    property (ascii "reachable") true any_boolean
      (property (ascii "latencyMs") false any_integer no_properties))

abbrev pub migration_schema : Schema
migration_schema = structure (
    property (ascii "pending") true any_boolean
      (property (ascii "currentVersion") true any_integer no_properties))

abbrev pub health_schema : Schema
health_schema = structure (
    property (ascii "status") true (one_of (ascii "ok" ∷ ascii "degraded" ∷ [])) (
      property (ascii "database") true database_schema (
        property (ascii "migrations") false migration_schema
          (property (ascii "serverTime") false date_time no_properties))))

-- The headers that the document names.
pub data Named : Type 0 where
  no_header with_retry_after with_allow : Named

pub record Declared : Type 0 where
  pub status : ℕ
  pub header : Named
  pub schema : Schema

abbrev pub plain : ℕ → Schema → Declared
plain status schema = record { status = status; header = no_header; schema = schema }

-- #/components/responses
abbrev pub not_found_response : Declared
not_found_response = plain 404 error_schema

abbrev pub method_not_allowed_response : Declared
method_not_allowed_response = record { status = 405; header = with_allow; schema = error_schema }

abbrev pub rate_limited_response : Declared
rate_limited_response = record { status = 429; header = with_retry_after; schema = error_schema }

abbrev pub validation_response : Declared
validation_response = plain 400 error_schema

-- The responses of an operation.
abbrev pub responses : Endpoint → List Declared
responses health =
    plain 200 health_schema
    ∷ plain 503 health_schema
    ∷ method_not_allowed_response
    ∷ not_found_response
    ∷ []
responses create =
    plain 201 create_schema
    ∷ validation_response
    ∷ plain 409 error_schema
    ∷ rate_limited_response
    ∷ method_not_allowed_response
    ∷ not_found_response
    ∷ []
responses read = plain 200 read_schema ∷ not_found_response ∷ method_not_allowed_response ∷ []
responses availability =
    plain 200 availability_schema
    ∷ validation_response
    ∷ rate_limited_response
    ∷ not_found_response
    ∷ method_not_allowed_response
    ∷ []

abbrev pub is_json : Header → Bool
is_json (content_type value) = ascii value == ascii "application/json"
is_json _ = false

abbrev pub is_named : Named → Header → Bool
is_named with_retry_after (retry_after seconds) = true
is_named with_allow (allow methods) = true
is_named _ _ = false

abbrev pub any_header : (Header → Bool) → List Header → Bool
any_header test [] = false
any_header test (h ∷ hs) = test h || any_header test hs

abbrev pub has_named : Named → List Header → Bool
has_named no_header hs = true
has_named with_retry_after hs = any_header (is_named with_retry_after) hs
has_named with_allow hs = any_header (is_named with_allow) hs

module _ (format : Time → Bytes) (is_date_time : Bytes → Bool) where
  abbrev pub conforms_to : Schema → Option Json → Bool
  conforms_to schema none = false
  conforms_to schema (some value) = conforms is_date_time schema value

  -- A response is as declared: its status, the content type, the header, and the body's schema.
  unfoldable pub is_as : Response → Declared → Bool
  unfolding payload_json conforms ◌==◌
  is_as resp d =
      eqb resp.status d.status
      && any_header is_json resp.headers
      && has_named d.header resp.headers
      && conforms_to d.schema (payload_json format resp.body)

  unfoldable pub is_declared : Response → List Declared → Bool
  unfolding is_as
  is_declared resp [] = false
  is_declared resp (d ∷ ds) = is_as resp d || is_declared resp ds
