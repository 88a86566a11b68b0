-- ===== src/Openapi/Decode.antt =====
-- internal/httpapi/clips.go and internal/openapi: what encoding/json makes of the body of POST /api/clips,
-- with unknown fields disallowed. Parameters: `scan` reads the first JSON value of a body, up to a limit of
-- bytes, and says whether the body then ends; `fold` is the folding of names that encoding/json compares
-- them by when no field has exactly the name.
pub mod Typed
pub mod Conforming
pub mod Lookup
pub mod Documented
pub mod Accepted
pub mod Exchange
use go_clipboard.Base.{
  ℕ, Bool, true, false, not, ◌||◌, Bytes, ascii, ◌==◌, [], ◌+◌, ℤ, pos, negsuc, max_int64, ltb_ℤ,
  leb, ltb, Option, none, some, if◌then◌else◌,
}
use go_clipboard.Json.{
  Json, null, boolean, integer, fraction, text, array, object, Members, no_members, member,
}
use go_clipboard.Http.Clips.{CreateClipRequest, Decoded}
use go_clipboard.Http.Clips

-- The fields of CreateClipRequest, by their tags.
pub data Field : Type 0 where
  body_field slug_field ttl_field : Field

abbrev pub body_name : Bytes
body_name = ascii "body"

abbrev pub slug_name : Bytes
slug_name = ascii "slug"

abbrev pub ttl_name : Bytes
ttl_name = ascii "ttlSeconds"

abbrev pub blank_request : CreateClipRequest
blank_request = record { slug = []; body = []; ttl_seconds = none }

abbrev pub fits_int64 : ℤ → Bool
fits_int64 (pos n) = leb n max_int64
fits_int64 (negsuc n) = leb n max_int64

-- A null leaves a string as it is, and makes a pointer nil.
unfoldable pub set_field : Field → Json → CreateClipRequest → Option CreateClipRequest
set_field slug_field (text s) req = some (record req { slug = s })
set_field slug_field null req = some req
set_field body_field (text s) req = some (record req { body = s })
set_field body_field null req = some req
set_field ttl_field (integer z) req =
    if fits_int64 z then some (record req { ttl_seconds = some z }) else none
set_field ttl_field null req = some (record req { ttl_seconds = none })
set_field field value req = none

-- What scanning gives: the error of the byte limit, another error, or the first value and whether the body
-- ends after it.
pub data Scanned : Type 0 where
  over_limit malformed : Scanned
  first_value : Json → Bool → Scanned

module _ (fold : Bytes → Bytes) where
  abbrev pub folded_field : Bytes → Option Field
  folded_field key =
      if key == fold body_name
      then some body_field
      else if key == fold slug_name
      then some slug_field
      else if key == fold ttl_name
      then some ttl_field
      else none

  unfoldable pub field_of : Bytes → Option Field
  field_of key =
      if key == body_name
      then some body_field
      else if key == slug_name
      then some slug_field
      else if key == ttl_name
      then some ttl_field
      else folded_field (fold key)

  -- A member that no field has the name of is an error, and one of another type too.
  unfoldable pub decode_member : Option Field → Json → CreateClipRequest → Option CreateClipRequest
  unfolding set_field
  decode_member none value req = none
  decode_member (some field) value req = set_field field value req

  unfoldable pub decode_members : Members → CreateClipRequest → Option CreateClipRequest
  unfolding field_of decode_member
  decode_members no_members req = some req
  decode_members (member key value members) req = elim (decode_member (field_of key) value req) [
    | none ↦ none
    | some req' ↦ decode_members members req'
  ]

  unfoldable pub decode_value : Json → Option CreateClipRequest
  unfolding decode_members
  decode_value null = some blank_request
  decode_value (object members) = decode_members members blank_request
  decode_value other = none

  abbrev pub decoded : Option CreateClipRequest → Bool → Decoded
  decoded none eof = Clips.malformed
  decoded (some req) eof = Clips.request req eof

  unfoldable pub decode_scanned : Scanned → Decoded
  unfolding decode_value
  decode_scanned over_limit = Clips.over_limit
  decode_scanned malformed = Clips.malformed
  decode_scanned (first_value v eof) = decoded (decode_value v) eof

  -- The two calls of Decode.
  unfoldable pub json_decode : (ℕ → Bytes → Scanned) → ℕ → Bytes → Decoded
  unfolding decode_scanned
  json_decode scan limit body = decode_scanned (scan limit body)
