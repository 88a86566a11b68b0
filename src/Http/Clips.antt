-- ===== src/Http/Clips.antt =====
-- internal/httpapi/clips.go: the handlers of the clip endpoints.
-- Decoding of JSON is a parameter: what the two calls of `dec.Decode` make of a request body that is
-- read through http.MaxBytesReader with a limit.
pub mod Replies
use go_clipboard.Base.{
  ℕ, ◌+◌, Bool, true, false, not, Bytes, ◌==◌, [], ◌∷◌, String, ℤ, pos, Option, none, some, Result,
  ok, err, if◌then◌else◌,
}
use go_clipboard.Clock.{Time, Duration}
use go_clipboard.Clips.{
  Error, invalid_slug, slug_in_use, not_found, body_too_large, invalid_ttl, failure, Clip,
  max_body_bytes, ttl_from_seconds,
}
use go_clipboard.Clips.Store.{Store}
use go_clipboard.Clips.Service.{CreateInput, CreateResult, create, read, availability}
use go_clipboard.Http.{
  Response, Request, write_json, write_error, write_internal_error, create_response, read_response,
  availability_response,
}

abbrev pub max_create_body_bytes : ℕ
max_create_body_bytes = max_body_bytes + 4096

-- openapi.CreateClipRequest
pub record CreateClipRequest : Type 0 where
  pub slug : Bytes
  pub body : Bytes
  pub ttl_seconds : Option ℤ

-- What the first `Decode` returns: the error of the byte limit, another error, or a request; and
-- whether the second one then returns io.EOF.
pub data Decoded : Type 0 where
  over_limit malformed : Decoded
  request : CreateClipRequest → Bool → Decoded

unfoldable pub too_large : Response
unfolding write_error
too_large = write_error 400 "body_too_large" "clip body must be at most 256 KiB"

unfoldable pub invalid_body : Response
unfolding write_error
invalid_body =
    write_error 400 "invalid_body" "request body must be valid JSON with slug and body fields"

unfoldable pub bad_ttl : Response
unfolding write_error
bad_ttl = write_error 400 "invalid_ttl" "lifetime must be 10 minutes, 1 hour, or 2 hours"

unfoldable pub slug_required : Response
unfolding write_error
slug_required = write_error 400 "invalid_slug" "slug is required"

unfoldable pub write_clip_error : Error → Response
unfolding write_error too_large bad_ttl write_internal_error
write_clip_error (invalid_slug e) = write_error 400 e.code e.message
write_clip_error body_too_large = too_large
write_clip_error invalid_ttl = bad_ttl
write_clip_error slug_in_use = write_error 409 "slug_in_use" "that name is in use right now"
write_clip_error not_found = write_error 404 "not_found" "resource not found"
write_clip_error (failure message) = write_internal_error

-- `in.TTL`: zero if the request names no lifetime.
unfoldable pub requested_ttl : Option ℤ → Result Error Duration
requested_ttl none = ok (pos 0)
requested_ttl (some seconds) = ttl_from_seconds seconds

unfoldable pub created_response : Result Error CreateResult → Response
unfolding write_json write_clip_error
created_response (ok r) = write_json 201 (create_response r.slug r.expires_at)
created_response (err e) = write_clip_error e

module _ {S : Type 0} (st : Store S) (decode : ℕ → Bytes → Decoded) where
  -- `CreateClip` once the request is decoded and its lifetime known.
  unfoldable pub create_decoded :
      Time → Time → CreateClipRequest → Result Error Duration → S → Response × S
  unfolding created_response bad_ttl
  create_decoded now db_now req (err e) s = (bad_ttl, s)
  create_decoded now db_now req (ok ttl) s =
      let (r, s') =
        create st now db_now (record { slug = req.slug; body = req.body; ttl = ttl }) s in
      (created_response r, s')

  unfoldable pub create_from : Time → Time → Decoded → S → Response × S
  unfolding too_large invalid_body
  create_from now db_now over_limit s = (too_large, s)
  create_from now db_now malformed s = (invalid_body, s)
  create_from now db_now (request req eof) s =
      if not eof
      then (invalid_body, s)
      else create_decoded now db_now req (requested_ttl req.ttl_seconds) s

  unfoldable pub create_clip : Time → Time → Request → S → Response × S
  create_clip now db_now r s = create_from now db_now (decode max_create_body_bytes r.body) s

-- The answer of `GetClip`; `now` is what the clock of the service shows after the read.
unfoldable pub clip_response : Time → Result Error Clip → Response
unfolding write_json write_clip_error
clip_response now (ok c) = write_json 200 (read_response c.slug c.body c.expires_at now)
clip_response now (err e) = write_clip_error e

unfoldable pub hint_response : Bytes → Result Error Bool → Response
unfolding write_json write_clip_error
hint_response slug (ok b) = write_json 200 (availability_response slug b)
hint_response slug (err e) = write_clip_error e

module _ {S : Type 0} (st : Store S) where
  unfoldable pub get_clip : Time → Time → Bytes → S → Response
  unfolding slug_required
  get_clip now db_now slug s =
      if slug == [] then slug_required else clip_response now (read st db_now slug s)

  unfoldable pub get_clip_availability : Time → Bytes → S → Response
  unfolding slug_required
  get_clip_availability db_now slug s =
      if slug == [] then slug_required else hint_response slug (availability st db_now slug s)
