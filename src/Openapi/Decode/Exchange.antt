-- ===== src/Openapi/Decode/Exchange.antt =====
-- docs/api/openapi.yaml against internal/httpapi/clips.go: a text that is posted in the document's JSON, and
-- the JSON that a later read of it gets.
use go_clipboard.Base.{
  ℕ, ◌≤◌, ◌≡◌, refl, ap, sym, ◌∙◌, Bool, true, false, Bytes, Option, none, some, arith, length, ltb,
  if◌then◌else◌,
}
use go_clipboard.Clock.{Time}
use go_clipboard.Slug.Rules.{IsSlug}
use go_clipboard.Clips.{Clip, max_body_bytes}
use go_clipboard.Clips.Store.{Store, IsStore}
use go_clipboard.Json.{text, object, Members, find}
use go_clipboard.Json.Schema.{conforms}
use go_clipboard.Http.{Request, Response, write_json, write_error, create_response, read_response}
use go_clipboard.Http.Clips.{max_create_body_bytes, create_clip, get_clip}
use go_clipboard.Http.Clips.Replies.{get_clip-create_clip}
use go_clipboard.Openapi.{payload_json, create_json, read_json, error_json}
use go_clipboard.Openapi.Document.{create_request_schema}
use go_clipboard.Openapi.Decode.{body_name, slug_name, json_decode, Scanned, first_value}
use go_clipboard.Openapi.Decode.Conforming.{is_unique}
use go_clipboard.Openapi.Decode.Accepted.{
  decode_value-documented, json_decode-documented, create_clip-documented,
}

-- The JSON of what a read that is answered so gets.
read_payload :
    (format : Time → Bytes) (live : Bool) (slug body : Bytes) (expires server_time : Time)
    → payload_json format
        (if live
          then write_json 200 (read_response slug body expires server_time)
          else write_error 404 "not_found" "resource not found").body
      ≡ (if live
          then some (read_json format slug body expires server_time)
          else some (error_json format "not_found" "resource not found"))
unfolding payload_json write_json write_error
read_payload format true slug body expires server_time = refl
read_payload format false slug body expires server_time = refl

module _ (fold : Bytes → Bytes) (is_date_time : Bytes → Bool) (format : Time → Bytes) {S : Type 0}
    (st : Store S) (IsValid : S → Type 0) (view : Time → Bytes → S → Option Clip)
    (keep : Time → Time) (law : IsStore st IsValid view keep) (scan : ℕ → Bytes → Scanned) where
  -- A text that is posted in the document's JSON is what a later read holds in the document's JSON. Let the
  -- text of a POST be one JSON object within the limit of bytes and nothing after it, which conforms to
  -- the API document's schema of a request and has no name twice; let its slug keep the rules of slugs
  -- and be free, and its body be not too long. Over a store that keeps its contract the answer is 201,
  -- with the JSON of the slug and an expiry, and until that expiry a GET of the slug is answered by
  -- the JSON of the slug, the body, the expiry and the server's time, and by that of an error from then on.
  pub get_clip-documented :
      (members : Members) (now db_now later server_time : Time) (r : Request) (s : S)
      (slug body : Bytes)
      → conforms is_date_time create_request_schema (object members) ≡ true
      → is_unique members ≡ true
      → IsValid s
      → scan max_create_body_bytes r.body ≡ first_value (object members) true
      → find slug_name members ≡ some (text slug)
      → find body_name members ≡ some (text body)
      → IsSlug slug
      → length body ≤ max_body_bytes
      → view db_now slug s ≡ none
      → let (answer, s') = create_clip st (json_decode fold scan) now db_now r s in
        (answer.status ≡ 201)
        × ((expires : Time) × (payload_json format answer.body
              ≡ some (create_json format slug expires))
            × (payload_json format (get_clip st server_time later slug s').body ≡ (
                if ltb later expires
                then some (read_json format slug body expires server_time)
                else some (error_json format "not_found" "resource not found"))))
  unfolding payload_json
  get_clip-documented members now db_now later server_time r s slug body documented unique valid
        scanned slug_is body_is named short free =
      let (req, d, decodes, slug_eq, body_eq, lifetime) =
        decode_value-documented fold is_date_time members documented unique in
      let same_slug : req.slug ≡ slug = ground (arith, slug_is, slug_eq) in
      let same_body : req.body ≡ body = ground (arith, body_is, body_eq) in
      let created =
        create_clip-documented fold is_date_time members documented unique st IsValid view keep law
          scan now db_now r s slug body valid scanned slug_is body_is named short free in
      let (expires, told, found) =
        get_clip-create_clip st IsValid view keep law (json_decode fold scan) now db_now r s valid
          req later server_time
          (json_decode-documented fold is_date_time members documented unique st IsValid view keep
            law scan max_create_body_bytes r.body req scanned decodes)
          created in
      let after = (create_clip st (json_decode fold scan) now db_now r s).1 in
      (
        created,
        (
          expires,
          ap (payload_json format) (told ∙ ap (λ x. create_response x expires) same_slug),
          ap (λ x. payload_json format (get_clip st server_time later x after).body) (sym same_slug)
              ∙ ap (λ (x : Response). payload_json format x.body) found
              ∙ read_payload format (ltb later expires) req.slug req.body expires server_time
              ∙ (λ i.
                  if ltb later expires
                  then some (read_json format (same_slug i) (same_body i) expires server_time)
                  else some (error_json format "not_found" "resource not found")),
        ),
      )
