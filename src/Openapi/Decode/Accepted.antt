-- ===== src/Openapi/Decode/Accepted.antt =====
-- docs/api/openapi.yaml against internal/httpapi/clips.go: a request that the document describes is accepted.
use go_clipboard.Base.{
  ℕ, ◌≤◌, ◌≡◌, refl, ap, subst, sym, ◌∙◌, Bool, true, Bytes, [], Option, none, some, arith, length,
}
use go_clipboard.Clock.{Time, Duration}
use go_clipboard.Slug.Rules.{IsSlug}
use go_clipboard.Clips.{Clip, max_body_bytes}
use go_clipboard.Clips.Store.{Store, IsStore}
use go_clipboard.Json.{text, object, Members, find}
use go_clipboard.Json.Schema.{conforms}
use go_clipboard.Http.{Request}
use go_clipboard.Http.Clips.{CreateClipRequest, request, max_create_body_bytes, create_clip}
use go_clipboard.Http.Clips.Replies.{create_clip-201_iff}
use go_clipboard.Openapi.Document.{create_request_schema}
use go_clipboard.Openapi.Decode
use go_clipboard.Openapi.Decode.{
  body_name, slug_name, ttl_name, decode_value, json_decode, decode_scanned, Scanned, first_value,
}
use go_clipboard.Openapi.Decode.Typed.{decode_value_iff}
use go_clipboard.Openapi.Decode.Conforming.{is_unique, all_documented_lem}
use go_clipboard.Openapi.Decode.Lookup.{integer_or, text_or, last_of-find, all_documented-typed}
use go_clipboard.Openapi.Decode.Documented.{IsResolved, conforming, lifetime_lem}

module _ (fold : Bytes → Bytes) (is_date_time : Bytes → Bool) (members : Members)
    (documented : conforms is_date_time create_request_schema (object members) ≡ true)
    (unique : is_unique members ≡ true) where
  -- An object that conforms to the document's schema of a request to create a clip, and has no name
  -- twice, is decoded to a request with its slug and its body, and with a lifetime that is allowed.
  pub decode_value-documented :
      (req : CreateClipRequest) × (d : Duration) × (decode_value fold (object members) ≡ some req)
      × (find slug_name members ≡ some (text req.slug))
      × (find body_name members ≡ some (text req.body))
      × IsResolved req d
  decode_value-documented =
      let ((slug, s), (body, b), ttl, known) = conforming is_date_time members documented in
      let typed =
        all_documented-typed fold members
          (all_documented_lem members unique known (rw b refl) (rw s refl) ttl) in
      let (d, lifetime) = lifetime_lem (find ttl_name members) slug body ttl in
      (
        record { slug = slug; body = body; ttl_seconds = integer_or none (find ttl_name members) },
        d,
        (decode_value_iff fold members _).1 (
          typed,
          sym (
              last_of-find fold members known unique ∙ (λ i. record {
                slug = text_or [] (s i);
                body = text_or [] (b i);
                ttl_seconds = integer_or none (find ttl_name members);
              })),
        ),
        s,
        b,
        lifetime,
      )

  module _ {S : Type 0} (st : Store S) (IsValid : S → Type 0)
      (view : Time → Bytes → S → Option Clip) (keep : Time → Time)
      (law : IsStore st IsValid view keep) (scan : ℕ → Bytes → Scanned) where
    -- The handler's decoder, on a text that is the object and nothing else.
    pub json_decode-documented :
        (limit : ℕ) (sent : Bytes) (req : CreateClipRequest)
        → scan limit sent ≡ first_value (object members) true
        → decode_value fold (object members) ≡ some req
        → json_decode fold scan limit sent ≡ request req true
    unfolding json_decode decode_scanned
    json_decode-documented limit sent req scanned decodes =
        ap (decode_scanned fold) scanned ∙ ap (λ o. Decode.decoded fold o true) decodes

    -- It is accepted if its slug and its body are, and the slug is free.
    pub create_clip-documented :
        (now db_now : Time) (r : Request) (s : S) (slug body : Bytes)
        → IsValid s
        → scan max_create_body_bytes r.body ≡ first_value (object members) true
        → find slug_name members ≡ some (text slug)
        → find body_name members ≡ some (text body)
        → IsSlug slug
        → length body ≤ max_body_bytes
        → view db_now slug s ≡ none
        → (create_clip st (json_decode fold scan) now db_now r s).0.status ≡ 201
    create_clip-documented now db_now r s slug body valid scanned slug_is body_is named short free =
        let (req, d, decodes, slug_eq, body_eq, (ttl, requested, resolves)) =
          decode_value-documented in
        let same_slug : slug ≡ req.slug = ground (arith, slug_is, slug_eq) in
        let same_body : body ≡ req.body = ground (arith, body_is, body_eq) in
        (create_clip-201_iff st IsValid view keep law (json_decode fold scan) now db_now r s
            valid).1
          (
            req,
            ttl,
            json_decode-documented max_create_body_bytes r.body req scanned decodes,
            requested,
            (
              d,
              record {
                slug = subst IsSlug same_slug named;
                body = subst (λ x. length x ≤ max_body_bytes) same_body short;
                ttl_eq = resolves;
              },
            ),
            subst (λ x. view db_now x s ≡ none) same_slug free,
          )
