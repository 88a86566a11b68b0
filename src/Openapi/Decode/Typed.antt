-- ===== src/Openapi/Decode/Typed.antt =====
-- internal/httpapi/clips.go: which objects are decoded, and to what.
use go_clipboard.Base.{
  ◌≡◌, refl, ◌↔◌, inl, inr, Bool, true, false, ◌&&◌, Bytes, ℤ, Option, none, some, Bool-cases,
  arith, if◌then◌else◌,
}
use go_clipboard.Json.{Json, null, integer, text, object, Members, no_members, member}
use go_clipboard.Http.Clips.{CreateClipRequest}
use go_clipboard.Openapi.Decode.{
  Field, body_field, slug_field, ttl_field, blank_request, fits_int64, set_field, field_of,
  decode_member, decode_members, decode_value,
}

-- A field takes null or a value of its type.
abbrev pub takes : Field → Json → Bool
takes field null = true
takes body_field (text s) = true
takes slug_field (text s) = true
takes ttl_field (integer z) = fits_int64 z
takes field value = false

abbrev pub is_taken : Option Field → Json → Bool
is_taken none v = false
is_taken (some field) v = takes field v

-- What is left in a string, or in a pointer, after a value.
abbrev pub text_after : Json → Bytes → Bytes
text_after (text s) before = s
text_after value before = before

abbrev pub integer_after : Json → Option ℤ → Option ℤ
integer_after (integer z) before = some z
integer_after null before = none
integer_after value before = before

abbrev pub is_body : Option Field → Bool
is_body (some body_field) = true
is_body field = false

abbrev pub is_slug : Option Field → Bool
is_slug (some slug_field) = true
is_slug field = false

abbrev pub is_ttl : Option Field → Bool
is_ttl (some ttl_field) = true
is_ttl field = false

module _ (fold : Bytes → Bytes) where
  -- Every member has the name of a field and a value that the field takes.
  unfoldable pub is_typed : Members → Bool
  unfolding field_of
  is_typed no_members = true
  is_typed (member key v members) = is_taken (field_of fold key) v && is_typed members

  -- The last text among the members that the test picks, or the one before them.
  unfoldable pub last_text : (Option Field → Bool) → Members → Bytes → Bytes
  last_text test no_members before = before
  last_text test (member key v members) before =
      last_text test members (if test (field_of fold key) then text_after v before else before)

  -- The last number or null.
  unfoldable pub last_integer : Members → Option ℤ → Option ℤ
  last_integer no_members before = before
  last_integer (member key v members) before =
      last_integer members (if is_ttl (field_of fold key) then integer_after v before else before)

  abbrev pub last_of : Members → CreateClipRequest → CreateClipRequest
  last_of members req = record {
    slug = last_text is_slug members req.slug;
    body = last_text is_body members req.body;
    ttl_seconds = last_integer members req.ttl_seconds;
  }

  abbrev step : Option Field → Json → CreateClipRequest → CreateClipRequest
  step field v req = record {
    slug = if is_slug field then text_after v req.slug else req.slug;
    body = if is_body field then text_after v req.body else req.body;
    ttl_seconds = if is_ttl field then integer_after v req.ttl_seconds else req.ttl_seconds;
  }

  decode_member_lem :
      (field : Option Field) (v : Json) (req : CreateClipRequest)
      → decode_member fold field v req
        ≡ (if is_taken field v then some (step field v req) else none)
  unfolding decode_member set_field
  decode_member_lem none v req = refl
  decode_member_lem (some body_field) v req = ground arith
  decode_member_lem (some slug_field) v req = ground arith
  decode_member_lem (some ttl_field) v req = ground arith

  pub decode_members_lem :
      (members : Members) (req : CreateClipRequest)
      → decode_members fold members req
        ≡ (if is_typed members then some (last_of members req) else none)
  unfolding decode_members is_typed last_text last_integer
  decode_members_lem no_members req = refl
  decode_members_lem (member key v members) req =
      elim (Bool-cases (is_taken (field_of fold key) v)) [
        | inl taken ↦
            rw (decode_members, decode_member_lem (field_of fold key) v req, taken)
              (decode_members_lem members (step (field_of fold key) v req))
        | inr not_taken ↦
            rw (decode_members, decode_member_lem (field_of fold key) v req, not_taken) refl
      ]

  -- A JSON object is decoded to a request exactly if each of its members has the name of a field, in
  -- whatever spelling that folds to it, and holds null or a value of the field's type, which for the
  -- lifetime is an int64. Each field of the request is then the last one of its name, and empty if there
  -- is none: neither the slug nor the body has to be there.
  pub decode_value_iff :
      (members : Members) (req : CreateClipRequest)
      → (decode_value fold (object members) ≡ some req)
        ↔ ((is_typed members ≡ true) × (req ≡ last_of members blank_request))
  unfolding decode_value
  decode_value_iff members req = rw (decode_members_lem members blank_request) (ground arith)
