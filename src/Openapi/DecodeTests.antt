-- ===== src/Openapi/DecodeTests.antt =====
-- Request bodies as internal/httpapi/clips.go decodes them, and instances of the theorems on them.
use go_clipboard.Base.{
  ℕ, ◌≡◌, ◌↔◌, refl, none, some, Bytes, ascii, Bool, true, false, ◌==◌, [], ◌∷◌, arith, ltb,
  if◌then◌else◌,
}
use go_clipboard.Base.Map.{lookup, Visits-self, Distinct}
use go_clipboard.Clock.{Time}
use go_clipboard.Slug.Rules.{IsSlug, validate-none_iff}
use go_clipboard.Slug.{validate, in_class, match_pattern, is_reserved}
use go_clipboard.Clips.Fake.{StoredClip}
use go_clipboard.Clips.Fake.Contract.{live_clip, fake_store, fake-IsStore}
use go_clipboard.Json.{null, text, object, Members, no_members, member, find}
use go_clipboard.Json.Schema.{conforms, is_closed, is_declared_name}
use go_clipboard.Http.{Request}
use go_clipboard.Http.Clips.{create_clip, get_clip}
use go_clipboard.Openapi.Document.{create_request_schema}
use go_clipboard.Openapi.Decode.{
  blank_request, field_of, decode_value, json_decode, Scanned, first_value,
}
use go_clipboard.Openapi.Decode.Conforming.{is_unique}
use go_clipboard.Openapi.Decode.Typed.{is_typed, last_of, decode_value_iff}
use go_clipboard.Openapi.Decode.Exchange.{get_clip-documented}
use go_clipboard.Openapi.{payload_json, create_json, read_json, error_json}

program : Unit {0}
unfolding ◌==◌ decode_value field_of conforms is_closed is_declared_name is_unique find lookup
    validate in_class match_pattern is_reserved
program = tt

-- Capital letters as encoding/json folds small ones to them, for the letters of one name.
abbrev fold : Bytes → Bytes
fold s = if s == ascii "Body" then ascii "BODY" else if s == ascii "body" then ascii "BODY" else s

abbrev note : Members
note =
    member (ascii "slug") (text (ascii "note"))
      (member (ascii "body") (text (ascii "hi")) no_members)

-- No member has to be there, and names are compared by their folding.
empty_object : decode_value fold (object no_members) ≡ some blank_request
unfolding program
empty_object = refl

other_spelling :
    decode_value fold (object (member (ascii "Body") (text (ascii "hi")) no_members))
    ≡ some (record { slug = []; body = ascii "hi"; ttl_seconds = none })
unfolding program
other_spelling = refl

unknown_field : decode_value fold (object (member (ascii "owner") null no_members)) ≡ none
unfolding program
unknown_field = refl

decode_value_iff_example :
    (decode_value fold (object note) ≡ some (last_of fold note blank_request)) ↔ (
      (is_typed fold note ≡ true)
      × (last_of fold note blank_request ≡ last_of fold note blank_request))
decode_value_iff_example = decode_value_iff fold note (last_of fold note blank_request)

abbrev is_date_time : Bytes → Bool
is_date_time s = false

note_documented : conforms is_date_time create_request_schema (object note) ≡ true
unfolding program
note_documented = refl

note_unique : is_unique note ≡ true
unfolding program
note_unique = refl

abbrev scan : ℕ → Bytes → Scanned
scan limit s = first_value (object note) true

abbrev posted : Request
posted = record {
  method = ascii "POST";
  path = ascii "/api/clips";
  escaped = ascii "api" ∷ ascii "clips" ∷ [];
  segments = ascii "api" ∷ ascii "clips" ∷ [];
  remote_addr = [];
  host = [];
  forwarded_for = [];
  body = ascii "{\"slug\":\"note\",\"body\":\"hi\"}";
}

nothing-Distinct : Distinct {V = StoredClip} []
unfolding Distinct
nothing-Distinct = tt

note_is_valid : validate (ascii "note") ≡ none
unfolding program
note_is_valid = refl

note-IsSlug : IsSlug (ascii "note")
note-IsSlug = (validate-none_iff (ascii "note")).0 note_is_valid

name_is_free : live_clip 9 (lookup (ascii "note") []) ≡ none
unfolding program
name_is_free = refl

slug_is : find (ascii "slug") note ≡ some (text (ascii "note"))
unfolding program
slug_is = refl

body_is : find (ascii "body") note ≡ some (text (ascii "hi"))
unfolding program
body_is = refl

abbrev format : Time → Bytes
format t = ascii "1970-01-01T00:00:00Z"

get_clip-documented_example :
    let (answer, s') = create_clip (fake_store (λ m. m)) (json_decode fold scan) 9 9 posted [] in
    (answer.status ≡ 201)
    × ((expires : Time) × (payload_json format answer.body
          ≡ some (create_json format (ascii "note") expires))
        × (payload_json format (get_clip (fake_store (λ m. m)) 70 60 (ascii "note") s').body ≡ (
            if ltb 60 expires
            then some (read_json format (ascii "note") (ascii "hi") expires 70)
            else some (error_json format "not_found" "resource not found"))))
get_clip-documented_example =
    get_clip-documented fold is_date_time format (fake_store (λ m. m)) Distinct
      (λ now slug m. live_clip now (lookup slug m)) (λ t. t) (fake-IsStore (λ m. m) Visits-self)
      scan note 9 9 60 70 posted [] (ascii "note") (ascii "hi") note_documented note_unique
      nothing-Distinct refl slug_is body_is note-IsSlug (omega arith) name_is_free
