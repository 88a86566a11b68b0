-- ===== src/Http/Tests.antt =====
-- Runs of the handlers of internal/httpapi and instances of their theorems.
use go_clipboard.Base.{
  ℕ, ◌≡◌, ◌↔◌, ◌⊎◌, refl, true, false, Option, none, some, Bytes, ascii, ◌==◌, [], ◌∷◌, pos, ok,
  err, if◌then◌else◌, ltb, wrap64,
}
use go_clipboard.Base.Map.{Map, lookup, insert, Visits-self, Distinct}
use go_clipboard.Clock.{Time, Duration}
use go_clipboard.Slug.{in_class, match_pattern, is_reserved, validate}
use go_clipboard.Clips.{Clip, ttl_from_seconds, resolve_ttl}
use go_clipboard.Clips.Store.{Store, IsStore}
use go_clipboard.Clips.Fake
use go_clipboard.Clips.Fake.{StoredClip}
use go_clipboard.Clips.Fake.Contract.{live_clip, fake_store, fake-IsStore}
use go_clipboard.Clips.Service.{claim, created, create}
use go_clipboard.Clips.Service.Create.{IsAccepted}
use go_clipboard.Http.{Request, create_response, read_response, write_json, write_error}
use go_clipboard.Http.Clips.{
  CreateClipRequest, Decoded, request, malformed, max_create_body_bytes, requested_ttl,
  created_response, create_from, create_decoded, create_clip, get_clip, write_clip_error,
}
use go_clipboard.Http.Clips.Replies.{input_of, create_clip-201_iff, get_clip-create_clip}
use go_clipboard.Http.Health.{HealthDependencies, handle_health}
use go_clipboard.Http.Health.Contract.{IsReachable, IsMigrated, handle_health_iff}

program : Unit {0}
unfolding lookup insert ◌==◌ validate in_class match_pattern is_reserved resolve_ttl
    ttl_from_seconds wrap64 create claim created Fake.claim_clip create_clip create_from
    create_decoded requested_ttl created_response write_clip_error
program = tt

abbrev in_order : Map StoredClip → Map StoredClip
in_order m = m

abbrev memory : Store (Map StoredClip)
memory = fake_store in_order

abbrev shown : Time → Bytes → Map StoredClip → Option Clip
shown now slug m = live_clip now (lookup slug m)

memory_law : IsStore memory Distinct shown (λ t. t)
memory_law = fake-IsStore in_order Visits-self

abbrev note : CreateClipRequest
note = record { slug = ascii "demo"; body = ascii "hello"; ttl_seconds = some (pos 600) }

-- A decoder that takes a body that is not empty for the note.
abbrev decode : ℕ → Bytes → Decoded
decode limit [] = malformed
decode limit (c ∷ cs) = request note true

abbrev posted : Request
posted = record {
  method = [];
  path = [];
  escaped = [];
  segments = [];
  remote_addr = [];
  host = [];
  forwarded_for = [];
  body = ascii "{}";
}

abbrev empty : Request
empty = record {
  method = [];
  path = [];
  escaped = [];
  segments = [];
  remote_addr = [];
  host = [];
  forwarded_for = [];
  body = [];
}

post : (create_clip memory decode 5 5 posted []).0.status ≡ 201
unfolding program
post = refl

post_malformed : (create_clip memory decode 5 5 empty []).0.status ≡ 400
unfolding program
post_malformed = refl

nothing-Distinct : Distinct {V = StoredClip} []
unfolding program
nothing-Distinct = tt

create_clip-201_iff_example : ((create_clip memory decode 5 5 posted []).0.status ≡ 201) ↔ (
    (req : CreateClipRequest) × (ttl : Duration) × (decode max_create_body_bytes posted.body
      ≡ request req true)
    × (requested_ttl req.ttl_seconds ≡ ok ttl)
    × ((d : Duration) × IsAccepted (input_of req ttl) d)
    × (shown 5 req.slug [] ≡ none))
create_clip-201_iff_example =
    create_clip-201_iff memory Distinct shown (λ t. t) memory_law decode 5 5 posted []
      nothing-Distinct

get_clip-create_clip_example :
    (expires : Time) × ((create_clip memory decode 5 5 posted []).0.body
      ≡ create_response note.slug expires)
    × (get_clip memory 70 60 note.slug (create_clip memory decode 5 5 posted []).1 ≡ (
        if ltb 60 expires
        then write_json 200 (read_response note.slug note.body expires 70)
        else write_error 404 "not_found" "resource not found"))
get_clip-create_clip_example =
    get_clip-create_clip memory Distinct shown (λ t. t) memory_law decode 5 5 posted []
      nothing-Distinct note 60 70 refl post

abbrev healthy : HealthDependencies
healthy = record {
  pool = some (record { reachable = true; latency = pos 2500000; error = none });
  migrations = some (ok (record { pending = false; current_version = pos 1 }));
  server_time = some (err "timeout");
}

handle_health_iff_example :
    (((handle_health healthy).status ≡ 200)
      ↔ (IsReachable healthy.pool × IsMigrated healthy.migrations))
    × (((handle_health healthy).status ≡ 200) ⊎ ((handle_health healthy).status ≡ 503))
handle_health_iff_example = handle_health_iff healthy
