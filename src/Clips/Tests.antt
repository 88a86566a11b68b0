-- ===== src/Clips/Tests.antt =====
-- Runs of internal/clips and instances of its theorems.
use go_clipboard.Base.{
  ◌+◌, ◌*◌, ◌<◌, ◌≡◌, ◌↔◌, refl, true, Option, none, Bytes, ascii, ◌==◌, [], ◌∷◌, pos, wrap64,
  arith, ok, err, if◌then◌else◌, ltb,
}
use go_clipboard.Base.Map.{Map, lookup, insert, delete, Visits-self, Distinct}
use go_clipboard.Clock.{Time, Duration, minute}
use go_clipboard.Slug.{in_class, match_pattern, is_reserved, validate}
use go_clipboard.Slug.Rules.{validate-none_iff}
use go_clipboard.Clips.{
  slug_in_use, not_found, invalid_ttl, Clip, preset_10m, preset_1h, preset_2h, ttl_from_seconds,
  resolve_ttl,
}
use go_clipboard.Clips.Store.{Store, IsStore}
use go_clipboard.Clips.Fake
use go_clipboard.Clips.Fake.{StoredClip, delete_loop}
use go_clipboard.Clips.Fake.Contract.{live_clip, fake_store, fake-IsStore}
use go_clipboard.Clips.Service.{
  CreateInput, CreateResult, claim, created, available, create, read, availability,
}
use go_clipboard.Clips.Service.Create.{IsAccepted, expiry, create-ok_iff}
use go_clipboard.Clips.Service.Reading.{read-create, create-create}

program : Unit {0}
unfolding lookup insert delete ◌==◌ validate in_class match_pattern is_reserved resolve_ttl
    ttl_from_seconds wrap64
program = tt

-- The seconds of an hour; a number whose product with a second would wrap around.
one_hour : ttl_from_seconds (pos 3600) ≡ ok preset_1h
unfolding program
one_hour = refl

huge_ttl : ttl_from_seconds (pos 18446744073709552) ≡ err invalid_ttl
unfolding program
huge_ttl = refl

abbrev in_order : Map StoredClip → Map StoredClip
in_order m = m

abbrev memory : Store (Map StoredClip)
memory = fake_store in_order

abbrev shown : Time → Bytes → Map StoredClip → Option Clip
shown now slug m = live_clip now (lookup slug m)

memory_law : IsStore memory Distinct shown (λ t. t)
memory_law = fake-IsStore in_order Visits-self

fake-IsStore_example : IsStore memory Distinct shown (λ t. t)
fake-IsStore_example = fake-IsStore in_order Visits-self

abbrev demo : Bytes
demo = ascii "demo"

abbrev other : Bytes
other = ascii "other"

abbrev note : CreateInput
note = record { slug = demo; body = ascii "hello"; ttl = preset_10m }

abbrev again : CreateInput
again = record { slug = demo; body = ascii "later"; ttl = pos 0 }

-- One clip that has expired by 1000, and one that is live until 5000.
abbrev old : Map StoredClip
old =
    (demo, record { slug = demo; body = ascii "old"; created_at = 1; expires_at = 1000 })
    ∷ (other, record { slug = other; body = ascii "x"; created_at = 2; expires_at = 5000 })
    ∷ []

old-Distinct : Distinct old
unfolding program
old-Distinct = (refl, (refl, tt))

-- What `Create` gives for the note: the name of the old clip is free again.
abbrev receipt : CreateResult
receipt = record { slug = demo; expires_at = 2000 + 10 * minute }

claims : (create memory 2000 2000 note old).0 ≡ ok receipt
unfolding program create claim created Fake.claim_clip
claims = refl

note-IsAccepted : IsAccepted note preset_10m
unfolding program
note-IsAccepted = record {
  slug = (validate-none_iff demo).0 refl;
  body = omega arith;
  ttl_eq = refl;
}

again-IsAccepted : IsAccepted again preset_2h
unfolding program
again-IsAccepted = record {
  slug = (validate-none_iff demo).0 refl;
  body = omega arith;
  ttl_eq = refl;
}

create-ok_iff_example : ((create memory 2000 2000 note old).0 ≡ ok receipt) ↔ (
    (ttl : Duration) × IsAccepted note ttl
    × (shown 2000 demo old ≡ none)
    × (receipt ≡ record { slug = demo; expires_at = expiry (λ t. t) 2000 ttl }))
create-ok_iff_example =
    create-ok_iff memory Distinct shown (λ t. t) memory_law 2000 2000 note old old-Distinct receipt

in_use : (create memory 900 900 note old).0 ≡ err slug_in_use
unfolding program create claim created Fake.claim_clip
in_use = refl

read-create_example : read memory 3000 demo (create memory 2000 2000 note old).1 ≡ (
    if demo == demo
    then (if ltb 3000 receipt.expires_at
        then ok (record {
          slug = demo;
          body = ascii "hello";
          created_at = 2000;
          expires_at = receipt.expires_at;
        })
        else err not_found)
    else read memory 3000 demo old)
read-create_example =
    read-create memory Distinct shown (λ t. t) memory_law 2000 2000 note old old-Distinct receipt
      3000 demo claims

available_at : availability memory 2000 demo old ≡ ok true
unfolding program availability Fake.slug_is_live available
available_at = refl

create-create_example :
    ((create memory 3000 3000 again (create memory 2000 2000 note old).1).0 ≡ err slug_in_use)
    ↔ (3000 < receipt.expires_at)
create-create_example =
    create-create memory Distinct shown (λ t. t) memory_law 2000 2000 note old old-Distinct receipt
      3000 3000 again preset_2h claims refl again-IsAccepted
