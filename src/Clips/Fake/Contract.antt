-- ===== src/Clips/Fake/Contract.antt =====
-- internal/clips/fake/store.go: the store in memory keeps the contract of `store`.
use go_clipboard.Base.{
  ◌≤◌, ◌≡◌, refl, ap, inl, inr, Option, none, some, Bytes, ◌==◌, Result, ok, err, if◌then◌else◌,
  arith, Bool-cases, Option-cases, ltb,
}
use go_clipboard.Base.Map.{Map, lookup, insert, Visits, Distinct, lookup-insert, insert-Distinct}
use go_clipboard.Clock.{Time, after}
use go_clipboard.Clips.{Error, slug_in_use, Clip}
use go_clipboard.Clips.Store.{Store, IsStore, found_or_missing, is_some}
use go_clipboard.Clips.Fake.{
  StoredClip, to_clip, claim_clip, get_live_clip, delete_expired_clips, slug_is_live,
}
use go_clipboard.Clips.Fake.Sweep.{
  unless_expired, lookup-delete_expired_clips, delete_expired_clips_count,
}

abbrev pub live_clip : Time → Option StoredClip → Option Clip
live_clip now none = none
live_clip now (some c) = if after c.expires_at now then some (to_clip c) else none

-- The store, given how the runtime ranges over a map.
abbrev pub fake_store : (Map StoredClip → Map StoredClip) → Store (Map StoredClip)
fake_store range = record {
  claim_clip = claim_clip;
  get_live_clip = get_live_clip;
  delete_expired_clips = λ now m. delete_expired_clips (range m) now m;
  slug_is_live = slug_is_live;
}

abbrev new_clip : Bytes → Bytes → Time → Time → StoredClip
new_clip slug body created expires = record {
  slug = slug;
  body = body;
  created_at = created;
  expires_at = expires;
}

module _ (now : Time) (slug body : Bytes) (created expires : Time) (m : Map StoredClip) where
  claim_taken :
      (c : Clip)
      → live_clip now (lookup slug m) ≡ some c
      → claim_clip now slug body created expires m ≡ (err slug_in_use, m)
  unfolding claim_clip
  claim_taken c h = elim (Option-cases (lookup slug m)) [
    | inl missing ↦ absurd (ground (arith, missing, h))
    | inr (old, found) ↦ elim (Bool-cases (after old.expires_at now)) [
      | inl live ↦ rw (found, claim_clip) (rw live refl)
      | inr expired ↦ absurd (ground (arith, found, expired, h))
    ]
  ]

  claim_free :
      live_clip now (lookup slug m) ≡ none
      → claim_clip now slug body created expires m ≡ (
        ok (to_clip (new_clip slug body created expires)),
        insert slug (new_clip slug body created expires) m,
      )
  unfolding claim_clip
  claim_free h = elim (Option-cases (lookup slug m)) [
    | inl missing ↦ rw (missing, claim_clip) refl
    | inr (old, found) ↦ elim (Bool-cases (after old.expires_at now)) [
      | inl live ↦ absurd (ground (arith, found, live, h))
      | inr expired ↦ rw (found, claim_clip) (rw expired refl)
    ]
  ]

  claim-Distinct : Distinct m → Distinct (claim_clip now slug body created expires m).1
  claim-Distinct d = elim (Option-cases (live_clip now (lookup slug m))) [
    | inl free ↦ rw (claim_free free) (insert-Distinct slug _ m d)
    | inr (c, live) ↦ rw (claim_taken c live) d
  ]

  view-claim :
      (later : Time) (j : Bytes)
      → live_clip now (lookup slug m) ≡ none
      → live_clip later (lookup j (claim_clip now slug body created expires m).1) ≡ (
          if slug == j
          then (if ltb later expires
              then some (to_clip (new_clip slug body created expires))
              else none)
          else live_clip later (lookup j m))
  view-claim later j free =
      rw (claim_free free, lookup-insert)
        (elim (Bool-cases (slug == j)) [ inl same ↦ rw same refl | inr other ↦ rw other refl ])

get_lem :
    (now : Time) (slug : Bytes) (m : Map StoredClip)
    → get_live_clip now slug m ≡ found_or_missing (live_clip now (lookup slug m))
unfolding get_live_clip
get_lem now slug m = ground arith

live_lem :
    (now : Time) (slug : Bytes) (m : Map StoredClip)
    → slug_is_live now slug m ≡ ok (is_some (live_clip now (lookup slug m)))
unfolding slug_is_live
live_lem now slug m = ground arith

live_unless_expired :
    (now later : Time) (o : Option StoredClip)
    → now ≤ later
    → live_clip later (unless_expired now o) ≡ live_clip later o
live_unless_expired now later o h = ground arith

-- The store in memory keeps the contract of `store`, to the nanosecond, on maps that hold no slug
-- twice, however the runtime ranges over a map. The clip that is live under a slug is the map's,
-- if it has not expired.
pub fake-IsStore :
    (range : Map StoredClip → Map StoredClip)
    → ((m : Map StoredClip) → Distinct m → Visits (range m) m)
    → IsStore (fake_store range) Distinct (λ now slug m. live_clip now (lookup slug m)) (λ t. t)
fake-IsStore range visits = record {
  keep_le = λ t. omega arith;
  keep_near = λ t. omega arith;
  get_lem = λ now slug m _. get_lem now slug m;
  live_lem = λ now slug m _. live_lem now slug m;
  claim_taken =
      λ now slug body created expires c m _ h. claim_taken now slug body created expires m c h;
  claim_free = λ now slug body created expires m _ h.
      ap (λ (x : Result Error Clip × Map StoredClip). x.0)
        (claim_free now slug body created expires m h);
  claim-IsValid =
      λ now slug body created expires m d. claim-Distinct now slug body created expires m d;
  view-claim = λ now later slug body created expires j m _ h.
      view-claim now slug body created expires m later j h;
  sweep_ok = λ now m d.
      let (_, n, e, _) = delete_expired_clips_count (range m) now m (visits m d) d in (n, e);
  sweep-IsValid = λ now m d. (delete_expired_clips_count (range m) now m (visits m d) d).0;
  view-sweep = λ now later slug m d h.
      rw (lookup-delete_expired_clips (range m) now m slug (visits m d))
        (live_unless_expired now later (lookup slug m) h);
}
