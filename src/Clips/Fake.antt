-- ===== src/Clips/Fake.antt =====
-- internal/clips/fake/store.go: the store in memory. Its mutex is held for the whole of a method,
-- so each is a function on the map. `now` is what `s.now()` returns; `order` is what the `range`
-- of `DeleteExpiredClips` visits.
pub mod Sweep
pub mod Contract
use go_clipboard.Base.{
  ℕ, ◌+◌, Bool, true, false, not, Option, none, some, Bytes, Result, ok, err, if◌then◌else◌, [],
  ◌∷◌,
}
use go_clipboard.Base.Map.{Map, lookup, insert, delete}
use go_clipboard.Clock.{Time, after}
use go_clipboard.Clips.{Error, slug_in_use, not_found, Clip}

pub record StoredClip : Type 0 where
  pub slug : Bytes
  pub body : Bytes
  pub created_at : Time
  pub expires_at : Time

unfoldable pub new_store : Map StoredClip
new_store = []

abbrev pub to_clip : StoredClip → Clip
to_clip c = record {
  slug = c.slug;
  body = c.body;
  created_at = c.created_at;
  expires_at = c.expires_at;
}

-- s.clips[slug] = storedClip{…}; return &clips.Clip{…}
unfoldable pub write_clip :
    Bytes → Bytes → Time → Time → Map StoredClip → Result Error Clip × Map StoredClip
write_clip slug body created_at expires_at clips = (
  ok (record { slug = slug; body = body; created_at = created_at; expires_at = expires_at }),
  insert slug
      (record { slug = slug; body = body; created_at = created_at; expires_at = expires_at }) clips,
)

unfoldable pub claim_clip :
    Time → Bytes → Bytes → Time → Time → Map StoredClip → Result Error Clip × Map StoredClip
unfolding write_clip
claim_clip now slug body created_at expires_at clips = elim (lookup slug clips) [
  | none ↦ write_clip slug body created_at expires_at clips
  | some existing ↦
      if after existing.expires_at now
      then (err slug_in_use, clips)
      else write_clip slug body created_at expires_at clips
]

unfoldable pub get_live_clip : Time → Bytes → Map StoredClip → Result Error Clip
get_live_clip now slug clips = elim (lookup slug clips) [
  | none ↦ err not_found
  | some existing ↦
      if not (after existing.expires_at now) then err not_found else ok (to_clip existing)
]

-- for slug, clip := range s.clips { if !clip.expiresAt.After(now) { delete(…); deleted++ } }
unfoldable pub delete_loop : Map StoredClip → Time → Map StoredClip → ℕ → ℕ × Map StoredClip
delete_loop [] now clips deleted = (deleted, clips)
delete_loop ((slug, clip) ∷ order) now clips deleted =
    delete_loop order now (if not (after clip.expires_at now) then delete slug clips else clips)
      (if not (after clip.expires_at now) then deleted + 1 else deleted)

unfoldable pub delete_expired_clips :
    Map StoredClip → Time → Map StoredClip → Result Error ℕ × Map StoredClip
unfolding delete_loop
delete_expired_clips order now clips = let (n, left) = delete_loop order now clips 0 in (ok n, left)

unfoldable pub slug_is_live : Time → Bytes → Map StoredClip → Result Error Bool
slug_is_live now slug clips = elim (lookup slug clips) [
  | none ↦ ok false
  | some existing ↦ ok (after existing.expires_at now)
]
