-- ===== src/Clips/Service.antt =====
-- internal/clips/service.go: claiming, reading and sweeping clips.
-- A Service is its store and its clock; each method takes the state of the store and what the
-- clocks show: `now` that of the service, `db_now` that of the store during its call.
pub mod Create
pub mod Reading
pub mod Agreement
pub mod Texts
use go_clipboard.Base.{
  ℕ, Bool, true, false, not, Option, none, some, Bytes, Result, ok, err, if◌then◌else◌, ltb, length,
}
use go_clipboard.Clock.{Time, Duration, add}
use go_clipboard.Slug.{ValidationError, validate}
use go_clipboard.Clips.{
  Error, invalid_slug, slug_in_use, not_found, body_too_large, invalid_ttl, failure, Clip,
  max_body_bytes, resolve_ttl,
}
use go_clipboard.Clips.Store.{Store}

pub record CreateInput : Type 0 where
  pub slug : Bytes
  pub body : Bytes
  pub ttl : Duration

pub record CreateResult : Type 0 where
  pub slug : Bytes
  pub expires_at : Time

-- The end of `Create`: `errors.Is(err, ErrSlugInUse)`, another error, or the claimed clip.
unfoldable pub created : Result Error Clip → Result Error CreateResult
created (ok clip) = ok (record { slug = clip.slug; expires_at = clip.expires_at })
created (err slug_in_use) = err slug_in_use
created (err e) = err e

-- The end of `Read`.
unfoldable pub read_result : Result Error Clip → Result Error Clip
read_result (ok clip) = ok clip
read_result (err not_found) = err not_found
read_result (err e) = err e

unfoldable pub available : Result Error Bool → Result Error Bool
available (ok live) = ok (not live)
available (err e) = err e

module _ {S : Type 0} (st : Store S) where
  -- The part of `Create` after the lifetime is chosen.
  unfoldable pub claim : Time → Time → CreateInput → Duration → S → Result Error CreateResult × S
  unfolding created
  claim now db_now input ttl s =
      let (clip, s') = st.claim_clip db_now input.slug input.body now (add now ttl) s in
      (created clip, s')

  unfoldable pub claim_resolved :
      Time → Time → CreateInput → Result Error Duration → S → Result Error CreateResult × S
  unfolding claim
  claim_resolved now db_now input (ok ttl) s = claim now db_now input ttl s
  claim_resolved now db_now input (err e) s = (err e, s)

  unfoldable pub create : Time → Time → CreateInput → S → Result Error CreateResult × S
  unfolding claim_resolved
  create now db_now input s = elim (validate input.slug) [
    | some e ↦ (err (invalid_slug e), s)
    | none ↦
        if ltb max_body_bytes (length input.body)
        then (err body_too_large, s)
        else claim_resolved now db_now input (resolve_ttl input.ttl) s
  ]

  unfoldable pub read : Time → Bytes → S → Result Error Clip
  unfolding read_result
  read db_now slug s = read_result (st.get_live_clip db_now slug s)

  unfoldable pub availability : Time → Bytes → S → Result Error Bool
  unfolding available
  availability db_now slug s = elim (validate slug) [
    | some e ↦ err (invalid_slug e)
    | none ↦ available (st.slug_is_live db_now slug s)
  ]

  unfoldable pub delete_expired : Time → S → Result Error ℕ × S
  delete_expired db_now s = st.delete_expired_clips db_now s
