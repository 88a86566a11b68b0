-- ===== src/Clips/Postgres.antt =====
-- internal/clips/pgstore.go: the store over the generated queries.
pub mod Errors
pub mod Contract
mod Tests
use go_clipboard.Base.{ℕ, Bool, true, Bytes, Result, ok, err}
use go_clipboard.Clock.{Time}
use go_clipboard.Db.{Timestamptz, Row, ClaimClipParams, QueryError, no_rows, failed, Querier}
use go_clipboard.Clips.{Error, slug_in_use, not_found, failure, Clip}
use go_clipboard.Clips.Store.{Store}

abbrev pub clip_from_row : Row → Clip
clip_from_row row = record {
  slug = row.slug;
  body = row.body;
  created_at = row.created_at.time;
  expires_at = row.expires_at.time;
}

-- An error that the store passes on as it is.
abbrev pub as_error : QueryError → Error
as_error no_rows = failure "no rows in result set"
as_error (failed message) = failure message

abbrev pub claimed : Result QueryError Row → Result Error Clip
claimed (ok row) = ok (clip_from_row row)
claimed (err no_rows) = err slug_in_use
claimed (err (failed message)) = err (failure message)

abbrev pub read_row : Result QueryError Row → Result Error Clip
read_row (ok row) = ok (clip_from_row row)
read_row (err no_rows) = err not_found
read_row (err (failed message)) = err (failure message)

abbrev pub passed_on : {A : Type 0} → Result QueryError A → Result Error A
passed_on (ok a) = ok a
passed_on (err e) = err (as_error e)

module _ {S : Type 0} (queries : Querier S) where
  unfoldable pub claim_clip : Time → Bytes → Bytes → Time → Time → S → Result Error Clip × S
  claim_clip now slug body created_at expires_at s =
      let (row, s') =
        queries.claim_clip now
          (record {
            slug = slug;
            body = body;
            created_at = record { time = created_at; valid = true };
            expires_at = record { time = expires_at; valid = true };
          })
          s in
      (claimed row, s')

  unfoldable pub get_live_clip : Time → Bytes → S → Result Error Clip
  get_live_clip now slug s = read_row (queries.get_live_clip now slug s)

  unfoldable pub delete_expired_clips : Time → S → Result Error ℕ × S
  delete_expired_clips now s = let (n, s') = queries.delete_expired_clips now s in (passed_on n, s')

  unfoldable pub slug_is_live : Time → Bytes → S → Result Error Bool
  slug_is_live now slug s = passed_on (queries.slug_is_live now slug s)

-- NewPGStore
abbrev pub pg_store : {S : Type 0} → Querier S → Store S
pg_store queries = record {
  claim_clip = claim_clip queries;
  get_live_clip = get_live_clip queries;
  delete_expired_clips = delete_expired_clips queries;
  slug_is_live = slug_is_live queries;
}
