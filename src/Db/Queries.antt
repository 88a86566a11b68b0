-- ===== src/Db/Queries.antt =====
-- internal/db: the generated methods of Queries, over a connection that runs SQL texts. What pgx and
-- PostgreSQL do for a text is an argument.
use go_clipboard.Base.{ℕ, Bool, Bytes, ascii, List, [], ◌∷◌, Result, ok, err}
use go_clipboard.Clock.{Time}
use go_clipboard.Db.{Timestamptz, Row, ClaimClipParams, QueryError, failed, Querier}

-- The arguments of a statement, and the columns of a row.
pub data Value : Type 0 where
  text : Bytes → Value
  timestamp : Timestamptz → Value
  boolean : Bool → Value

-- DBTX. A row that QueryRow finds is what Scan reads; the error is that of Scan. Query is not used.
pub record Dbtx (S : Type 0) : Type 0 where
  pub exec : Time → Bytes → List Value → S → Result QueryError ℕ × S
  pub query_row : Time → Bytes → List Value → S → Result QueryError (List Value) × S

abbrev pub claim_clip_sql : Bytes
claim_clip_sql =
    ascii
      "-- name: ClaimClip :one\nINSERT INTO clips (slug, body, created_at, expires_at)\nVALUES ($1, $2, $3, $4)\nON CONFLICT (slug) DO UPDATE\nSET body = EXCLUDED.body,\n    created_at = EXCLUDED.created_at,\n    expires_at = EXCLUDED.expires_at\nWHERE clips.expires_at <= now()\nRETURNING slug, body, created_at, expires_at\n"

abbrev pub delete_expired_clips_sql : Bytes
delete_expired_clips_sql =
    ascii "-- name: DeleteExpiredClips :execrows\nDELETE FROM clips\nWHERE expires_at <= now()\n"

abbrev pub get_live_clip_sql : Bytes
get_live_clip_sql =
    ascii
      "-- name: GetLiveClip :one\nSELECT slug, body, created_at, expires_at\nFROM clips\nWHERE slug = $1\n  AND expires_at > now()\nLIMIT 1\n"

abbrev pub server_time_sql : Bytes
server_time_sql = ascii "-- name: ServerTime :one\nSELECT NOW()::timestamptz AS server_time\n"

abbrev pub slug_is_live_sql : Bytes
slug_is_live_sql =
    ascii
      "-- name: SlugIsLive :one\nSELECT EXISTS(\n    SELECT 1\n    FROM clips\n    WHERE slug = $1\n      AND expires_at > now()\n) AS live\n"

abbrev pub cannot_scan : QueryError
cannot_scan = failed "can't scan into dest"

-- row.Scan into the fields of a Clip, a timestamp and a flag.
unfoldable pub scan_clip : Result QueryError (List Value) → Result QueryError Row
scan_clip (err e) = err e
scan_clip (ok (text slug ∷ text body ∷ timestamp created ∷ timestamp expires ∷ [])) =
    ok (record { slug = slug; body = body; created_at = created; expires_at = expires })
scan_clip (ok columns) = err cannot_scan

unfoldable pub scan_time : Result QueryError (List Value) → Result QueryError Timestamptz
scan_time (err e) = err e
scan_time (ok (timestamp t ∷ [])) = ok t
scan_time (ok columns) = err cannot_scan

unfoldable pub scan_flag : Result QueryError (List Value) → Result QueryError Bool
scan_flag (err e) = err e
scan_flag (ok (boolean b ∷ [])) = ok b
scan_flag (ok columns) = err cannot_scan

pub record Queries (S : Type 0) : Type 0 where
  pub db : Dbtx S

module _ {S : Type 0} where
  -- New
  abbrev pub new_queries : Dbtx S → Queries S
  new_queries db = record { db = db }

  -- WithTx
  abbrev pub with_tx : Queries S → Dbtx S → Queries S
  with_tx q tx = record { db = tx }

  unfoldable pub query_claim_clip :
      Queries S → Time → ClaimClipParams → S → Result QueryError Row × S
  unfolding scan_clip
  query_claim_clip q now arg s =
      let (row, s') =
        q.db.query_row now claim_clip_sql
          (text arg.slug ∷ text arg.body ∷ timestamp arg.created_at ∷ timestamp arg.expires_at ∷ [])
          s in
      (scan_clip row, s')

  unfoldable pub query_delete_expired_clips : Queries S → Time → S → Result QueryError ℕ × S
  query_delete_expired_clips q now s = q.db.exec now delete_expired_clips_sql [] s

  -- The state that a read leaves is not kept: it is the one before.
  unfoldable pub query_get_live_clip : Queries S → Time → Bytes → S → Result QueryError Row
  unfolding scan_clip
  query_get_live_clip q now slug s =
      scan_clip (q.db.query_row now get_live_clip_sql (text slug ∷ []) s).0

  unfoldable pub query_server_time : Queries S → Time → S → Result QueryError Timestamptz
  unfolding scan_time
  query_server_time q now s = scan_time (q.db.query_row now server_time_sql [] s).0

  unfoldable pub query_slug_is_live : Queries S → Time → Bytes → S → Result QueryError Bool
  unfolding scan_flag
  query_slug_is_live q now slug s =
      scan_flag (q.db.query_row now slug_is_live_sql (text slug ∷ []) s).0

  -- var _ Querier = (*Queries)(nil)
  abbrev pub as_querier : Queries S → Querier S
  as_querier q = record {
    claim_clip = query_claim_clip q;
    delete_expired_clips = query_delete_expired_clips q;
    get_live_clip = query_get_live_clip q;
    server_time = query_server_time q;
    slug_is_live = query_slug_is_live q;
  }
