-- ===== src/Db/Tests.antt =====
-- Runs of the generated queries of internal/db over a connection that answers always the same.
use go_clipboard.Base.{◌≡◌, refl, ascii, ◌==◌, List, [], ◌∷◌, Result, ok, err, if◌then◌else◌, true}
use go_clipboard.Db.{Row, QueryError, no_rows}
use go_clipboard.Db.Queries.{
  Value, text, timestamp, Dbtx, get_live_clip_sql, cannot_scan, new_queries, query_get_live_clip,
  scan_clip,
}

abbrev row : Row
row = record {
  slug = ascii "note";
  body = ascii "hi";
  created_at = record { time = 1000; valid = true };
  expires_at = record { time = 5000; valid = true };
}

abbrev connection : Result QueryError (List Value) → Dbtx (Unit {0})
connection columns = record {
  exec = λ now sql args s. (err no_rows, s);
  query_row = λ now sql args s. (if sql == get_live_clip_sql then columns else err no_rows, s);
}

abbrev columns : List Value
columns = text row.slug ∷ text row.body ∷ timestamp row.created_at ∷ timestamp row.expires_at ∷ []

live_row :
    query_get_live_clip (new_queries (connection (ok columns))) 4999 (ascii "note") tt ≡ ok row
unfolding query_get_live_clip scan_clip ◌==◌
live_row = refl

too_few_columns :
    query_get_live_clip (new_queries (connection (ok (text row.slug ∷ [])))) 4999 (ascii "note") tt
    ≡ err cannot_scan
unfolding query_get_live_clip scan_clip ◌==◌
too_few_columns = refl
