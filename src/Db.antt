-- ===== src/Db.antt =====
-- internal/db: the generated queries. Each runs the statement of its name; what PostgreSQL does for
-- the statement is written here as a function on the table, a map from the primary key to the row.
-- `now` is the database's now(); `column` is the precision of a TIMESTAMPTZ column. `is_text` says which
-- byte strings the server takes for a text: valid in its encoding, and without a zero byte. With another
-- argument a statement fails before it runs.
pub mod Queries
mod Tests
use go_clipboard.Base.{
  ℕ, ◌-◌, Bool, true, false, ◌&&◌, none, some, Bytes, String, Result, ok, err, leb, ltb,
  if◌then◌else◌, not, [], ◌∷◌, length,
}
use go_clipboard.Base.Map.{Map, lookup, insert}
use go_clipboard.Clock.{Time}

-- pgtype.Timestamptz: not valid is NULL.
pub record Timestamptz : Type 0 where
  pub time : Time
  pub valid : Bool

-- db.Clip
pub record Row : Type 0 where
  pub slug : Bytes
  pub body : Bytes
  pub created_at : Timestamptz
  pub expires_at : Timestamptz

pub record ClaimClipParams : Type 0 where
  pub slug : Bytes
  pub body : Bytes
  pub created_at : Timestamptz
  pub expires_at : Timestamptz

-- pgx.ErrNoRows, or any other error of a query.
pub data QueryError : Type 0 where
  no_rows : QueryError
  failed : String → QueryError

-- The interface `Querier`, over states `S` of the database.
pub record Querier (S : Type 0) : Type 0 where
  pub claim_clip : Time → ClaimClipParams → S → Result QueryError Row × S
  pub delete_expired_clips : Time → S → Result QueryError ℕ × S
  pub get_live_clip : Time → Bytes → S → Result QueryError Row
  pub server_time : Time → S → Result QueryError Timestamptz
  pub slug_is_live : Time → Bytes → S → Result QueryError Bool

abbrev pub Table : Type 0
Table = Map Row

-- The error of an argument that is not a text: SQLSTATE 22021.
abbrev pub not_a_text : String
not_a_text = "invalid byte sequence for encoding"

-- The row that VALUES ($1, $2, $3, $4) stands for.
abbrev pub excluded : (Time → Time) → ClaimClipParams → Row
excluded column arg = record {
  slug = arg.slug;
  body = arg.body;
  created_at = record { time = column arg.created_at.time; valid = arg.created_at.valid };
  expires_at = record { time = column arg.expires_at.time; valid = arg.expires_at.valid };
}

module _ (column : Time → Time) (is_text : Bytes → Bool) where
  -- INSERT … ON CONFLICT (slug) DO UPDATE SET … WHERE clips.expires_at <= now() RETURNING …
  -- A conflict whose WHERE fails returns no row. Both instants are NOT NULL.
  unfoldable pub claim_statement : Time → ClaimClipParams → Table → Result QueryError Row × Table
  claim_statement now arg t =
      if not (is_text arg.slug && is_text arg.body)
      then (err (failed not_a_text), t)
      else if arg.created_at.valid && arg.expires_at.valid
      then (elim (lookup arg.slug t) [
        | none ↦ (ok (excluded column arg), insert arg.slug (excluded column arg) t)
        | some row ↦
            if leb row.expires_at.time now
            then (
              ok (record (excluded column arg) { slug = row.slug }),
              insert arg.slug (record (excluded column arg) { slug = row.slug }) t,
            )
            else (err no_rows, t)
      ])
      else (err (failed "null value violates not-null constraint"), t)

-- DELETE FROM clips WHERE expires_at <= now()
unfoldable pub delete_where_expired : Time → Table → Table
delete_where_expired now [] = []
delete_where_expired now ((slug, row) ∷ t) =
    let rest = delete_where_expired now t in
    if leb row.expires_at.time now then rest else (slug, row) ∷ rest

-- … of which the number of rows affected is returned.
unfoldable pub delete_statement : Time → Table → Result QueryError ℕ × Table
delete_statement now t =
    let left = delete_where_expired now t in (ok (length t - length left), left)

module _ (is_text : Bytes → Bool) where
  -- SELECT … FROM clips WHERE slug = $1 AND expires_at > now() LIMIT 1
  unfoldable pub get_statement : Time → Bytes → Table → Result QueryError Row
  get_statement now slug t =
      if not (is_text slug) then err (failed not_a_text) else elim (lookup slug t) [
        | none ↦ err no_rows
        | some row ↦ if ltb now row.expires_at.time then ok row else err no_rows
      ]

  -- SELECT EXISTS(SELECT 1 FROM clips WHERE slug = $1 AND expires_at > now())
  unfoldable pub live_statement : Time → Bytes → Table → Result QueryError Bool
  live_statement now slug t =
      if not (is_text slug)
      then err (failed not_a_text)
      else elim (lookup slug t) [ none ↦ ok false | some row ↦ ok (ltb now row.expires_at.time) ]

-- SELECT NOW()::timestamptz
abbrev pub time_statement : Time → Table → Result QueryError Timestamptz
time_statement now t = ok (record { time = now; valid = true })

abbrev pub queries : (Time → Time) → (Bytes → Bool) → Querier Table
queries column is_text = record {
  claim_clip = claim_statement column is_text;
  delete_expired_clips = delete_statement;
  get_live_clip = get_statement is_text;
  server_time = time_statement;
  slug_is_live = live_statement is_text;
}
