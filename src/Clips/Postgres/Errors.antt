-- ===== src/Clips/Postgres/Errors.antt =====
-- internal/clips/pgstore.go: which error each outcome of a query becomes, for any database.
use go_clipboard.Base.{◌≡◌, ◌↔◌, refl, true, Bytes, Result, ok, err}
use go_clipboard.Clock.{Time}
use go_clipboard.Db.{Row, ClaimClipParams, QueryError, no_rows, failed, Querier}
use go_clipboard.Clips.{slug_in_use, not_found}
use go_clipboard.Clips.Postgres.{claimed, read_row, claim_clip, get_live_clip}

abbrev pub claim_params : Bytes → Bytes → Time → Time → ClaimClipParams
claim_params slug body created expires = record {
  slug = slug;
  body = body;
  created_at = record { time = created; valid = true };
  expires_at = record { time = expires; valid = true };
}

claimed_iff : (r : Result QueryError Row) → (claimed r ≡ err slug_in_use) ↔ (r ≡ err no_rows)
claimed_iff (ok row) = (λ h. cc, λ h. cc)
claimed_iff (err no_rows) = (λ h. refl, λ h. refl)
claimed_iff (err (failed m)) = (λ h. cc, λ h. cc)

read_row_iff : (r : Result QueryError Row) → (read_row r ≡ err not_found) ↔ (r ≡ err no_rows)
read_row_iff (ok row) = (λ h. cc, λ h. cc)
read_row_iff (err no_rows) = (λ h. refl, λ h. refl)
read_row_iff (err (failed m)) = (λ h. cc, λ h. cc)

-- "Slug in use" is reported exactly when the claim returned no row, and "not found" exactly when
-- the read returned none: a query that fails in another way is never taken for either.
pub no_rows_iff :
    {S : Type 0} (queries : Querier S) (now : Time) (slug body : Bytes) (created expires : Time)
    (s : S)
    → (((claim_clip queries now slug body created expires s).0 ≡ err slug_in_use)
        ↔ ((queries.claim_clip now (claim_params slug body created expires) s).0 ≡ err no_rows))
      × ((get_live_clip queries now slug s ≡ err not_found)
          ↔ (queries.get_live_clip now slug s ≡ err no_rows))
unfolding claim_clip get_live_clip
no_rows_iff queries now slug body created expires s = (claimed_iff _, read_row_iff _)
