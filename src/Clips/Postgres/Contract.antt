-- ===== src/Clips/Postgres/Contract.antt =====
-- internal/clips/pgstore.go over internal/db: the statements keep the contract of `store` on texts.
use go_clipboard.Base.{
  ◌+◌, ◌-◌, ◌≤◌, ◌<◌, ◌≡◌, refl, ap, subst, inl, inr, true, Option, none, some, Bytes, ◌==◌, ==_iff,
  Result, ok, err, if◌then◌else◌, [], ◌∷◌, arith, Bool, Bool-cases, Option-cases, ltb, leb, length,
  ◌&&◌, false,
}
use go_clipboard.Base.Map.{lookup, insert, Distinct, lookup-insert, insert-Distinct}
use go_clipboard.Clock.{Time}
use go_clipboard.Clips.{Error, slug_in_use, failure, Clip}
use go_clipboard.Clips.Store.{IsTextStore, found_or_missing, is_some}
use go_clipboard.Db.{
  Row, Table, not_a_text, claim_statement, delete_where_expired, delete_statement, get_statement,
  live_statement, queries,
}
use go_clipboard.Clips.Postgres.{
  clip_from_row, claim_clip, get_live_clip, delete_expired_clips, slug_is_live, pg_store,
}

abbrev pub live_row : Time → Option Row → Option Clip
live_row now none = none
live_row now (some row) = if ltb now row.expires_at.time then some (clip_from_row row) else none

-- The primary key: no slug twice, and each row under its own slug.
pub record IsTable (t : Table) : Type 0 where
  pub distinct : Distinct t
  pub keyed : (k : Bytes) (row : Row) → lookup k t ≡ some row → row.slug ≡ k

-- The row of a fresh claim.
abbrev new_row : (Time → Time) → Bytes → Bytes → Time → Time → Row
new_row column slug body created expires = record {
  slug = slug;
  body = body;
  created_at = record { time = column created; valid = true };
  expires_at = record { time = column expires; valid = true };
}

module _ (column : Time → Time) (is_text : Bytes → Bool) (now : Time) (slug body : Bytes)
    (created expires : Time) (t : Table) where
  claim_taken :
      (c : Clip)
      → (is_text slug && is_text body) ≡ true
      → live_row now (lookup slug t) ≡ some c
      → claim_clip (queries column is_text) now slug body created expires t ≡ (err slug_in_use, t)
  unfolding claim_clip claim_statement
  claim_taken c texts h = elim (Option-cases (lookup slug t)) [
    | inl missing ↦ absurd (ground (arith, missing, h))
    | inr (row, found) ↦ elim (Bool-cases (leb row.expires_at.time now)) [
      | inl expired ↦ absurd (ground (arith, found, expired, h))
      | inr live ↦ rw (found, claim_statement) (rw (texts, live) refl)
    ]
  ]

  claim_free :
      IsTable t
      → (is_text slug && is_text body) ≡ true
      → live_row now (lookup slug t) ≡ none
      → claim_clip (queries column is_text) now slug body created expires t ≡ (
        ok (clip_from_row (new_row column slug body created expires)),
        insert slug (new_row column slug body created expires) t,
      )
  unfolding claim_clip claim_statement
  claim_free v texts h = elim (Option-cases (lookup slug t)) [
    | inl missing ↦ rw (missing, claim_statement) (rw texts refl)
    | inr (row, found) ↦ elim (Bool-cases (leb row.expires_at.time now)) [
      | inl expired ↦ rw (found, claim_statement) (rw (texts, expired, v.keyed slug row found) refl)
      | inr live ↦ absurd (ground (arith, found, live, h))
    ]
  ]

  claim_refused :
      (is_text slug && is_text body) ≡ false
      → claim_clip (queries column is_text) now slug body created expires t
        ≡ (err (failure not_a_text), t)
  unfolding claim_clip claim_statement
  claim_refused bad = rw bad refl

insert-IsTable :
    (slug : Bytes) (row : Row) (t : Table)
    → row.slug ≡ slug
    → IsTable t
    → IsTable (insert slug row t)
insert-IsTable slug row t own v = record {
  distinct = insert-Distinct slug row t v.distinct;
  keyed = λ k r h. ground (arith, lookup-insert slug k row t, h, ==_iff slug k, own, v.keyed k r);
}

lookup-delete_where_expired :
    (now : Time) (t : Table) (k : Bytes)
    → Distinct t
    → lookup k (delete_where_expired now t) ≡ elim (lookup k t) [
      | none ↦ none
      | some row ↦ if leb row.expires_at.time now then none else some row
    ]
unfolding lookup delete_where_expired
lookup-delete_where_expired now [] k d = refl
lookup-delete_where_expired now ((j, row) ∷ t) k d = elim (Bool-cases (j == k)) [
  | inl same ↦ ground (
    arith,
    lookup-delete_where_expired now t k d.1,
    subst (λ x. lookup x t ≡ none) ((==_iff j k).0 same) d.0,
  )
  | inr other ↦ ground (arith, lookup-delete_where_expired now t k d.1)
]

delete_where_expired-Distinct :
    (now : Time) (t : Table) → Distinct t → Distinct (delete_where_expired now t)
unfolding delete_where_expired
delete_where_expired-Distinct now [] d = tt
delete_where_expired-Distinct now ((j, row) ∷ t) d =
    elim (Bool-cases (leb row.expires_at.time now)) [
      | inl expired ↦ rw expired (delete_where_expired-Distinct now t d.1)
      | inr live ↦ rw live (
        ground (arith, lookup-delete_where_expired now t j d.1, d.0),
        delete_where_expired-Distinct now t d.1,
      )
    ]

delete_where_expired_le : (now : Time) (t : Table) → length (delete_where_expired now t) ≤ length t
unfolding delete_where_expired
delete_where_expired_le now [] = omega arith
delete_where_expired_le now (x ∷ t) = ground (arith, delete_where_expired_le now t)

delete_where_expired-IsTable :
    (now : Time) (t : Table) → IsTable t → IsTable (delete_where_expired now t)
delete_where_expired-IsTable now t v = record {
  distinct = delete_where_expired-Distinct now t v.distinct;
  keyed =
      λ k row h. v.keyed k row (ground (arith, lookup-delete_where_expired now t k v.distinct, h));
}

view-sweep :
    (now later : Time) (slug : Bytes) (t : Table)
    → Distinct t
    → now ≤ later
    → live_row later (lookup slug (delete_where_expired now t)) ≡ live_row later (lookup slug t)
view-sweep now later slug t d h = ground (arith, lookup-delete_where_expired now t slug d)

view-claim :
    (column : Time → Time) (is_text : Bytes → Bool) (now later : Time) (slug body : Bytes)
    (created expires : Time) (j : Bytes) (t : Table)
    → IsTable t
    → (is_text slug && is_text body) ≡ true
    → live_row now (lookup slug t) ≡ none
    → live_row later
        (lookup j (claim_clip (queries column is_text) now slug body created expires t).1)
      ≡ (if slug == j
          then (if ltb later (column expires)
              then some (clip_from_row (new_row column slug body created expires))
              else none)
          else live_row later (lookup j t))
view-claim column is_text now later slug body created expires j t v texts free =
    rw (claim_free column is_text now slug body created expires t v texts free, lookup-insert)
      (elim (Bool-cases (slug == j)) [ inl same ↦ rw same refl | inr other ↦ rw other refl ])

claim-IsTable :
    (column : Time → Time) (is_text : Bytes → Bool) (now : Time) (slug body : Bytes)
    (created expires : Time) (t : Table)
    → IsTable t
    → IsTable (claim_clip (queries column is_text) now slug body created expires t).1
claim-IsTable column is_text now slug body created expires t v =
    elim (Bool-cases (is_text slug && is_text body)) [
      | inl texts ↦ elim (Option-cases (live_row now (lookup slug t))) [
        | inl free ↦
            rw (claim_free column is_text now slug body created expires t v texts free)
              (insert-IsTable slug _ t refl v)
        | inr (c, live) ↦
            rw (claim_taken column is_text now slug body created expires t c texts live) v
      ]
      | inr bad ↦ rw (claim_refused column is_text now slug body created expires t bad) v
    ]

module _ (column : Time → Time) (is_text : Bytes → Bool) (now : Time) (slug : Bytes)
    (t : Table) where
  get_text :
      is_text slug ≡ true
      → get_live_clip (queries column is_text) now slug t
        ≡ found_or_missing (live_row now (lookup slug t))
  unfolding get_live_clip get_statement
  get_text text = ground (arith, text)

  get_refused :
      is_text slug ≡ false
      → get_live_clip (queries column is_text) now slug t ≡ err (failure not_a_text)
  unfolding get_live_clip get_statement
  get_refused bad = rw bad refl

  live_text :
      is_text slug ≡ true
      → slug_is_live (queries column is_text) now slug t
        ≡ ok (is_some (live_row now (lookup slug t)))
  unfolding slug_is_live live_statement
  live_text text = ground (arith, text)

  live_refused :
      is_text slug ≡ false
      → slug_is_live (queries column is_text) now slug t ≡ err (failure not_a_text)
  unfolding slug_is_live live_statement
  live_refused bad = rw bad refl

sweep_lem :
    (column : Time → Time) (is_text : Bytes → Bool) (now : Time) (t : Table)
    → delete_expired_clips (queries column is_text) now t
      ≡ (ok (length t - length (delete_where_expired now t)), delete_where_expired now t)
unfolding delete_expired_clips delete_statement
sweep_lem column is_text now t = refl

-- The store over the four SQL statements, on tables that meet their primary key, if a column loses less
-- than a microsecond of an instant and never adds to it. For a name and a body that the database takes
-- as texts: the clip that is live under a name is the table's row, if it has not expired; reads and
-- hints report it, a claim of its name is refused as in use, and a claim of a free name stores its clip
-- and leaves the other names as they are. A claim, a read or a hint with a byte string that is no text
-- fails with an error of the database, which is neither "in use" nor "not found", and changes nothing.
-- A sweep succeeds and changes no live clip.
pub postgres-IsTextStore :
    (column : Time → Time) (is_text : Bytes → Bool)
    → ((t : Time) → column t ≤ t)
    → ((t : Time) → t < column t + 1000)
    → IsTextStore is_text
        (pg_store (queries column is_text))
        IsTable
        (λ now slug t. live_row now (lookup slug t))
        column
postgres-IsTextStore column is_text le near = record {
  keep_le = le;
  keep_near = near;
  get_text = λ now slug t _. get_text column is_text now slug t;
  get_refused = λ now slug t bad. (_, get_refused column is_text now slug t bad);
  live_text = λ now slug t _. live_text column is_text now slug t;
  live_refused = λ now slug t bad. (_, live_refused column is_text now slug t bad);
  claim_taken = λ now slug body created expires c t _ texts h.
      claim_taken column is_text now slug body created expires t c texts h;
  claim_free = λ now slug body created expires t v texts h.
      ap (λ (x : Result Error Clip × Table). x.0)
        (claim_free column is_text now slug body created expires t v texts h);
  claim_refused = λ now slug body created expires t bad.
      (_, claim_refused column is_text now slug body created expires t bad);
  claim-IsValid = claim-IsTable column is_text;
  view-claim = view-claim column is_text;
  sweep_ok = λ now t _. rw (sweep_lem column is_text now t) (_, refl);
  sweep-IsValid =
      λ now t v. rw (sweep_lem column is_text now t) (delete_where_expired-IsTable now t v);
  view-sweep = λ now later slug t v h.
      rw (sweep_lem column is_text now t) (view-sweep now later slug t v.distinct h);
}
