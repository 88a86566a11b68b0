-- ===== src/Clips/Service/Reading.antt =====
-- internal/clips/service.go: what reads, the availability hint and later claims see.
use go_clipboard.Base.{
  ◌<◌, ◌≡◌, refl, sym, ◌∙◌, inl, inr, ◌↔◌, Bool, not, Option, none, some, Bytes, ◌==◌, ==_iff,
  Result, ok, err, if◌then◌else◌, arith, Bool-cases, Option-cases, ltb, lt→ltb,
}
use go_clipboard.Clock.{Time, Duration, add}
use go_clipboard.Slug.{ValidationError, validate}
use go_clipboard.Slug.Rules.{IsSlug, validate-none_iff}
use go_clipboard.Clips.{Error, invalid_slug, slug_in_use, not_found, Clip}
use go_clipboard.Clips.Store.{Store, IsStore, found_or_missing, is_some}
use go_clipboard.Clips.Service.{CreateInput, CreateResult, create, read, read_result, availability}
use go_clipboard.Clips.Service.Create.{
  IsAccepted, create-ok_iff, create-in_use_iff, create-cases, expiry,
}

read_result_lem : (o : Option Clip) → read_result (found_or_missing o) ≡ found_or_missing o
unfolding read_result
read_result_lem none = refl
read_result_lem (some c) = refl

-- The hint, from what the name's validation and the store say.
abbrev pub hint : Option ValidationError → Option Clip → Result Error Bool
hint (some e) o = err (invalid_slug e)
hint none o = ok (not (is_some o))

module _ {S : Type 0} (st : Store S) (IsValid : S → Type 0) (view : Time → Bytes → S → Option Clip)
    (keep : Time → Time) (law : IsStore st IsValid view keep) where
  -- A read gives the live clip, or says that there is none.
  pub read-view :
      (now : Time) (slug : Bytes) (s : S)
      → IsValid s
      → read st now slug s ≡ found_or_missing (view now slug s)
  unfolding read
  read-view now slug s valid = rw (law.get_lem now slug s valid) (read_result_lem (view now slug s))

  pub availability-hint :
      (now : Time) (slug : Bytes) (s : S)
      → IsValid s
      → availability st now slug s ≡ hint (validate slug) (view now slug s)
  unfolding availability
  availability-hint now slug s valid = elim (Option-cases (validate slug)) [
    | inl named ↦ rw (named, availability) (rw (law.live_lem now slug s valid) refl)
    | inr (e, bad) ↦ rw (bad, availability) refl
  ]

  -- The hint of availability is given for every name that a clip may have, and says that no clip is
  -- live under it.
  pub availability_iff :
      (now : Time) (slug : Bytes) (b : Bool) (s : S)
      → IsValid s
      → (availability st now slug s ≡ ok b) ↔ (IsSlug slug × (b ≡ not (is_some (view now slug s))))
  availability_iff now slug b s valid = rw (availability-hint now slug s valid) (
    λ h. ground (arith, h, (validate-none_iff slug).0),
    λ (named, is). ground (arith, is, (validate-none_iff slug).1 named),
  )

  module _ (now db_now : Time) (input : CreateInput) (s : S) (valid : IsValid s) where
    pub create-IsValid : IsValid (create st now db_now input s).1
    create-IsValid = elim (create-cases st IsValid view keep law now db_now input s valid) [
      | inl (ttl, a, free, e) ↦
          rw e (law.claim-IsValid db_now input.slug input.body now (add now ttl) s valid)
      | inr (inl (ttl, a, c, live, e)) ↦ rw e valid
      | inr (inr (x, e, other)) ↦ rw e valid
    ]

    -- The store after a successful `Create`: the new clip under its name until it expires, and every
    -- other name as before.
    pub view-create :
        (r : CreateResult) (later : Time) (j : Bytes)
        → (create st now db_now input s).0 ≡ ok r
        → view later j (create st now db_now input s).1 ≡ (
            if input.slug == j
            then (if ltb later r.expires_at
                then some (record {
                  slug = input.slug;
                  body = input.body;
                  created_at = keep now;
                  expires_at = r.expires_at;
                })
                else none)
            else view later j s)
    view-create r later j h =
        elim (create-cases st IsValid view keep law now db_now input s valid) [
          | inl (ttl, a, free, e) ↦
              let same : r.expires_at ≡ expiry keep now ttl = ground (arith, h, e) in
              rw (e, same)
                (law.view-claim db_now later input.slug input.body now (add now ttl) j s valid free)
          | inr (inl (ttl, a, c, live, e)) ↦ absurd (ground (arith, h, e))
          | inr (inr (x, e, other)) ↦ absurd (ground (arith, h, e))
        ]

    -- What was claimed is read back: after a successful `Create`, a read of the name gives the body
    -- that was sent until the expiry that was returned, and "not found" from then on. Reads of
    -- other names are as before.
    pub read-create :
        (r : CreateResult) (later : Time) (j : Bytes)
        → (create st now db_now input s).0 ≡ ok r
        → read st later j (create st now db_now input s).1 ≡ (
            if input.slug == j
            then (if ltb later r.expires_at
                then ok (record {
                  slug = input.slug;
                  body = input.body;
                  created_at = keep now;
                  expires_at = r.expires_at;
                })
                else err not_found)
            else read st later j s)
    read-create r later j h =
        rw
          (
            read-view later j (create st now db_now input s).1 create-IsValid,
            view-create r later j h,
          )
          (elim (Bool-cases (input.slug == j)) [
            | inl same ↦ rw same (elim (Bool-cases (ltb later r.expires_at)) [
              | inl live ↦ rw live refl
              | inr gone ↦ rw gone refl
            ])
            | inr other ↦ rw other (sym (read-view later j s valid))
          ])

    -- The hint and the claim agree: for an input that is accepted, a name reported as available at
    -- the instant of the claim is claimed, and one reported as not available is in use.
    pub availability-create :
        (ttl : Duration) (b : Bool)
        → IsAccepted input ttl
        → availability st db_now input.slug s ≡ ok b
        → (create st now db_now input s).0 ≡ (
            if b
            then ok (record { slug = input.slug; expires_at = expiry keep now ttl })
            else err slug_in_use)
    availability-create ttl b a h = elim (Option-cases (view db_now input.slug s)) [
      | inl free ↦
          rw
            ((create-ok_iff st IsValid view keep law now db_now input s valid _).1
              (ttl, a, free, refl))
            (ground (arith, free, (availability_iff db_now input.slug b s valid).0 h))
      | inr (c, live) ↦
          rw
            ((create-in_use_iff st IsValid view keep law now db_now input s valid).1
              ((ttl, a), (c, live)))
            (ground (arith, live, (availability_iff db_now input.slug b s valid).0 h))
    ]

    -- The first claim wins until it expires: after a successful `Create`, another accepted `Create`
    -- of the same name fails as in use exactly while the database's clock is before the expiry.
    pub create-create :
        (r : CreateResult) (now' db_later : Time) (second : CreateInput) (ttl : Duration)
        → (create st now db_now input s).0 ≡ ok r
        → second.slug ≡ input.slug
        → IsAccepted second ttl
        → ((create st now' db_later second (create st now db_now input s).1).0 ≡ err slug_in_use)
          ↔ (db_later < r.expires_at)
    create-create r now' db_later second ttl h same a =
        let s' = (create st now db_now input s).1 in
        let seen = view-create r db_later second.slug h in
        let taken =
          create-in_use_iff st IsValid view keep law now' db_later second s' create-IsValid in
        (
          λ refused.
              let (_, (c, live)) = taken.0 refused in
              ground (arith, seen, live, (==_iff input.slug second.slug).1 (sym same)),
          λ before. taken.1 (
            (ttl, a),
            (
              record {
                slug = input.slug;
                body = input.body;
                created_at = keep now;
                expires_at = r.expires_at;
              },
              seen ∙ rw ((==_iff input.slug second.slug).1 (sym same), lt→ltb _ _ before) refl,
            ),
          ),
        )
