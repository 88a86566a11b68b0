-- ===== src/Clips/Service/Create.antt =====
-- internal/clips/service.go: when `Create` claims a slug, and for how long.
use go_clipboard.Base.{
  ◌+◌, ◌*◌, ◌≤◌, ◌<◌, ◌≡◌, ◌≢◌, refl, ap, ◌∙◌, ◌⊎◌, inl, inr, ◌↔◌, Option, none, some, Bytes,
  Result, Result-cases, ok, err, if◌then◌else◌, arith, Bool-cases, Option-cases, ltb, length,
}
use go_clipboard.Clock.{Time, Duration, add, minute}
use go_clipboard.Slug.{validate}
use go_clipboard.Slug.Rules.{IsSlug, validate-none_iff}
use go_clipboard.Clips.{
  Error, invalid_slug, slug_in_use, body_too_large, Clip, max_body_bytes, resolve_ttl, anon_ceiling,
}
use go_clipboard.Clips.Ttl.{IsPreset, resolve_ttl_iff, resolve_ttl-err}
use go_clipboard.Clips.Store.{Store, IsStore}
use go_clipboard.Clips.Service.{CreateInput, CreateResult, claim, create}

-- An input that breaks no rule, with the lifetime that it stands for.
pub record IsAccepted (input : CreateInput) (ttl : Duration) : Type 0 where
  pub slug : IsSlug input.slug
  pub body : length input.body ≤ 262144
  pub ttl_eq : resolve_ttl input.ttl ≡ ok ttl

-- The instant at which a clip claimed at `now` expires.
abbrev pub expiry : (Time → Time) → Time → Duration → Time
expiry keep now ttl = keep (add now ttl)

-- The clip of a claim.
abbrev pub claimed_clip : (Time → Time) → Time → CreateInput → Duration → Clip
claimed_clip keep now input ttl = record {
  slug = input.slug;
  body = input.body;
  created_at = keep now;
  expires_at = expiry keep now ttl;
}

resolve_ttl-IsPreset : (t d : Duration) → resolve_ttl t ≡ ok d → IsPreset d
resolve_ttl-IsPreset t d h = ground (arith, (resolve_ttl_iff t d).0 h)

-- The result of `Create` as a function of the input and of the clip that is live under the name.
unfoldable pub outcome :
    (Time → Time) → Time → CreateInput → Option Clip → Result Error CreateResult
outcome keep now input live = elim (validate input.slug) [
  | some e ↦ err (invalid_slug e)
  | none ↦
      if ltb max_body_bytes (length input.body)
      then err body_too_large
      else (elim (resolve_ttl input.ttl) [
        | err e ↦ err e
        | ok ttl ↦ elim live [
          | some c ↦ err slug_in_use
          | none ↦ ok (record { slug = input.slug; expires_at = expiry keep now ttl })
        ]
      ])
]

module _ {S : Type 0} (st : Store S) (now db_now : Time) (input : CreateInput) (s : S) where
  -- An accepted input goes on to the claim.
  pub create-IsAccepted :
      (ttl : Duration)
      → IsAccepted input ttl
      → create st now db_now input s ≡ claim st now db_now input ttl s
  unfolding create
  create-IsAccepted ttl a =
      rw ((validate-none_iff input.slug).1 a.slug, create)
        (elim (Bool-cases (ltb max_body_bytes (length input.body))) [
          | inl long ↦ absurd (ground (arith, long, a.body))
          | inr fits ↦ rw (fits, a.ttl_eq) refl
        ])

  -- Any other input is refused before the store is called.
  create_refused :
      ((ttl : Duration) × IsAccepted input ttl)
      ⊎ ((e : Error) × (create st now db_now input s ≡ (err e, s)) × (e ≢ slug_in_use))
  unfolding create
  create_refused = elim (Option-cases (validate input.slug)) [
    | inr (e, bad) ↦ inr (invalid_slug e, rw (bad, create) refl, ground arith)
    | inl named ↦ elim (Bool-cases (ltb max_body_bytes (length input.body))) [
      | inl long ↦ inr (body_too_large, rw (named, create) (rw long refl), ground arith)
      | inr fits ↦ elim (Result-cases (resolve_ttl input.ttl)) [
        | inl (ttl, chosen) ↦ inl (
          ttl,
          record {
            slug = (validate-none_iff input.slug).0 named;
            body = ground (arith, fits);
            ttl_eq = chosen;
          },
        )
        | inr (e, refused) ↦ inr (
          e,
          rw (named, create) (rw (fits, refused) refl),
          ground (arith, resolve_ttl-err input.ttl e refused),
        )
      ]
    ]
  ]

module _ {S : Type 0} (st : Store S) (IsValid : S → Type 0) (view : Time → Bytes → S → Option Clip)
    (keep : Time → Time) (law : IsStore st IsValid view keep) (now db_now : Time)
    (input : CreateInput) (s : S) (valid : IsValid s) where
  claim_free :
      (ttl : Duration)
      → view db_now input.slug s ≡ none
      → claim st now db_now input ttl s ≡ (
        ok (record { slug = input.slug; expires_at = expiry keep now ttl }),
        (st.claim_clip db_now input.slug input.body now (add now ttl) s).1,
      )
  unfolding claim
  claim_free ttl free =
      rw (law.claim_free db_now input.slug input.body now (add now ttl) s valid free) refl

  claim_taken :
      (ttl : Duration) (c : Clip)
      → view db_now input.slug s ≡ some c
      → claim st now db_now input ttl s ≡ (err slug_in_use, s)
  unfolding claim
  claim_taken ttl c live =
      rw (law.claim_taken db_now input.slug input.body now (add now ttl) c s valid live) refl

  -- The three ways a `Create` ends.
  pub create-cases :
      ((ttl : Duration) × IsAccepted input ttl
        × (view db_now input.slug s ≡ none)
        × (create st now db_now input s ≡ (
          ok (record { slug = input.slug; expires_at = expiry keep now ttl }),
          (st.claim_clip db_now input.slug input.body now (add now ttl) s).1,
        )))
      ⊎ ((ttl : Duration) × IsAccepted input ttl
          × (c : Clip) × (view db_now input.slug s ≡ some c)
          × (create st now db_now input s ≡ (err slug_in_use, s)))
      ⊎ ((e : Error) × (create st now db_now input s ≡ (err e, s)) × (e ≢ slug_in_use))
  create-cases = elim (create_refused st now db_now input s) [
    | inr refused ↦ inr (inr refused)
    | inl (ttl, a) ↦ elim (Option-cases (view db_now input.slug s)) [
      | inl free ↦
          inl (ttl, a, free, create-IsAccepted st now db_now input s ttl a ∙ claim_free ttl free)
      | inr (c, live) ↦ inr (
          inl (
            ttl,
            a,
            c,
            live,
            create-IsAccepted st now db_now input s ttl a ∙ claim_taken ttl c live,
          ))
    ]
  ]

  -- `Create` succeeds exactly when the name, the body and the lifetime are accepted and no clip is
  -- live under the name; its result is the name with the expiry, the lifetime after `now`.
  pub create-ok_iff :
      (r : CreateResult)
      → ((create st now db_now input s).0 ≡ ok r) ↔ (
          (ttl : Duration) × IsAccepted input ttl
          × (view db_now input.slug s ≡ none)
          × (r ≡ record { slug = input.slug; expires_at = expiry keep now ttl }))
  create-ok_iff r = (
    λ h. elim create-cases [
      | inl (ttl, a, free, e) ↦ (ttl, a, free, ground (arith, h, e))
      | inr (inl (ttl, a, c, live, e)) ↦ absurd (ground (arith, h, e))
      | inr (inr (x, e, other)) ↦ absurd (ground (arith, h, e))
    ],
    λ (ttl, a, free, is).
        rw (create-IsAccepted st now db_now input s ttl a, claim_free ttl free, is) refl,
  )

  -- `Create` reports that the slug is in use exactly when the input is accepted and a clip is live
  -- under the name.
  pub create-in_use_iff : ((create st now db_now input s).0 ≡ err slug_in_use) ↔ (
      ((ttl : Duration) × IsAccepted input ttl)
      × ((c : Clip) × (view db_now input.slug s ≡ some c)))
  create-in_use_iff = (
    λ h. elim create-cases [
      | inl (ttl, a, free, e) ↦ absurd (ground (arith, h, e))
      | inr (inl (ttl, a, c, live, e)) ↦ ((ttl, a), (c, live))
      | inr (inr (x, e, other)) ↦ absurd (ground (arith, h, e, other))
    ],
    λ ((ttl, a), (c, live)).
        rw (create-IsAccepted st now db_now input s ttl a, claim_taken ttl c live) refl,
  )

  -- A `Create` that fails leaves the store as it was.
  pub create-err_unchanged :
      (e : Error) → (create st now db_now input s).0 ≡ err e → (create st now db_now input s).1 ≡ s
  create-err_unchanged e h = elim create-cases [
    | inl (ttl, a, free, x) ↦ absurd (ground (arith, h, x))
    | inr (inl (ttl, a, c, live, x)) ↦ rw x refl
    | inr (inr (y, x, other)) ↦ rw x refl
  ]

  -- A clip that was created expires a preset lifetime after `now`, within a microsecond: not
  -- before ten minutes are over, and never past the ceiling of two hours.
  pub create_lifetime :
      (r : CreateResult)
      → (create st now db_now input s).0 ≡ ok r
      → (now + 10 * minute < r.expires_at + 1000) × (r.expires_at ≤ now + anon_ceiling)
  create_lifetime r h =
      let (ttl, a, free, is) = (create-ok_iff r).0 h in
      ground (
        arith,
        is,
        resolve_ttl-IsPreset input.ttl ttl a.ttl_eq,
        law.keep_le (add now ttl),
        law.keep_near (add now ttl),
      )

  -- The result of `Create`, on every branch: the first rule that the input breaks in the order name,
  -- body, lifetime; else whether a clip is live under the name.
  pub create-outcome :
      (create st now db_now input s).0 ≡ outcome keep now input (view db_now input.slug s)
  unfolding create outcome
  create-outcome = elim (Option-cases (validate input.slug)) [
    | inr (e, bad) ↦ rw (bad, create, outcome) refl
    | inl named ↦ elim (Bool-cases (ltb max_body_bytes (length input.body))) [
      | inl long ↦ rw (named, create, outcome) (rw long refl)
      | inr fits ↦ elim (Result-cases (resolve_ttl input.ttl)) [
        | inr (e, refused) ↦ rw (named, create, outcome) (rw (fits, refused) refl)
        | inl (ttl, chosen) ↦ elim (Option-cases (view db_now input.slug s)) [
          | inl free ↦
              rw (named, create, outcome)
                (rw (fits, chosen, free)
                  (ap (λ (x : Result Error CreateResult × S). x.0) (claim_free ttl free)))
          | inr (c, live) ↦
              rw (named, create, outcome)
                (rw (fits, chosen, live)
                  (ap (λ (x : Result Error CreateResult × S). x.0) (claim_taken ttl c live)))
        ]
      ]
    ]
  ]
