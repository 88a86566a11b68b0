-- ===== src/Http/Clips/Replies.antt =====
-- internal/httpapi/clips.go: what the endpoints answer, over a store that keeps its contract.
use go_clipboard.Base.{
  ℕ, ◌≡◌, ◌≢◌, refl, subst, ◌↔◌, ◌⊎◌, inl, inr, true, false, Bytes, ◌==◌, ==_refl, [], ◌∷◌, Option,
  none, Result, ok, err, Result-cases, Option-cases, Bool-cases, if◌then◌else◌, arith, ltb, length,
}
use go_clipboard.Clock.{Time, Duration}
use go_clipboard.Slug.Rules.{IsSlug}
use go_clipboard.Clips.{
  Error, invalid_slug, slug_in_use, not_found, body_too_large, invalid_ttl, failure, Clip,
  max_body_bytes, resolve_ttl,
}
use go_clipboard.Clips.Store.{Store, IsStore}
use go_clipboard.Clips.Service.{CreateInput, CreateResult, create}
use go_clipboard.Clips.Ttl.{resolve_ttl-err}
use go_clipboard.Slug.{validate}
use go_clipboard.Clips.Service.Create.{
  create-err_unchanged, create-ok_iff, create-outcome, outcome, IsAccepted, expiry,
}
use go_clipboard.Clips.Service.Reading.{read-create}
use go_clipboard.Http.{Request, write_json, write_error, create_response, read_response}
use go_clipboard.Http.Clips.{
  CreateClipRequest, Decoded, over_limit, malformed, request, max_create_body_bytes,
  write_clip_error, requested_ttl, created_response, create_decoded, create_from, create_clip,
  clip_response, get_clip,
}

abbrev pub input_of : CreateClipRequest → Duration → CreateInput
input_of req ttl = record { slug = req.slug; body = req.body; ttl = ttl }

-- The responses to errors are not 201.
write_clip_error-ne-201 : (e : Error) → (write_clip_error e).status ≢ 201
unfolding write_clip_error
write_clip_error-ne-201 (invalid_slug e) = omega arith
write_clip_error-ne-201 slug_in_use = omega arith
write_clip_error-ne-201 not_found = omega arith
write_clip_error-ne-201 body_too_large = omega arith
write_clip_error-ne-201 invalid_ttl = omega arith
write_clip_error-ne-201 (failure m) = omega arith

created_response-201 :
    (r : Result Error CreateResult)
    → (created_response r).status ≡ 201
    → (res : CreateResult) × (r ≡ ok res)
unfolding created_response
created_response-201 (ok res) h = (res, refl)
created_response-201 (err e) h = absurd (write_clip_error-ne-201 e h)

module _ {S : Type 0} (st : Store S) (decode : ℕ → Bytes → Decoded) (now db_now : Time)
    (s : S) where
  -- A request that is decoded and names a lifetime that is allowed goes on to `Create`.
  create_from-request :
      (req : CreateClipRequest) (ttl : Duration)
      → requested_ttl req.ttl_seconds ≡ ok ttl
      → create_from st decode now db_now (request req true) s ≡ (
        created_response (create st now db_now (input_of req ttl) s).0,
        (create st now db_now (input_of req ttl) s).1,
      )
  unfolding create_from create_decoded
  create_from-request req ttl h = rw h refl

  -- Any other is answered by 400, and the store is not called.
  create_from-cases :
      (d : Decoded)
      → ((req : CreateClipRequest) × (ttl : Duration) × (d ≡ request req true)
          × (requested_ttl req.ttl_seconds ≡ ok ttl))
        ⊎ (((create_from st decode now db_now d s).0.status ≡ 400)
            × ((create_from st decode now db_now d s).1 ≡ s))
  unfolding create_from create_decoded
  create_from-cases over_limit = inr (refl, refl)
  create_from-cases malformed = inr (refl, refl)
  create_from-cases (request req false) = inr (refl, refl)
  create_from-cases (request req true) = elim (Result-cases (requested_ttl req.ttl_seconds)) [
    | inl (ttl, h) ↦ inl (req, ttl, refl, h)
    | inr (e, h) ↦ inr (rw h refl, rw h refl)
  ]

-- An accepted name is not empty.
IsSlug-nonempty : (slug : Bytes) → IsSlug slug → (slug == []) ≡ false
unfolding ◌==◌
IsSlug-nonempty [] h = absurd (ground (arith, h.at_least))
IsSlug-nonempty (c ∷ s) h = refl

outcome-cases :
    (keep : Time → Time) (now : Time) (input : CreateInput) (live : Option Clip)
    → ((r : CreateResult) × (outcome keep now input live ≡ ok r))
      ⊎ ((e : Error) × (outcome keep now input live ≡ err e) × ((write_clip_error e).status ≡ 400))
      ⊎ (outcome keep now input live ≡ err slug_in_use)
unfolding outcome write_clip_error
outcome-cases keep now input live = elim (Option-cases (validate input.slug)) [
  | inr (e, bad) ↦ inr (inl (invalid_slug e, rw (bad, outcome) refl, refl))
  | inl named ↦ elim (Bool-cases (ltb max_body_bytes (length input.body))) [
    | inl long ↦ inr (inl (body_too_large, rw (named, outcome) (rw long refl), refl))
    | inr fits ↦ elim (Result-cases (resolve_ttl input.ttl)) [
      | inr (e, refused) ↦ inr (
          inl (
            invalid_ttl,
            rw (named, outcome) (rw (fits, refused, resolve_ttl-err input.ttl e refused) refl),
            refl,
          ))
      | inl (ttl, chosen) ↦ elim (Option-cases live) [
        | inl free ↦ inl (
          record { slug = input.slug; expires_at = expiry keep now ttl },
          rw (named, outcome) (rw (fits, chosen, free) refl),
        )
        | inr (c, taken) ↦ inr (inr (rw (named, outcome) (rw (fits, chosen, taken) refl)))
      ]
    ]
  ]
]

outcome-status :
    (keep : Time → Time) (now : Time) (input : CreateInput) (live : Option Clip)
    → ((created_response (outcome keep now input live)).status ≡ 201)
      ⊎ ((created_response (outcome keep now input live)).status ≡ 400)
      ⊎ ((created_response (outcome keep now input live)).status ≡ 409)
unfolding created_response
outcome-status keep now input live = elim (outcome-cases keep now input live) [
  | inl (r, h) ↦ rw h (inl refl)
  | inr (inl (e, h, bad)) ↦ rw h (inr (inl bad))
  | inr (inr h) ↦ rw h (inr (inr refl))
]

module _ {S : Type 0} (st : Store S) (IsValid : S → Type 0) (view : Time → Bytes → S → Option Clip)
    (keep : Time → Time) (law : IsStore st IsValid view keep) (decode : ℕ → Bytes → Decoded)
    (now db_now : Time) (r : Request) (s : S) (valid : IsValid s) where
  -- The handler answers 201, 400 or 409, never an internal error, over a store that keeps its
  -- contract.
  pub create_clip-status :
      ((create_clip st decode now db_now r s).0.status ≡ 201)
      ⊎ ((create_clip st decode now db_now r s).0.status ≡ 400)
      ⊎ ((create_clip st decode now db_now r s).0.status ≡ 409)
  unfolding create_clip
  create_clip-status =
      elim (create_from-cases st decode now db_now s (decode max_create_body_bytes r.body)) [
        | inr (bad, same) ↦ inr (inl bad)
        | inl (req, ttl, e, h) ↦
            rw
              (
                e,
                create_from-request st decode now db_now s req ttl h,
                create-outcome st IsValid view keep law now db_now (input_of req ttl) s valid,
              )
              (outcome-status keep now (input_of req ttl) (view db_now req.slug s))
      ]

  -- `CreateClip` answers 201 exactly when the request is decoded, with nothing after it, its lifetime
  -- is allowed, its name and its body are accepted, and no clip is live under the name.
  pub create_clip-201_iff : ((create_clip st decode now db_now r s).0.status ≡ 201) ↔ (
      (req : CreateClipRequest) × (ttl : Duration) × (decode max_create_body_bytes r.body
        ≡ request req true)
      × (requested_ttl req.ttl_seconds ≡ ok ttl)
      × ((d : Duration) × IsAccepted (input_of req ttl) d)
      × (view db_now req.slug s ≡ none))
  unfolding create_clip created_response
  create_clip-201_iff = (
    λ h. elim (create_from-cases st decode now db_now s (decode max_create_body_bytes r.body)) [
      | inr (bad, same) ↦ absurd (omega arith)
      | inl (req, ttl, e, t) ↦
          let (res, done) =
            created_response-201 (create st now db_now (input_of req ttl) s).0
              (ground (arith, h, e, create_from-request st decode now db_now s req ttl t)) in
          let (d, a, free, is) =
            (create-ok_iff st IsValid view keep law now db_now (input_of req ttl) s valid res).0
              done in
          (req, ttl, e, t, (d, a), free)
    ],
    λ (req, ttl, e, t, (d, a), free).
        rw (e, create_from-request st decode now db_now s req ttl t)
          (rw
            ((create-ok_iff st IsValid view keep law now db_now (input_of req ttl) s valid _).1
              (d, a, free, refl))
            refl),
  )

  -- A request that is not answered by 201 leaves the store as it was.
  pub create_clip_unchanged :
      (create_clip st decode now db_now r s).0.status ≢ 201
      → (create_clip st decode now db_now r s).1 ≡ s
  unfolding create_clip created_response
  create_clip_unchanged h =
      elim (create_from-cases st decode now db_now s (decode max_create_body_bytes r.body)) [
        | inr (bad, same) ↦ same
        | inl (req, ttl, e, t) ↦
            let goes = create_from-request st decode now db_now s req ttl t in
            elim (Result-cases (create st now db_now (input_of req ttl) s).0) [
              | inl (res, done) ↦ absurd (h (rw (e, goes, done) refl))
              | inr (x, failed) ↦
                  rw (e, goes)
                    (create-err_unchanged st IsValid view keep law now db_now (input_of req ttl) s
                      valid x failed)
            ]
      ]

  -- A GET of a name that was just claimed.
  get_claimed :
      (input : CreateInput) (d : Duration) (later server_time : Time)
      → IsAccepted input d
      → view db_now input.slug s ≡ none
      → get_clip st server_time later input.slug (create st now db_now input s).1 ≡ (
          if ltb later (expiry keep now d)
          then write_json 200 (read_response input.slug input.body (expiry keep now d) server_time)
          else write_error 404 "not_found" "resource not found")
  unfolding get_clip clip_response write_clip_error
  get_claimed input d later server_time a free =
      let created =
        (create-ok_iff st IsValid view keep law now db_now input s valid _).1 (d, a, free, refl) in
      let found =
        read-create st IsValid view keep law now db_now input s valid
          (record { slug = input.slug; expires_at = expiry keep now d }) later input.slug created in
      rw (IsSlug-nonempty input.slug a.slug, get_clip, found, ==_refl input.slug)
        (elim (Bool-cases (ltb later (expiry keep now d))) [
          | inl live ↦ rw live refl
          | inr gone ↦ rw gone refl
        ])

  -- What a request that is answered by 201 did: it claimed the name until the expiry in the answer.
  pub create_clip-created :
      (create_clip st decode now db_now r s).0.status ≡ 201
      → (req : CreateClipRequest) × (ttl d : Duration) × (decode max_create_body_bytes r.body
          ≡ request req true)
        × IsAccepted (input_of req ttl) d
        × (view db_now req.slug s ≡ none)
        × ((create st now db_now (input_of req ttl) s).0
            ≡ ok (record { slug = req.slug; expires_at = expiry keep now d }))
        × (create_clip st decode now db_now r s ≡ (
          write_json 201 (create_response req.slug (expiry keep now d)),
          (create st now db_now (input_of req ttl) s).1,
        ))
  unfolding create_clip created_response
  create_clip-created h =
      let (req, ttl, e, t, (d, a), free) = create_clip-201_iff.0 h in
      let created =
        (create-ok_iff st IsValid view keep law now db_now (input_of req ttl) s valid _).1
          (d, a, free, refl) in
      let goes = create_from-request st decode now db_now s req ttl t in
      (req, ttl, d, e, a, free, created, rw (e, goes, created) refl)

  -- What is posted is served: after a request that is answered by 201, the answer's body is the name
  -- that was requested and an expiry; until that expiry a GET of the name answers 200 with the text
  -- that was posted, the expiry and the server's time, and from then on 404.
  pub get_clip-create_clip :
      (req : CreateClipRequest) (later server_time : Time)
      → decode max_create_body_bytes r.body ≡ request req true
      → (create_clip st decode now db_now r s).0.status ≡ 201
      → (expires : Time) × ((create_clip st decode now db_now r s).0.body
          ≡ create_response req.slug expires)
        × (get_clip st server_time later req.slug (create_clip st decode now db_now r s).1 ≡ (
            if ltb later expires
            then write_json 200 (read_response req.slug req.body expires server_time)
            else write_error 404 "not_found" "resource not found"))
  unfolding write_json
  get_clip-create_clip req later server_time e h =
      let (req', ttl, d, e', a, free, created, answer) = create_clip-created h in
      let same : req' ≡ req = ground (arith, e, e') in
      subst
        (λ q.
          (expires : Time) × ((create_clip st decode now db_now r s).0.body
            ≡ create_response q.slug expires)
          × (get_clip st server_time later q.slug (create_clip st decode now db_now r s).1 ≡ (
              if ltb later expires
              then write_json 200 (read_response q.slug q.body expires server_time)
              else write_error 404 "not_found" "resource not found")))
        same
        (
          expiry keep now d,
          rw answer refl,
          rw answer (get_claimed (input_of req' ttl) d later server_time a free),
        )
