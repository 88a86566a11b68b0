-- ===== src/Openapi/Answers.antt =====
-- docs/api/openapi.yaml against internal/httpapi/server.go: what the endpoints answer, with their limiters.
use go_clipboard.Base.{
  ℕ, ◌≡◌, ◌≢◌, refl, ◌⊎◌, inl, inr, Bool, true, false, ◌==◌, Bytes, String, [], ◌∷◌, Option, none,
  some, Result, ok, err, Bool-cases, arith, Result-cases, Option-cases,
}
use go_clipboard.Base.Map.{Map}
use go_clipboard.Clock.{Time, Duration}
use go_clipboard.Db.{QueryError, no_rows, failed, Querier, Row}
use go_clipboard.Clips.{
  Error, invalid_slug, slug_in_use, not_found, body_too_large, invalid_ttl, failure, Clip,
}
use go_clipboard.Slug.{validate}
use go_clipboard.Clips.Store.{Store, IsStore}
use go_clipboard.Clips.Service.{available, read_result}
use go_clipboard.Clips.Service
use go_clipboard.Clips.Postgres.{pg_store, get_live_clip, slug_is_live, read_row, passed_on}
use go_clipboard.RateLimit.{Entry, MemoryLimiter, allow}
use go_clipboard.Http.{Request, Response}
use go_clipboard.Http.ClientIp.{Net, ClientIpConfig, client_ip}
use go_clipboard.Http.Clips.{
  Decoded, over_limit, malformed, request, create_from, create_decoded, requested_ttl, get_clip,
  get_clip_availability,
}
use go_clipboard.Http.Limiting.{rate_limit, too_many_requests}
use go_clipboard.Http.Limiting.Refusals.{rate_limit-allowed, rate_limit-refused}
use go_clipboard.Http.Server.{create, read, availability}
use go_clipboard.Openapi.Document.{is_declared}
use go_clipboard.Openapi.Declared.{
  IsCovered, clip_response-IsCovered, hint_response-IsCovered, created_response-IsCovered,
}

-- The response of a limited handler is the refusal, or that of the handler.
pub rate_limit-either :
    {S : Type 0} (P : Response → Type 0) (net : Net) (cfg : ClientIpConfig)
    (next : Request → S → Response × S) (order : Map Entry) (now : Time) (r : Request)
    (limiter : Option MemoryLimiter) (s : S)
    → ((d : Duration) → P (too_many_requests d))
    → P (next r s).0
    → P (rate_limit net cfg next order now r limiter s).0
unfolding rate_limit
rate_limit-either P net cfg next order now r none s refuse pass = pass
rate_limit-either P net cfg next order now r (some l) s refuse pass =
    elim (Bool-cases (allow order now (client_ip net r cfg) l).0.allowed) [
      | inl allowed ↦ rw (rate_limit-allowed net cfg next order now r l s allowed) pass
      | inr refused ↦
          rw (rate_limit-refused net cfg next order now r l s refused)
            (refuse (allow order now (client_ip net r cfg) l).0.retry_after)
    ]

-- What the reads of a store report as an error: that there is nothing, or a failure; the hint never says
-- that a name is in use.
pub record IsOwn {S : Type 0} (st : Store S) (s : S) : Type 0 where
  pub get_err :
      (now : Time) (slug : Bytes) (e : Error)
      → st.get_live_clip now slug s ≡ err e
      → (e ≡ not_found) ⊎ ((m : String) × (e ≡ failure m))
  pub live_err :
      (now : Time) (slug : Bytes) (e : Error) → st.slug_is_live now slug s ≡ err e → e ≢ slug_in_use

read_row-err :
    (row : Result QueryError Row) (e : Error)
    → read_row row ≡ err e
    → (e ≡ not_found) ⊎ ((m : String) × (e ≡ failure m))
read_row-err (ok row) e h = absurd (ground (arith, h))
read_row-err (err no_rows) e h = inl (ground (arith, h))
read_row-err (err (failed m)) e h = inr (m, ground (arith, h))

passed_on-err : (r : Result QueryError Bool) (e : Error) → passed_on r ≡ err e → e ≢ slug_in_use
passed_on-err (ok b) e h = absurd (ground (arith, h))
passed_on-err (err no_rows) e h = λ same. ground (arith, h, same)
passed_on-err (err (failed m)) e h = λ same. ground (arith, h, same)

pub pg_store-IsOwn : {S : Type 0} (queries : Querier S) (s : S) → IsOwn (pg_store queries) s
unfolding get_live_clip slug_is_live
pg_store-IsOwn queries s = record {
  get_err = λ now slug e. read_row-err (queries.get_live_clip now slug s) e;
  live_err = λ now slug e. passed_on-err (queries.slug_is_live now slug s) e;
}

pub IsStore-IsOwn :
    {S : Type 0} (st : Store S) (IsValid : S → Type 0) (view : Time → Bytes → S → Option Clip)
    (keep : Time → Time) (s : S)
    → IsStore st IsValid view keep
    → IsValid s
    → IsOwn st s
IsStore-IsOwn st IsValid view keep s law valid = record {
  get_err = λ now slug e h. elim (Option-cases (view now slug s)) [
    | inl gone ↦ inl (ground (arith, h, law.get_lem now slug s valid, gone))
    | inr (c, live) ↦ absurd (ground (arith, h, law.get_lem now slug s valid, live))
  ];
  live_err = λ now slug e h. absurd (ground (arith, h, law.live_lem now slug s valid));
}

read_result_lem : (r : Result Error Clip) → read_result r ≡ r
unfolding read_result
read_result_lem (ok c) = refl
read_result_lem (err (invalid_slug e)) = refl
read_result_lem (err slug_in_use) = refl
read_result_lem (err not_found) = refl
read_result_lem (err body_too_large) = refl
read_result_lem (err invalid_ttl) = refl
read_result_lem (err (failure m)) = refl

available-err :
    (r : Result Error Bool) (e : Error)
    → ((x : Error) → r ≡ err x → x ≢ slug_in_use)
    → available r ≡ err e
    → e ≢ slug_in_use
unfolding available
available-err (ok b) e own h = absurd (ground (arith, h))
available-err (err x) e own h = λ same. own x refl (ground (arith, h, same))

availability-err :
    {S : Type 0} (st : Store S) (s : S) (now : Time) (slug : Bytes) (e : Error)
    → IsOwn st s
    → Service.availability st now slug s ≡ err e
    → e ≢ slug_in_use
unfolding Service.availability
availability-err st s now slug e own h = elim (Option-cases (validate slug)) [
  | inr (bad, invalid) ↦ λ same. ground (arith, h, invalid, same)
  | inl named ↦
      available-err (st.slug_is_live now slug s) e (own.live_err now slug)
        (ground (arith, h, named))
]

module _ (format : Time → Bytes) (is_date_time : Bytes → Bool)
    (printed : (t : Time) → is_date_time (format t) ≡ true) {S : Type 0} (st : Store S)
    (decode : ℕ → Bytes → Decoded) where
  pub create_from-IsCovered :
      (now db_now : Time) (d : Decoded) (s : S)
      → IsCovered format is_date_time printed create (create_from st decode now db_now d s).0
  unfolding create_from create_decoded is_declared
  create_from-IsCovered now db_now over_limit s = inl refl
  create_from-IsCovered now db_now malformed s = inl refl
  create_from-IsCovered now db_now (request req false) s = inl refl
  create_from-IsCovered now db_now (request req true) s =
      elim (Result-cases (requested_ttl req.ttl_seconds)) [
        | inl (ttl, h) ↦ rw h (created_response-IsCovered format is_date_time printed _)
        | inr (e, h) ↦ rw h (inl refl)
      ]

  pub get_clip-IsCovered :
      (now db_now : Time) (slug : Bytes) (s : S)
      → IsOwn st s
      → slug ≢ []
      → IsCovered format is_date_time printed read (get_clip st now db_now slug s)
  unfolding get_clip Service.read ◌==◌
  get_clip-IsCovered now db_now [] s own named = absurd (named refl)
  get_clip-IsCovered now db_now (c ∷ slug) s own named =
      rw (read_result_lem (st.get_live_clip db_now (c ∷ slug) s)) (
        clip_response-IsCovered format is_date_time printed now
          (st.get_live_clip db_now (c ∷ slug) s) (own.get_err db_now (c ∷ slug)))

  pub hint-IsCovered :
      (now : Time) (slug : Bytes) (s : S)
      → IsOwn st s
      → IsCovered format is_date_time printed availability (get_clip_availability st now slug s)
  unfolding get_clip_availability is_declared
  hint-IsCovered now slug s own = elim (Bool-cases (slug == [])) [
    | inl empty ↦ rw empty (inl refl)
    | inr named ↦ rw named (
        hint_response-IsCovered format is_date_time printed slug
          (Service.availability st now slug s) (λ e. availability-err st s now slug e own))
  ]
