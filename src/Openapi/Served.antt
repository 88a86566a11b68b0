-- ===== src/Openapi/Served.antt =====
-- docs/api/openapi.yaml against internal/httpapi/server.go: the endpoints answer as declared.
use go_clipboard.Base.{
  ℕ, ◌≡◌, ◌≢◌, refl, ap, inl, inr, Bool, true, Bytes, [], Option, none, some, arith, ◌==◌,
  Bool-cases,
}
use go_clipboard.Base.Map.{Map}
use go_clipboard.Clock.{Time}
use go_clipboard.Slug.{ValidationError, validate}
use go_clipboard.Clips.{Clip}
use go_clipboard.Clips.Store.{Store, IsStore, found_or_missing}
use go_clipboard.Clips.Service.Reading.{read-view, availability-hint, hint}
use go_clipboard.RateLimit.{Entry}
use go_clipboard.Http.{Request, Response, write_internal_error}
use go_clipboard.Http.ClientIp.{Net, ClientIpConfig}
use go_clipboard.Http.Clips.{
  Decoded, max_create_body_bytes, create_clip, get_clip, get_clip_availability, clip_response,
  hint_response,
}
use go_clipboard.Http.Clips.Replies.{create_clip-status}
use go_clipboard.Http.Health.{HealthDependencies}
use go_clipboard.Http.Health.Contract.{handle_health_iff}
use go_clipboard.Http.Limiting.{too_many_requests}
use go_clipboard.Http.Server.{Endpoint, health, create, read, availability, ServerState, serve}
use go_clipboard.Openapi.Document.{responses, is_declared}
use go_clipboard.Openapi.Declared.{
  IsCovered, handle_health-IsCovered, too_many_requests-create, too_many_requests-availability,
}
use go_clipboard.Openapi.Answers.{
  IsOwn, IsStore-IsOwn, rate_limit-either, create_from-IsCovered, get_clip-IsCovered,
  hint-IsCovered,
}

clip_response-ne-500 :
    (now : Time) (live : Option Clip) → (clip_response now (found_or_missing live)).status ≢ 500
unfolding clip_response
clip_response-ne-500 now none = omega arith
clip_response-ne-500 now (some c) = omega arith

hint_response-ne-500 :
    (slug : Bytes) (invalid : Option ValidationError) (live : Option Clip)
    → (hint_response slug (hint invalid live)).status ≢ 500
unfolding hint_response
hint_response-ne-500 slug none live = omega arith
hint_response-ne-500 slug (some e) live = omega arith

module _ {S : Type 0} (st : Store S) (IsValid : S → Type 0) (view : Time → Bytes → S → Option Clip)
    (keep : Time → Time) (law : IsStore st IsValid view keep) (net : Net) (cfg : ClientIpConfig)
    (decode : ℕ → Bytes → Decoded) (deps : HealthDependencies) where
  get_clip-ne-500 :
      (now db_now : Time) (slug : Bytes) (s : S)
      → IsValid s
      → (get_clip st now db_now slug s).status ≢ 500
  unfolding get_clip
  get_clip-ne-500 now db_now slug s valid = elim (Bool-cases (slug == [])) [
    | inl empty ↦ rw empty (omega arith)
    | inr named ↦
        rw (named, read-view st IsValid view keep law db_now slug s valid)
          (clip_response-ne-500 now (view db_now slug s))
  ]

  hint-ne-500 :
      (db_now : Time) (slug : Bytes) (s : S)
      → IsValid s
      → (get_clip_availability st db_now slug s).status ≢ 500
  unfolding get_clip_availability
  hint-ne-500 db_now slug s valid = elim (Bool-cases (slug == [])) [
    | inl empty ↦ rw empty (omega arith)
    | inr named ↦
        rw (named, availability-hint st IsValid view keep law db_now slug s valid)
          (hint_response-ne-500 slug (validate slug) (view db_now slug s))
  ]

  serve-ne-500 :
      (e : Endpoint) (order : Map Entry) (limit_now now db_now : Time) (slug : Bytes) (r : Request)
      (state : ServerState S)
      → IsValid state.store
      → (serve net cfg st decode deps e order limit_now now db_now slug r state).0.status ≢ 500
  unfolding serve too_many_requests
  serve-ne-500 health order limit_now now db_now slug r state valid =
      elim (handle_health_iff deps).1 [
        | inl up ↦ λ h. ground (arith, h, up)
        | inr down ↦ λ h. ground (arith, h, down)
      ]
  serve-ne-500 create order limit_now now db_now slug r state valid =
      rate_limit-either (λ resp. resp.status ≢ 500) net cfg (create_clip st decode now db_now) order
        limit_now r state.create_limiter state.store (λ d. omega arith)
        (λ h. ground (
          arith,
          create_clip-status st IsValid view keep law decode now db_now r state.store valid,
          h,
        ))
  serve-ne-500 read order limit_now now db_now slug r state valid =
      get_clip-ne-500 now db_now slug state.store valid
  serve-ne-500 availability order limit_now now db_now slug r state valid =
      rate_limit-either (λ resp. resp.status ≢ 500) net cfg
        (λ r' s'. (get_clip_availability st db_now slug s', s')) order limit_now r
        state.avail_limiter state.store (λ d. omega arith)
        (hint-ne-500 db_now slug state.store valid)

module _ (format : Time → Bytes) (is_date_time : Bytes → Bool)
    (printed : (t : Time) → is_date_time (format t) ≡ true) {S : Type 0} (net : Net)
    (cfg : ClientIpConfig) (decode : ℕ → Bytes → Decoded) (deps : HealthDependencies) where
  pub serve-IsCovered :
      (st : Store S) (e : Endpoint) (order : Map Entry) (limit_now now db_now : Time) (slug : Bytes)
      (r : Request) (state : ServerState S)
      → IsOwn st state.store
      → (e ≡ read → slug ≢ [])
      → IsCovered format is_date_time printed e
          (serve net cfg st decode deps e order limit_now now db_now slug r state).0
  unfolding serve create_clip
  serve-IsCovered st health order limit_now now db_now slug r state own named =
      inl (handle_health-IsCovered format is_date_time printed deps)
  serve-IsCovered st create order limit_now now db_now slug r state own named =
      rate_limit-either (IsCovered format is_date_time printed create) net cfg
        (create_clip st decode now db_now) order limit_now r state.create_limiter state.store
        (λ d. inl (too_many_requests-create format is_date_time printed d))
        (create_from-IsCovered format is_date_time printed st decode now db_now
          (decode max_create_body_bytes r.body) state.store)
  serve-IsCovered st read order limit_now now db_now slug r state own named =
      get_clip-IsCovered format is_date_time printed st decode now db_now slug state.store own
        (named refl)
  serve-IsCovered st availability order limit_now now db_now slug r state own named =
      rate_limit-either (IsCovered format is_date_time printed availability) net cfg
        (λ r' s'. (get_clip_availability st db_now slug s', s')) order limit_now r
        state.avail_limiter state.store
        (λ d. inl (too_many_requests-availability format is_date_time printed d))
        (hint-IsCovered format is_date_time printed st decode db_now slug state.store own)

  -- Over a store that keeps its contract, the handler of an endpoint answers with a response that the
  -- API document declares for the endpoint, in its status, its header and the schema of its JSON: no
  -- request is answered by an internal error. The slug of a read is not empty.
  pub serve-is_declared_contract :
      (st : Store S) (IsValid : S → Type 0) (view : Time → Bytes → S → Option Clip)
      (keep : Time → Time)
      → IsStore st IsValid view keep
      → (e : Endpoint) (order : Map Entry) (limit_now now db_now : Time) (slug : Bytes)
        (r : Request) (state : ServerState S)
      → IsValid state.store
      → (e ≡ read → slug ≢ [])
      → is_declared format is_date_time
          (serve net cfg st decode deps e order limit_now now db_now slug r state).0
          (responses e)
        ≡ true
  unfolding write_internal_error
  serve-is_declared_contract st IsValid view keep law e order limit_now now db_now slug r state
        valid named =
      let own = IsStore-IsOwn st IsValid view keep state.store law valid in
      elim (serve-IsCovered st e order limit_now now db_now slug r state own named) [
        | inl declared ↦ declared
        | inr failed ↦ absurd (
            serve-ne-500 st IsValid view keep law net cfg decode deps e order limit_now now db_now
              slug r state valid (ap (λ (x : Response). x.status) failed))
      ]
