-- ===== src/Http/Server/Stores.antt =====
-- internal/httpapi/server.go: which requests change the store.
use go_clipboard.Base.{
  ℕ, ◌≡◌, ◌≢◌, refl, ap, ◌∙◌, ◌⊎◌, inl, inr, Bytes, Option, none, some, Bool-cases,
}
use go_clipboard.Base.Map.{Map}
use go_clipboard.Clock.{Time}
use go_clipboard.Clips.{Clip}
use go_clipboard.Clips.Store.{Store, IsStore}
use go_clipboard.RateLimit.{Entry, MemoryLimiter, allow}
use go_clipboard.Http.{Request, Response}
use go_clipboard.Http.ClientIp.{Net, ClientIpConfig, client_ip}
use go_clipboard.Http.Clips.{Decoded, create_clip, get_clip_availability}
use go_clipboard.Http.Clips.Replies.{create_clip_unchanged}
use go_clipboard.Http.Health.{HealthDependencies}
use go_clipboard.Http.Limiting.{rate_limit, too_many_requests}
use go_clipboard.Http.Limiting.Refusals.{rate_limit-allowed, rate_limit-refused}
use go_clipboard.Http.Server.{Endpoint, health, create, read, availability, ServerState, serve}

-- A limited handler is called on the state, or it is not called and the state stays.
pub rate_limit-cases :
    {S : Type 0} (net : Net) (cfg : ClientIpConfig) (next : Request → S → Response × S)
    (order : Map Entry) (now : Time) (r : Request) (limiter : Option MemoryLimiter) (s : S)
    → (((rate_limit net cfg next order now r limiter s).2 ≡ s)
        × ((rate_limit net cfg next order now r limiter s).0.status ≡ 429))
      ⊎ (((rate_limit net cfg next order now r limiter s).0 ≡ (next r s).0)
          × ((rate_limit net cfg next order now r limiter s).2 ≡ (next r s).1))
unfolding rate_limit too_many_requests
rate_limit-cases net cfg next order now r none s = inr (refl, refl)
rate_limit-cases {S} net cfg next order now r (some l) s =
    elim (Bool-cases (allow order now (client_ip net r cfg) l).0.allowed) [
      | inl allowed ↦
          let passed = rate_limit-allowed net cfg next order now r l s allowed in
          inr (
            ap (λ (x : Response × Option MemoryLimiter × S). x.0) passed,
            ap (λ (x : Response × Option MemoryLimiter × S). x.2) passed,
          )
      | inr refused ↦
          let answer = rate_limit-refused net cfg next order now r l s refused in
          inl (
            ap (λ (x : Response × Option MemoryLimiter × S). x.2) answer,
            ap (λ (x : Response × Option MemoryLimiter × S). x.0.status) answer,
          )
    ]

module _ {S : Type 0} (st : Store S) (IsValid : S → Type 0) (view : Time → Bytes → S → Option Clip)
    (keep : Time → Time) (law : IsStore st IsValid view keep) (net : Net) (cfg : ClientIpConfig)
    (decode : ℕ → Bytes → Decoded) (deps : HealthDependencies) where
  -- Over a store that keeps its contract, a request to any endpoint changes the store only if it is
  -- answered by 201.
  pub serve_unchanged :
      (e : Endpoint) (order : Map Entry) (limit_now now db_now : Time) (slug : Bytes) (r : Request)
      (state : ServerState S)
      → IsValid state.store
      → (serve net cfg st decode deps e order limit_now now db_now slug r state).0.status ≢ 201
      → (serve net cfg st decode deps e order limit_now now db_now slug r state).1.store
        ≡ state.store
  unfolding serve
  serve_unchanged health order limit_now now db_now slug r state valid other = refl
  serve_unchanged read order limit_now now db_now slug r state valid other = refl
  serve_unchanged availability order limit_now now db_now slug r state valid other =
      elim (rate_limit-cases net cfg (λ r' s'. (get_clip_availability st db_now slug s', s')) order
        limit_now r state.avail_limiter state.store) [
          | inl (kept, refused) ↦ kept
          | inr (same, kept) ↦ kept
        ]
  serve_unchanged create order limit_now now db_now slug r state valid other =
      elim (rate_limit-cases net cfg (create_clip st decode now db_now) order limit_now r
        state.create_limiter state.store) [
          | inl (kept, refused) ↦ kept
          | inr (same, kept) ↦
              kept
              ∙ create_clip_unchanged st IsValid view keep law decode now db_now r state.store valid
                  (λ created. other (ap (λ (x : Response). x.status) same ∙ created))
        ]
