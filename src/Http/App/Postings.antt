-- ===== src/Http/App/Postings.antt =====
-- internal/httpapi/server.go: what one request does to the store, and what it posts.
use go_clipboard.Base.{
  ◌≡◌, refl, ap, ◌∙◌, ◌⊎◌, inl, inr, true, false, Bool-cases, eqb, arith, Bytes, List, [], ◌∷◌,
  Option, none, ok, if◌then◌else◌,
}
use go_clipboard.Clock.{Time, Duration}
use go_clipboard.Clips.{Clip}
use go_clipboard.Clips.Store.{Store, IsStore}
use go_clipboard.Clips.Service
use go_clipboard.Clips.Service.Create.{IsAccepted, expiry}
use go_clipboard.Http.{Request, Response, Payload, create_response, write_json}
use go_clipboard.Http.Clips.{
  CreateClipRequest, Decoded, over_limit, malformed, request, max_create_body_bytes, create_clip,
  get_clip_availability,
}
use go_clipboard.Http.Clips.Replies.{input_of, create_clip-created, create_clip_unchanged}
use go_clipboard.Http.Mux.{Choice, matched, redirected, not_found}
use go_clipboard.Http.Server.{
  Endpoint, health, create, read, availability, Target, endpoint, method_not_allowed, api_fallback,
  root_fallback, static_files, ServerState, serve,
}
use go_clipboard.Http.Server.Stores.{rate_limit-cases}
use go_clipboard.Http.App.{Settings, Moment, path_value, run_target, run_choice, chosen, dispatch}

-- What a client has posted: a name, a text, and the expiry that it was told.
pub record Posting : Type 0 where
  pub slug : Bytes
  pub body : Bytes
  pub expires : Time

-- The expiry that an answer tells.
abbrev pub told : Payload → Time
told (create_response slug expires) = expires
told _ = 0

abbrev pub posting_of : Decoded → Response → List Posting
posting_of over_limit resp = []
posting_of malformed resp = []
posting_of (request req eof) resp =
    if eqb resp.status 201
    then record { slug = req.slug; body = req.body; expires = told resp.body } ∷ []
    else []

-- A request posts if its answer is the endpoint's 201.
abbrev pub posting : Choice Target → Decoded → Response → List Posting
posting (matched (endpoint create) slugs) d resp = posting_of d resp
posting _ d resp = []

posting_of-created :
    (d : Decoded) (resp : Response) (req : CreateClipRequest) (expires : Time)
    → d ≡ request req true
    → resp ≡ write_json 201 (create_response req.slug expires)
    → posting_of d resp ≡ record { slug = req.slug; body = req.body; expires = expires } ∷ []
unfolding write_json
posting_of-created d resp req expires h answer = rw (h, answer) refl

-- A request that posts: it claims a name that is free, and the posting is what it asked for.
pub record Posts {S : Type 0} (st : Store S) (view : Time → Bytes → S → Option Clip)
    (keep : Time → Time) (now db_now : Time) (s s' : S) (posted : List Posting) : Type 0 where
  pub input : Service.CreateInput
  pub ttl : Duration
  pub accepted : IsAccepted input ttl
  pub free : view db_now input.slug s ≡ none
  pub created :
      (Service.create st now db_now input s).0
      ≡ ok (record { slug = input.slug; expires_at = expiry keep now ttl })
  pub state : s' ≡ (Service.create st now db_now input s).1
  pub posting_eq :
      posted ≡ record { slug = input.slug; body = input.body; expires = expiry keep now ttl } ∷ []

posting_of-other :
    (d : Decoded) (resp : Response) → eqb resp.status 201 ≡ false → posting_of d resp ≡ []
posting_of-other over_limit resp h = refl
posting_of-other malformed resp h = refl
posting_of-other (request req eof) resp h = rw h refl

module _ {S : Type 0} (settings : Settings S) (IsValid : S → Type 0)
    (view : Time → Bytes → S → Option Clip) (keep : Time → Time)
    (law : IsStore settings.store IsValid view keep) (m : Moment) (r : Request) where
  abbrev decoded : Decoded
  decoded = settings.decode max_create_body_bytes r.body

  create_cases :
      (s : S) (resp : Response) (s' : S)
      → IsValid s
      → resp ≡ (create_clip settings.store settings.decode m.now m.db_now r s).0
      → s' ≡ (create_clip settings.store settings.decode m.now m.db_now r s).1
      → ((s' ≡ s) × (posting_of decoded resp ≡ []))
        ⊎ Posts settings.store view keep m.now m.db_now s s' (posting_of decoded resp)
  create_cases s resp s' valid same kept =
      elim (Bool-cases
        (eqb (create_clip settings.store settings.decode m.now m.db_now r s).0.status 201)) [
          | inl posted ↦
              let (req, ttl, d, e, a, free, created, answer) =
                create_clip-created settings.store IsValid view keep law settings.decode m.now
                  m.db_now r s valid (ground (arith, posted)) in
              inr (record {
                input = input_of req ttl;
                ttl = d;
                accepted = a;
                free = free;
                created = created;
                state = kept ∙ ap (λ (x : Response × S). x.1) answer;
                posting_eq =
                    posting_of-created decoded resp req (expiry keep m.now d) e
                      (same ∙ ap (λ (x : Response × S). x.0) answer);
              })
          | inr other ↦ inl (
            kept
                ∙ create_clip_unchanged settings.store IsValid view keep law settings.decode m.now
                    m.db_now r s valid
                    (λ (h : (create_clip settings.store settings.decode m.now m.db_now r s).0.status
                        ≡ 201).
                      ground (arith, other, h)),
            rw same (posting_of-other decoded _ other),
          )
        ]

  serve_cases :
      (e : Endpoint) (slugs : List Bytes) (state : ServerState S)
      → IsValid state.store
      → let (resp, state') = run_target settings m (endpoint e) slugs r state in
        ((state'.store ≡ state.store) × (posting (matched (endpoint e) slugs) decoded resp ≡ []))
        ⊎ Posts settings.store view keep m.now m.db_now state.store state'.store
            (posting (matched (endpoint e) slugs) decoded resp)
  unfolding run_target serve
  serve_cases health slugs state valid = inl (refl, refl)
  serve_cases read slugs state valid = inl (refl, refl)
  serve_cases availability slugs state valid =
      elim (rate_limit-cases settings.net settings.client_ip
        (λ r' s'. (get_clip_availability settings.store m.db_now (path_value slugs) s', s')) m.order
        m.limit_now r state.avail_limiter state.store) [
          | inl (kept, refused) ↦ inl (kept, refl)
          | inr (same, kept) ↦ inl (kept, refl)
        ]
  serve_cases create slugs state valid =
      elim (rate_limit-cases settings.net settings.client_ip
        (create_clip settings.store settings.decode m.now m.db_now) m.order m.limit_now r
        state.create_limiter state.store) [
          | inl (kept, refused) ↦ inl (kept, posting_of-other decoded _ (ground (arith, refused)))
          | inr (same, kept) ↦ create_cases state.store _ _ valid same kept
        ]

  choice_cases :
      (c : Choice Target) (state : ServerState S)
      → IsValid state.store
      → let (resp, state') = run_choice settings m c r state in
        ((state'.store ≡ state.store) × (posting c decoded resp ≡ []))
        ⊎ Posts settings.store view keep m.now m.db_now state.store state'.store
            (posting c decoded resp)
  unfolding run_choice run_target
  choice_cases (matched (endpoint create) slugs) state valid = serve_cases create slugs state valid
  choice_cases (matched (endpoint health) slugs) state valid = serve_cases health slugs state valid
  choice_cases (matched (endpoint read) slugs) state valid = serve_cases read slugs state valid
  choice_cases (matched (endpoint availability) slugs) state valid =
      serve_cases availability slugs state valid
  choice_cases (matched (method_not_allowed methods) slugs) state valid = inl (refl, refl)
  choice_cases (matched api_fallback slugs) state valid = inl (refl, refl)
  choice_cases (matched root_fallback slugs) state valid = inl (refl, refl)
  choice_cases (matched static_files slugs) state valid = inl (refl, refl)
  choice_cases redirected state valid = inl (refl, refl)
  choice_cases not_found state valid = inl (refl, refl)

  -- A request to the server either leaves the store as it was and posts nothing, or it posts.
  pub dispatch-cases :
      (state : ServerState S)
      → IsValid state.store
      → let (resp, state') = dispatch settings m r state in
        ((state'.store ≡ state.store) × (posting (chosen settings m r) decoded resp ≡ []))
        ⊎ Posts settings.store view keep m.now m.db_now state.store state'.store
            (posting (chosen settings m r) decoded resp)
  unfolding dispatch
  dispatch-cases state valid = choice_cases (chosen settings m r) state valid
