-- ===== src/Http/App/Parallel.antt =====
-- internal/httpapi/server.go: a server answers alike over any store that keeps the contract.
use go_clipboard.Base.{
  ◌≤◌, ◌≡◌, refl, subst, ap, sym, ◌∙◌, inl, inr, true, false, Bool-cases, arith, Bytes, ◌==◌, List,
  [], Option, none, some, Result, ok, err, if◌then◌else◌,
}
use go_clipboard.Base.Map.{Map}
use go_clipboard.Clock.{Time, Duration}
use go_clipboard.Slug.{validate}
use go_clipboard.Clips.{Clip, Error}
use go_clipboard.Clips.Store.{Store, IsStore, found_or_missing}
use go_clipboard.Clips.Service.Agreement.{Same, create-Same, Same-create, Same-later}
use go_clipboard.Clips.Service.Reading.{hint, read-view, availability-hint}
use go_clipboard.RateLimit.{Entry, MemoryLimiter, allow}
use go_clipboard.Http.{Request, Response}
use go_clipboard.Http.ClientIp.{Net, ClientIpConfig, client_ip}
use go_clipboard.Http.Clips.{
  CreateClipRequest, Decoded, over_limit, malformed, request, requested_ttl, created_response,
  create_decoded, create_from, create_clip, max_create_body_bytes, clip_response, hint_response,
  get_clip, get_clip_availability, slug_required,
}
use go_clipboard.Http.Clips.Replies.{input_of}
use go_clipboard.Http.Limiting.{rate_limit}
use go_clipboard.Http.Limiting.Refusals.{rate_limit-allowed, rate_limit-refused}
use go_clipboard.Http.Mux.{Choice, matched, redirected, not_found}
use go_clipboard.Http.Server.{
  Endpoint, health, create, read, availability, Target, endpoint, method_not_allowed, api_fallback,
  root_fallback, static_files, ServerState, serve,
}
use go_clipboard.Http.App.{
  with_store, Settings, Moment, path_value, run_target, run_choice, chosen, dispatch,
}

-- Two limited handlers that answer alike do so behind the limiter, and their limiters agree.
rate_limit-parallel :
    {S T : Type 0} (net : Net) (cfg : ClientIpConfig) (next : Request → S → Response × S)
    (next' : Request → T → Response × T) (order : Map Entry) (now : Time) (r : Request)
    (limiter : Option MemoryLimiter) (s : S) (t : T) (Rel : S → T → Type 0)
    → (next r s).0 ≡ (next' r t).0
    → Rel s t
    → Rel (next r s).1 (next' r t).1
    → let (resp, l, s') = rate_limit net cfg next order now r limiter s in
      let (resp', l', t') = rate_limit net cfg next' order now r limiter t in
      (resp ≡ resp') × (l ≡ l') × Rel s' t'
unfolding rate_limit
rate_limit-parallel net cfg next next' order now r none s t Rel same before after =
    (same, refl, after)
rate_limit-parallel net cfg next next' order now r (some l) s t Rel same before after =
    elim (Bool-cases (allow order now (client_ip net r cfg) l).0.allowed) [
      | inl allowed ↦
          rw
            (
              rate_limit-allowed net cfg next order now r l s allowed,
              rate_limit-allowed net cfg next' order now r l t allowed,
            )
            (same, refl, after)
      | inr refused ↦
          rw
            (
              rate_limit-refused net cfg next order now r l s refused,
              rate_limit-refused net cfg next' order now r l t refused,
            )
            (refl, refl, before)
    ]

limited-parallel :
    {S T : Type 0} (net : Net) (cfg : ClientIpConfig) (next : Request → S → Response × S)
    (next' : Request → T → Response × T) (order : Map Entry) (now : Time) (r : Request)
    (limiter limiter' : Option MemoryLimiter) (s : S) (t : T) (Rel : S → T → Type 0)
    → limiter ≡ limiter'
    → (next r s).0 ≡ (next' r t).0
    → Rel s t
    → Rel (next r s).1 (next' r t).1
    → let (resp, l, s') = rate_limit net cfg next order now r limiter s in
      let (resp', l', t') = rate_limit net cfg next' order now r limiter' t in
      (resp ≡ resp') × (l ≡ l') × Rel s' t'
limited-parallel net cfg next next' order now r limiter limiter' s t Rel e same before after =
    subst
      (λ x.
        let (resp, l, s') = rate_limit net cfg next order now r limiter s in
        let (resp', l', t') = rate_limit net cfg next' order now r x t in
        (resp ≡ resp') × (l ≡ l') × Rel s' t')
      e (rate_limit-parallel net cfg next next' order now r limiter s t Rel same before after)

module _ {S T : Type 0} (settings : Settings S) (IsValid : S → Type 0)
    (view : Time → Bytes → S → Option Clip) (su : Store T) (IsValid' : T → Type 0)
    (view' : Time → Bytes → T → Option Clip) (keep : Time → Time)
    (law : IsStore settings.store IsValid view keep) (law' : IsStore su IsValid' view' keep) where
  abbrev pub Alike : Time → S → T → Type 0
  Alike = Same settings.store IsValid view su IsValid' view' keep law law'

  ttl-Alike :
      (now db_now : Time) (req : CreateClipRequest) (ttl : Result Error Duration) (s : S) (t : T)
      → Alike db_now s t
      → let (resp, s') = create_decoded settings.store settings.decode now db_now req ttl s in
        let (resp', t') = create_decoded su settings.decode now db_now req ttl t in
        (resp ≡ resp') × Alike db_now s' t'
  unfolding create_decoded
  ttl-Alike now db_now req (err e) s t h = (refl, h)
  ttl-Alike now db_now req (ok ttl) s t h = (
    ap created_response (
        create-Same settings.store IsValid view su IsValid' view' keep law law' db_now now db_now
          (input_of req ttl) s t h (omega arith)),
    Same-create settings.store IsValid view su IsValid' view' keep law law' db_now now db_now
        (input_of req ttl) s t h (omega arith),
  )

  decoded-Alike :
      (now db_now : Time) (d : Decoded) (s : S) (t : T)
      → Alike db_now s t
      → let (resp, s') = create_from settings.store settings.decode now db_now d s in
        let (resp', t') = create_from su settings.decode now db_now d t in
        (resp ≡ resp') × Alike db_now s' t'
  unfolding create_from create_decoded
  decoded-Alike now db_now over_limit s t h = (refl, h)
  decoded-Alike now db_now malformed s t h = (refl, h)
  decoded-Alike now db_now (request req false) s t h = (refl, h)
  decoded-Alike now db_now (request req true) s t h =
      ttl-Alike now db_now req (requested_ttl req.ttl_seconds) s t h

  read-Alike :
      (now db_now : Time) (slug : Bytes) (s : S) (t : T)
      → Alike db_now s t
      → get_clip settings.store now db_now slug s ≡ get_clip su now db_now slug t
  unfolding get_clip
  read-Alike now db_now slug s t h =
      ap (λ x. if slug == [] then slug_required else clip_response now x)
        (read-view settings.store IsValid view keep law db_now slug s h.valid
          ∙ ap found_or_missing (h.same db_now slug (omega arith))
          ∙ sym (read-view su IsValid' view' keep law' db_now slug t h.valid'))

  hint-Alike :
      (db_now : Time) (slug : Bytes) (s : S) (t : T)
      → Alike db_now s t
      → get_clip_availability settings.store db_now slug s ≡ get_clip_availability su db_now slug t
  unfolding get_clip_availability
  hint-Alike db_now slug s t h =
      ap (λ x. if slug == [] then slug_required else hint_response slug x)
        (availability-hint settings.store IsValid view keep law db_now slug s h.valid
          ∙ ap (hint (validate slug)) (h.same db_now slug (omega arith))
          ∙ sym (availability-hint su IsValid' view' keep law' db_now slug t h.valid'))

  -- What the requests share: equal limiters, and stores that show the same clips.
  pub record Twins (from : Time) (state : ServerState S) (state' : ServerState T) : Type 0 where
    pub create_limiter : state.create_limiter ≡ state'.create_limiter
    pub avail_limiter : state.avail_limiter ≡ state'.avail_limiter
    pub stores : Alike from state.store state'.store

  serve-Twins :
      (m : Moment) (r : Request) (e : Endpoint) (slugs : List Bytes) (state : ServerState S)
      (state' : ServerState T)
      → Twins m.db_now state state'
      → let (resp, after) = run_target settings m (endpoint e) slugs r state in
        let (resp', after') = run_target (with_store settings su) m (endpoint e) slugs r state' in
        (resp ≡ resp') × Twins m.db_now after after'
  unfolding run_target serve create_clip
  serve-Twins m r health slugs state state' h = (refl, h)
  serve-Twins m r read slugs state state' h =
      (read-Alike m.now m.db_now (path_value slugs) state.store state'.store h.stores, h)
  serve-Twins m r create slugs state state' h =
      let (same, after) =
        decoded-Alike m.now m.db_now (settings.decode max_create_body_bytes r.body) state.store
          state'.store h.stores in
      let (resp, limiter, stores) =
        limited-parallel settings.net settings.client_ip
          (create_clip settings.store settings.decode m.now m.db_now)
          (create_clip su settings.decode m.now m.db_now) m.order m.limit_now r state.create_limiter
          state'.create_limiter state.store state'.store (Alike m.db_now) h.create_limiter same
          h.stores after in
      (resp, record { create_limiter = limiter; avail_limiter = h.avail_limiter; stores = stores })
  serve-Twins m r availability slugs state state' h =
      let (resp, limiter, stores) =
        limited-parallel settings.net settings.client_ip
          (λ r' s'. (get_clip_availability settings.store m.db_now (path_value slugs) s', s'))
          (λ r' t'. (get_clip_availability su m.db_now (path_value slugs) t', t')) m.order
          m.limit_now r state.avail_limiter state'.avail_limiter state.store state'.store
          (Alike m.db_now) h.avail_limiter
          (hint-Alike m.db_now (path_value slugs) state.store state'.store h.stores) h.stores
          h.stores in
      (resp, record { create_limiter = h.create_limiter; avail_limiter = limiter; stores = stores })

  choice-Twins :
      (m : Moment) (r : Request) (c : Choice Target) (state : ServerState S)
      (state' : ServerState T)
      → Twins m.db_now state state'
      → let (resp, after) = run_choice settings m c r state in
        let (resp', after') = run_choice (with_store settings su) m c r state' in
        (resp ≡ resp') × Twins m.db_now after after'
  unfolding run_choice run_target
  choice-Twins m r (matched (endpoint e) slugs) state state' h =
      serve-Twins m r e slugs state state' h
  choice-Twins m r (matched (method_not_allowed methods) slugs) state state' h = (refl, h)
  choice-Twins m r (matched api_fallback slugs) state state' h = (refl, h)
  choice-Twins m r (matched root_fallback slugs) state state' h = (refl, h)
  choice-Twins m r (matched static_files slugs) state state' h = (refl, h)
  choice-Twins m r redirected state state' h = (refl, h)
  choice-Twins m r not_found state state' h = (refl, h)

  pub dispatch-Twins :
      (m : Moment) (r : Request) (state : ServerState S) (state' : ServerState T)
      → Twins m.db_now state state'
      → let (resp, after) = dispatch settings m r state in
        let (resp', after') = dispatch (with_store settings su) m r state' in
        (resp ≡ resp') × Twins m.db_now after after'
  unfolding dispatch
  dispatch-Twins m r state state' h = choice-Twins m r (chosen settings m r) state state' h

  pub Twins-later :
      (from now : Time) (state : ServerState S) (state' : ServerState T)
      → from ≤ now
      → Twins from state state'
      → Twins now state state'
  Twins-later from now state state' le h = record {
    create_limiter = h.create_limiter;
    avail_limiter = h.avail_limiter;
    stores =
        Same-later settings.store IsValid view su IsValid' view' keep law law' from now state.store
          state'.store h.stores le;
  }
