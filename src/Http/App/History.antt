-- ===== src/Http/App/History.antt =====
-- internal/httpapi/server.go and internal/sweeper: what a server serves over its whole run.
use go_clipboard.Base.{
  ◌≤◌, ◌<◌, ◌≡◌, refl, sym, ap, ◌∙◌, ◌⊎◌, inl, inr, true, false, Bool-cases, arith, Bytes, ◌==◌,
  ==_iff, List, [], ◌∷◌, ◌++◌, Option, none, some, if◌then◌else◌, ltb, ltb→lt, subst, Bool,
}
use mathlib.Core.List.{Mem, mem-cons_self, mem-append_right}
use go_clipboard.Clock.{Time}
use go_clipboard.Clips.{Clip}
use go_clipboard.Clips.Store.{IsStore, found_or_missing}
use go_clipboard.Clips.Service
use go_clipboard.Clips.Service.Create.{expiry}
use go_clipboard.Clips.Service.Reading.{create-IsValid, view-create, read-view}
use go_clipboard.Http.{Request, Response, read_response, write_error, write_json}
use go_clipboard.Http.Clips.{
  max_create_body_bytes, clip_response, get_clip, slug_required, write_clip_error,
}
use go_clipboard.Http.Mux.{matched}
use go_clipboard.Http.Server.{read, endpoint, ServerState, serve}
use go_clipboard.Http.App.{Settings, Moment, path_value, chosen, dispatch, run_choice, run_target}
use go_clipboard.Http.App.Postings.{Posting, posting, Posts, dispatch-cases}

-- The runs of a server that begins in `start`: requests and sweeps in any order, by a store clock that
-- does not go back. A run is indexed by the last instant of that clock, by what was posted, the
-- latest first, and by the state it leads to.
pub data History {S : Type 0} (settings : Settings S) (start : ServerState S)
    : Time → List Posting → ServerState S → Type 0 where
  begin : (now : Time) → History settings start now [] start
  requested :
      {now : Time} {posted : List Posting} {state : ServerState S} (m : Moment) (r : Request)
      → now ≤ m.db_now
      → History settings start now posted state
      → History settings start m.db_now
          (posting
              (chosen settings m r)
              (settings.decode max_create_body_bytes r.body)
              (dispatch settings m r state).0
            ++ posted)
          (dispatch settings m r state).1
  swept :
      {now : Time} {posted : List Posting} {state : ServerState S} (db_now : Time)
      → now ≤ db_now
      → History settings start now posted state
      → History settings start db_now posted
          (record state { store = (Service.delete_expired settings.store db_now state.store).1 })

abbrev posting_of_clip : Clip → Posting
posting_of_clip c = record { slug = c.slug; body = c.body; expires = c.expires_at }

-- The clip that is seen after a claim is the new one, or one from before.
seen_cases :
    (same live : Bool) (new : Clip) (old : Option Clip) (c : Clip)
    → (if same then (if live then some new else none) else old) ≡ some c
    → ((same ≡ true) × (live ≡ true) × (new ≡ c)) ⊎ (old ≡ some c)
seen_cases true true new old c h = inl (refl, refl, ground (arith, h))
seen_cases true false new old c h = absurd (ground (arith, h))
seen_cases false live new old c h = inr h

response_cases :
    (now : Time) (live : Option Clip) (slug body : Bytes) (expires server_time : Time)
    → (clip_response now (found_or_missing live)).body ≡ read_response slug body expires server_time
    → (c : Clip) × (live ≡ some c)
      × (posting_of_clip c ≡ record { slug = slug; body = body; expires = expires })
unfolding clip_response write_clip_error write_error write_json
response_cases now none slug body expires server_time h = absurd (ground (arith, h))
response_cases now (some c) slug body expires server_time h = (c, refl, ground (arith, h))

module _ {S : Type 0} (IsValid : S → Type 0) (view : Time → Bytes → S → Option Clip) where
  -- What is live from `now` on was posted, under the name it is live under, and has not expired.
  record IsPosted (now : Time) (posted : List Posting) (s : S) : Type 0 where
    valid : IsValid s
    live :
        (later : Time) (slug : Bytes) (c : Clip)
        → now ≤ later
        → view later slug s ≡ some c
        → Mem (posting_of_clip c) posted × (c.slug ≡ slug) × (later < c.expires_at)

  IsPosted-later :
      (now later : Time) (posted : List Posting) (s : S)
      → now ≤ later
      → IsPosted now posted s
      → IsPosted later posted s
  IsPosted-later now later posted s h known = record {
    valid = known.valid;
    live = λ t slug c after. known.live t slug c (omega arith);
  }

  module _ (settings : Settings S) (keep : Time → Time)
      (law : IsStore settings.store IsValid view keep) where
    Posts-IsPosted :
        (now db_now : Time) (s s' : S) (new posted : List Posting)
        → Posts settings.store view keep now db_now s s' new
        → IsPosted db_now posted s
        → IsPosted db_now (new ++ posted) s'
    Posts-IsPosted now db_now s s' new posted p known = record {
      valid =
          rw p.state
            (create-IsValid settings.store IsValid view keep law now db_now p.input s known.valid);
      live = λ later slug c after found.
          let seen =
            view-create settings.store IsValid view keep law now db_now p.input s known.valid _
              later slug p.created in
          let claimed : Clip = record {
            slug = p.input.slug;
            body = p.input.body;
            created_at = keep now;
            expires_at = expiry keep now p.ttl;
          } in
          elim (seen_cases (p.input.slug == slug) (ltb later (expiry keep now p.ttl)) claimed
            (view later slug s) c
            (sym seen ∙ subst (λ x. view later slug x ≡ some c) p.state found)) [
              | inl (same, fresh, e) ↦ (
                rw p.posting_eq (
                    subst (λ (x : Clip). Mem (posting_of_clip x) (posting_of_clip claimed ∷ posted))
                      e (mem-cons_self {l = posted})),
                ap (λ (x : Clip). x.slug) (sym e) ∙ (==_iff _ _).0 same,
                subst (λ (x : Clip). later < x.expires_at) e (ltb→lt _ _ fresh),
              )
              | inr before ↦
                  let (was, name, in_time) = known.live later slug c after before in
                  (mem-append_right new was, name, in_time)
            ];
    }

    dispatch-read :
        (m : Moment) (r : Request) (slugs : List Bytes) (state : ServerState S)
        → chosen settings m r ≡ matched (endpoint read) slugs
        → dispatch settings m r state
          ≡ (get_clip settings.store m.now m.db_now (path_value slugs) state.store, state)
    unfolding dispatch run_choice run_target serve
    dispatch-read m r slugs state route = ap (λ c. run_choice settings m c r state) route

    get_clip-answer :
        (now db_now : Time) (name : Bytes) (s : S)
        → IsValid s
        → (slug body : Bytes) (expires server_time : Time)
        → (get_clip settings.store now db_now name s).body
          ≡ read_response slug body expires server_time
        → (c : Clip) × (view db_now name s ≡ some c)
          × (posting_of_clip c ≡ record { slug = slug; body = body; expires = expires })
    unfolding get_clip slug_required write_error write_json
    get_clip-answer now db_now name s valid slug body expires server_time h =
        elim (Bool-cases (name == [])) [
          | inl is_empty ↦ absurd (ground (arith, h, is_empty))
          | inr named ↦ response_cases now (view db_now name s) slug body expires server_time (
              ground (
                arith,
                h,
                named,
                read-view settings.store IsValid view keep law db_now name s valid,
              ))
        ]

    module _ (start : ServerState S) (valid : IsValid start.store)
        (empty : (now : Time) (slug : Bytes) → view now slug start.store ≡ none) where
      History-IsPosted :
          {now : Time} {posted : List Posting} {state : ServerState S}
          → History settings start now posted state
          → IsPosted now posted state.store
      unfolding Service.delete_expired
      History-IsPosted (begin now) = record {
        valid = valid;
        live = λ later slug c after found. absurd (ground (arith, found, empty later slug));
      }
      History-IsPosted (requested {now} {posted} {state} m r le run) =
          let known = IsPosted-later now m.db_now posted state.store le (History-IsPosted run) in
          elim (dispatch-cases settings IsValid view keep law m r state known.valid) [
            | inl (kept, nothing) ↦ rw (kept, nothing) known
            | inr p ↦ Posts-IsPosted m.now m.db_now state.store _ _ posted p known
          ]
      History-IsPosted (swept {now} {posted} {state} db_now le run) =
          let known = IsPosted-later now db_now posted state.store le (History-IsPosted run) in
          record {
            valid = law.sweep-IsValid db_now state.store known.valid;
            live = λ later slug c after found.
                known.live later slug c after
                  (sym (law.view-sweep db_now later slug state.store known.valid after) ∙ found);
          }

      -- Nothing is served that was not posted: in a server over a store that keeps its contract and
      -- begins with no live clip, after any requests and sweeps in any order, by a store clock that does not go back, a GET of a name
      -- that is answered with a clip is answered with that name, and with a text and an expiry that an
      -- earlier request posted under the name and was answered with 201; the expiry is still to come.
      pub served-posted :
          {now : Time} {posted : List Posting} {state : ServerState S}
          → History settings start now posted state
          → (m : Moment) (r : Request) (slugs : List Bytes) (slug body : Bytes)
            (expires server_time : Time)
          → now ≤ m.db_now
          → chosen settings m r ≡ matched (endpoint read) slugs
          → (dispatch settings m r state).0.body ≡ read_response slug body expires server_time
          → (slug ≡ path_value slugs)
            × Mem (record { slug = slug; body = body; expires = expires }) posted
            × (m.db_now < expires)
      served-posted {now} {posted} {state} run m r slugs slug body expires server_time le route
            answer =
          let known = IsPosted-later now m.db_now posted state.store le (History-IsPosted run) in
          let (c, found, is) =
            get_clip-answer m.now m.db_now (path_value slugs) state.store known.valid slug body
              expires server_time
              (sym (
                  ap (λ (x : Response × ServerState S). x.0.body)
                    (dispatch-read m r slugs state route))
                ∙ answer) in
          let (was, name, in_time) = known.live m.db_now (path_value slugs) c (omega arith) found in
          (
            ap (λ (x : Posting). x.slug) (sym is) ∙ name,
            subst (λ x. Mem x posted) is was,
            subst (λ (x : Posting). m.db_now < x.expires) is in_time,
          )
