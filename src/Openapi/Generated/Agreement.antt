-- ===== src/Openapi/Generated/Agreement.antt =====
-- internal/openapi/openapi.gen.go over internal/httpapi/clips.go: the generated server against the routes that
-- the program registers itself.
use go_clipboard.Base.{
  ℕ, ◌≡◌, ◌≢◌, ◌⊎◌, refl, ap, sym, ◌∙◌, inl, inr, Bool, true, false, Bytes, ascii, ◌==◌, List, [],
  ◌∷◌, map, none, Result, ok, Bool-cases, arith, if◌then◌else◌,
}
use go_clipboard.Http.{Request, Response}
use go_clipboard.Http.Clips.{create_clip, get_clip, get_clip_availability}
use go_clipboard.Http.Health.{get_health}
use go_clipboard.Http.Limiting.{rate_limit}
use go_clipboard.Http.Mux.{Choice, matched, redirected, not_found, choose, choice_of, handle}
use go_clipboard.Http.Mux.Natural.{map_registered, map_choice, choose-map}
use go_clipboard.Http.Server.{
  Endpoint, health, create, read, availability, Target, endpoint, method_not_allowed, api_fallback,
  root_fallback, static_files, register, register_routes, serve,
}
use go_clipboard.Http.Server.Methods.{all_routes, root_of, method_table}
use go_clipboard.Http.Server.Tables.{
  Page, health_page, clips_page, clip_page, hint_page, bare_api, other_api, outside, page_of,
  get_table, post_table,
}
use go_clipboard.Http.Server.Routes.{
  route, serves_get, get-ne-post, choose-route, none-other, none-outside,
}
use go_clipboard.Http.App.{Settings, Moment, path_value}
use go_clipboard.Openapi.Dispatched.{page_of-named}
use go_clipboard.Openapi.Generated.{
  HandlerFunc, ServerInterface, ServerInterfaceWrapper, error_handler, wrapped_create_clip,
  wrapped_get_clip, wrapped_get_clip_availability, wrapped_get_health, handler_of,
}
use go_clipboard.Openapi.Generated.Routes.{routes, choose-routes}

-- The methods of openapiServer.
unfoldable pub openapi_server : {S : Type 0} → Settings S → Moment → ServerInterface S
unfolding create_clip get_clip get_clip_availability get_health
openapi_server settings m = record {
  create_clip = λ slugs r s. create_clip settings.store settings.decode m.now m.db_now r s;
  get_clip = λ slug slugs r s. (get_clip settings.store m.now m.db_now slug s, s);
  get_clip_availability =
      λ slug slugs r s. (get_clip_availability settings.store m.db_now slug s, s);
  get_health = λ slugs r s. (get_health m.health, s);
}

get_only :
    (method : Bytes) (page : Page)
    → post_table page ≡ none
    → method_table method page ≡ (if serves_get method then get_table page else none)
unfolding method_table
get_only method page h = ground (arith, h)

post_only :
    (method : Bytes) (page : Page)
    → get_table page ≡ none
    → method_table method page ≡ (if ascii "POST" == method then post_table page else none)
unfolding method_table
post_only method page h = ground (arith, h, get-ne-post method)

module _ {S : Type 0} (fallback : Request → Response) where
  -- A mux runs what it chose; `fallback` is its own answer to a request that it has no pattern for.
  unfoldable pub run_chosen : Choice (HandlerFunc S) → Request → S → Response × S
  run_chosen (matched h slugs) r s = h slugs r s
  run_chosen redirected r s = (fallback r, s)
  run_chosen not_found r s = (fallback r, s)

  module _ (settings : Settings S) (m : Moment) where
    -- The answer of an endpoint without limiters, but for the report of health, whose status is always 200.
    unfoldable pub unlimited : Endpoint → Bytes → Request → S → Response × S
    unfolding serve get_health
    unlimited health slug r s = (get_health m.health, s)
    unlimited e slug r s =
        let (resp, state) =
          serve settings.net settings.client_ip settings.store settings.decode m.health e m.order
            m.limit_now m.now m.db_now slug r
            (record { create_limiter = none; avail_limiter = none; store = s }) in
        (resp, state.store)

    -- The answer at the endpoint that the program's own routes choose.
    unfoldable pub at_endpoint : Choice Target → Request → S → Response × S
    unfolding unlimited
    at_endpoint (matched (endpoint e) slugs) r s = unlimited e (path_value slugs) r s
    at_endpoint choice r s = (fallback r, s)

    module _ (bind : Bytes → Result Bytes Bytes) (itoa : ℕ → Bytes)
        (bound : (slug : Bytes) → slug ≢ [] → bind slug ≡ ok slug) where
      abbrev wrapper : ServerInterfaceWrapper S
      wrapper = record {
        handler = openapi_server settings m;
        handler_middlewares = [];
        error_handler_func = error_handler bind itoa none;
      }

      abbrev wrapped : Target → HandlerFunc S
      wrapped (endpoint health) = wrapped_get_health bind itoa wrapper
      wrapped (endpoint create) = wrapped_create_clip bind itoa wrapper
      wrapped (endpoint read) = wrapped_get_clip bind itoa wrapper
      wrapped (endpoint availability) = wrapped_get_clip_availability bind itoa wrapper
      wrapped (method_not_allowed methods) = λ slugs r s. (fallback r, s)
      wrapped api_fallback = λ slugs r s. (fallback r, s)
      wrapped root_fallback = λ slugs r s. (fallback r, s)
      wrapped static_files = λ slugs r s. (fallback r, s)

      handler-routes :
          handler_of bind itoa (openapi_server settings m) ≡ map (map_registered wrapped) routes
      unfolding handler_of register_routes handle
      handler-routes = refl

      wrapped-health :
          (slugs : List Bytes) (r : Request) (s : S)
          → wrapped (endpoint health) slugs r s ≡ unlimited health (path_value slugs) r s
      unfolding unlimited wrapped_get_health openapi_server
      wrapped-health slugs r s = refl

      wrapped-create :
          (slugs : List Bytes) (r : Request) (s : S)
          → wrapped (endpoint create) slugs r s ≡ unlimited create (path_value slugs) r s
      unfolding unlimited wrapped_create_clip openapi_server rate_limit
      wrapped-create slugs r s = refl

      wrapped-read :
          (slugs : List Bytes) (r : Request) (s : S)
          → path_value slugs ≢ []
          → wrapped (endpoint read) slugs r s ≡ unlimited read (path_value slugs) r s
      unfolding unlimited wrapped_get_clip openapi_server
      wrapped-read slugs r s named = rw (bound (path_value slugs) named, wrapped_get_clip) refl

      wrapped-availability :
          (slugs : List Bytes) (r : Request) (s : S)
          → path_value slugs ≢ []
          → wrapped (endpoint availability) slugs r s
            ≡ unlimited availability (path_value slugs) r s
      unfolding unlimited wrapped_get_clip_availability openapi_server rate_limit
      wrapped-availability slugs r s named =
          rw (bound (path_value slugs) named, wrapped_get_clip_availability) refl

      table-route :
          (static : Bool) (method : Bytes) (page : Page) (r : Request) (s : S)
          → ((slug : Bytes) → (page ≡ clip_page slug) ⊎ (page ≡ hint_page slug) → slug ≢ [])
          → run_chosen (map_choice wrapped (choice_of (method_table method page))) r s
            ≡ at_endpoint (route (root_of static) method page) r s
      unfolding get_table post_table route choice_of run_chosen at_endpoint
      table-route static method health_page r s named =
          rw (get_only method health_page refl) (elim (Bool-cases (serves_get method)) [
            | inl get ↦ rw get (wrapped-health [] r s)
            | inr other ↦ rw other refl
          ])
      table-route static method clips_page r s named =
          rw (post_only method clips_page refl) (elim (Bool-cases (ascii "POST" == method)) [
            | inl post ↦ rw post (wrapped-create [] r s)
            | inr other ↦ rw other refl
          ])
      table-route static method (clip_page slug) r s named =
          rw (get_only method (clip_page slug) refl) (elim (Bool-cases (serves_get method)) [
            | inl get ↦ rw get (wrapped-read (slug ∷ []) r s (named slug (inl refl)))
            | inr other ↦ rw other refl
          ])
      table-route static method (hint_page slug) r s named =
          rw (get_only method (hint_page slug) refl) (elim (Bool-cases (serves_get method)) [
            | inl get ↦ rw get (wrapped-availability (slug ∷ []) r s (named slug (inr refl)))
            | inr other ↦ rw other refl
          ])
      table-route static method bare_api r s named =
          rw (get_only method bare_api refl) (ground arith)
      table-route static method other_api r s named = rw (none-other method) refl
      table-route true method outside r s named = rw (none-outside method) refl
      table-route false method outside r s named = rw (none-outside method) refl

      -- Served by the generated code, with its default options, the program's handlers give every request the
      -- answer and the store that its own routes give without limiters, except that the report of health
      -- always has the status 200; a request for which the own routes name no endpoint gets the answer
      -- of the mux itself. The request has a method, and its path at least one segment. The generated
      -- code binds a slug that is not empty to itself.
      pub handler_of_lem :
          (static : Bool) (a : Bytes) (parts : List Bytes) (r : Request) (s : S)
          → r.segments ≡ a ∷ parts
          → ([] == r.method) ≡ false
          → run_chosen
              (choose (handler_of bind itoa (openapi_server settings m)) r.method r.segments)
              r
              s
            ≡ at_endpoint (choose (register static all_routes) r.method r.segments) r s
      handler_of_lem static a parts r s path given =
          let generated =
            ap (λ rs. choose rs r.method r.segments) handler-routes
            ∙ choose-map wrapped routes r.method r.segments
            ∙ ap (λ p. map_choice wrapped (choose routes r.method p)) path
            ∙ ap (map_choice wrapped) (choose-routes r.method a parts) in
          let own =
            ap (choose (register static all_routes) r.method) path
            ∙ choose-route static r.method a given parts in
          ap (λ choice. run_chosen choice r s) generated
          ∙ table-route static r.method (page_of (a ∷ parts)) r s (page_of-named (a ∷ parts))
          ∙ ap (λ choice. at_endpoint choice r s) (sym own)
