-- ===== src/Openapi/Dispatched.antt =====
-- docs/api/openapi.yaml against the whole mux of internal/httpapi/server.go.
use go_clipboard.Base.{
  ◌≡◌, ◌≢◌, refl, ap, subst, ◌∙◌, sym, ◌⊎◌, inl, inr, Bool, true, false, Bytes, ascii, ◌==◌, List,
  [], ◌∷◌, Option, none, some, arith, Bool-cases, if◌then◌else◌,
}
use go_clipboard.Clock.{Time}
use go_clipboard.Db.{Querier}
use go_clipboard.Clips.Postgres.{pg_store}
use go_clipboard.Http.{Request, Response, write_internal_error}
use go_clipboard.Http.Server.{
  Endpoint, health, create, read, availability, Target, endpoint, method_not_allowed, ServerState,
  serve, register, handle_method_not_allowed,
}
use go_clipboard.Http.Server.Methods.{all_routes, root_of}
use go_clipboard.Http.Server.Tables.{
  Page, health_page, clips_page, clip_page, hint_page, get_head, bare_api, other_api, outside, api,
  api_page, page_of,
}
use go_clipboard.Http.Server.Routes.{route, serves_get, choose-route}
use go_clipboard.Http.Mux.{choose, matched, is_clean, find_handler-is_clean}
use go_clipboard.Http.App.{
  Settings, Moment, with_store, dispatch, run_choice, serves_files, path_value,
}
use go_clipboard.Openapi.Document.{responses, is_declared}
use go_clipboard.Openapi.Declared.{IsCovered}
use go_clipboard.Openapi.Answers.{pg_store-IsOwn}
use go_clipboard.Openapi.Served.{serve-IsCovered}

-- The operation of the document that stands for a page.
unfoldable pub operation : Page → Option Endpoint
operation health_page = some health
operation clips_page = some create
operation (clip_page slug) = some read
operation (hint_page slug) = some availability
operation bare_api = none
operation other_api = none
operation outside = none

api_page-named :
    (parts : List Bytes) (slug : Bytes)
    → (api_page parts ≡ clip_page slug) ⊎ (api_page parts ≡ hint_page slug)
    → slug ≢ []
unfolding api_page ◌==◌
api_page-named [] slug h = absurd (ground (arith, h))
api_page-named (a ∷ []) slug h = absurd (ground (arith, h))
api_page-named (a ∷ [] ∷ []) slug h = absurd (ground (arith, h))
api_page-named (a ∷ (c ∷ b) ∷ []) slug h = λ empty. ground (arith, h, empty)
api_page-named (a ∷ [] ∷ c ∷ []) slug h = absurd (ground (arith, h))
api_page-named (a ∷ (d ∷ b) ∷ c ∷ []) slug h = λ empty. ground (arith, h, empty)
api_page-named (a ∷ b ∷ c ∷ d ∷ parts) slug h = absurd (ground (arith, h))

-- The slugs that pages have are not empty.
pub page_of-named :
    (parts : List Bytes) (slug : Bytes)
    → (page_of parts ≡ clip_page slug) ⊎ (page_of parts ≡ hint_page slug)
    → slug ≢ []
unfolding page_of
page_of-named [] slug h = absurd (ground (arith, h))
page_of-named (a ∷ parts) slug h = elim (Bool-cases (api == a)) [
  | inl inside ↦ api_page-named parts slug (ground (arith, h, inside))
  | inr apart ↦ absurd (ground (arith, h, apart))
]

-- What holds of the response of every endpoint's handler and of every 405 holds of what the mux answers to
-- a request for a documented path.
module _ {S : Type 0} (settings : Settings S) (m : Moment) (r : Request) (state : ServerState S)
    (P : Endpoint → Response → Type 0)
    (served : (e : Endpoint) (slug : Bytes)
      → (e ≡ read → slug ≢ [])
      → P e
          (serve settings.net settings.client_ip settings.store settings.decode m.health e m.order
            m.limit_now m.now m.db_now slug r state).0)
    (refused : (e : Endpoint) (methods : List Bytes)
      → P e (handle_method_not_allowed methods)) where
  choice_lem :
      (b : Bool) (e e' : Endpoint) (slugs methods : List Bytes)
      → some e ≡ some e'
      → (e ≡ read → path_value slugs ≢ [])
      → P e'
          (run_choice settings m
            (if b then matched (endpoint e) slugs else matched (method_not_allowed methods) slugs)
            r
            state).0
  unfolding run_choice
  choice_lem true e e' slugs methods same named =
      subst
        (λ x.
          P x
            (serve settings.net settings.client_ip settings.store settings.decode m.health e m.order
              m.limit_now m.now m.db_now (path_value slugs) r state).0)
        (ground (arith, same)) (served e (path_value slugs) named)
  choice_lem false e e' slugs methods same named = refused e' methods

  route_lem :
      (page : Page) (e : Endpoint) (root : Target)
      → operation page ≡ some e
      → ((slug : Bytes) → page ≡ clip_page slug → slug ≢ [])
      → P e (run_choice settings m (route root r.method page) r state).0
  unfolding operation route
  route_lem health_page e root h named =
      choice_lem (serves_get r.method) health e [] get_head h (λ other. ground (arith, other))
  route_lem clips_page e root h named =
      choice_lem (ascii "POST" == r.method) create e [] (ascii "POST" ∷ []) h
        (λ other. ground (arith, other))
  route_lem (clip_page slug) e root h named =
      choice_lem (serves_get r.method) read e (slug ∷ []) get_head h (λ same. named slug refl)
  route_lem (hint_page slug) e root h named =
      choice_lem (serves_get r.method) availability e (slug ∷ []) get_head h
        (λ other. ground (arith, other))
  route_lem bare_api e root h named = absurd (ground (arith, h))
  route_lem other_api e root h named = absurd (ground (arith, h))
  route_lem outside e root h named = absurd (ground (arith, h))

  pub dispatch_lem :
      (a : Bytes) (parts : List Bytes) (e : Endpoint)
      → is_clean r.escaped ≡ true
      → r.segments ≡ a ∷ parts
      → ([] == r.method) ≡ false
      → operation (page_of (a ∷ parts)) ≡ some e
      → P e (dispatch settings m r state).0
  unfolding dispatch
  dispatch_lem a parts e clean path given documented =
      let root = root_of (serves_files settings.files) in
      subst (λ choice. P e (run_choice settings m choice r state).0)
        (sym (
          find_handler-is_clean (register (serves_files settings.files) all_routes) r.method
            r.escaped r.segments clean
          ∙ ap (choose (register (serves_files settings.files) all_routes) r.method) path
          ∙ choose-route (serves_files settings.files) r.method a given parts))
        (route_lem (page_of (a ∷ parts)) e root documented
          (λ slug page. page_of-named (a ∷ parts) slug (inl page)))

module _ (format : Time → Bytes) (is_date_time : Bytes → Bool)
    (printed : (t : Time) → is_date_time (format t) ≡ true) where
  pub not_allowed-is_declared :
      (e : Endpoint) (methods : List Bytes)
      → is_declared format is_date_time (handle_method_not_allowed methods) (responses e) ≡ true
  unfolding is_declared handle_method_not_allowed
  not_allowed-is_declared health methods = refl
  not_allowed-is_declared create methods = refl
  not_allowed-is_declared read methods = refl
  not_allowed-is_declared availability methods = refl

  -- Whatever the queries return, a request for a path that the API document describes, by any method,
  -- is answered over the PostgreSQL store by a response that the document declares for the path's
  -- operation, in its status, its header and the schema of its JSON, or by the internal error, which the
  -- document does not name. The method is not empty, and the path is clean: none of its segments but
  -- the last is empty, and none is a dot or two. Every instant is printed as a date-time.
  pub dispatch-is_declared :
      {S : Type 0} (settings : Settings S) (queries : Querier S) (m : Moment) (r : Request)
      (state : ServerState S) (a : Bytes) (parts : List Bytes) (e : Endpoint)
      → is_clean r.escaped ≡ true
      → r.segments ≡ a ∷ parts
      → ([] == r.method) ≡ false
      → operation (page_of (a ∷ parts)) ≡ some e
      → (is_declared format is_date_time
            (dispatch (with_store settings (pg_store queries)) m r state).0
            (responses e)
          ≡ true)
        ⊎ ((dispatch (with_store settings (pg_store queries)) m r state).0 ≡ write_internal_error)
  dispatch-is_declared settings queries m r state =
      let st = pg_store queries in
      dispatch_lem (with_store settings st) m r state (IsCovered format is_date_time printed)
        (λ e slug.
          serve-IsCovered format is_date_time printed settings.net settings.client_ip
            settings.decode m.health st e m.order m.limit_now m.now m.db_now slug r state
            (pg_store-IsOwn queries state.store))
        (λ e methods. inl (not_allowed-is_declared e methods))
