-- ===== src/Http/Server.antt =====
-- internal/httpapi/server.go: the routes, the methods that each path answers, and what the endpoints do.
pub mod Allowed
pub mod Stores
pub mod Tables
pub mod Methods
pub mod Routes
use go_clipboard.Base.{
  ℕ, Bool, true, false, Bytes, ascii, ◌==◌, List, [], ◌∷◌, ◌++◌, Option, none, some, Result, ok,
  err, if◌then◌else◌,
}
use go_clipboard.Base.Map.{Map, lookup, insert}
use go_clipboard.Clock.{Time}
use go_clipboard.Clips.Store.{Store}
use go_clipboard.RateLimit.{Entry, MemoryLimiter}
use go_clipboard.Http.{Request, Response, Header, allow, write_error}
use go_clipboard.Http.ClientIp.{Net, ClientIpConfig}
use go_clipboard.Http.Clips.{Decoded, create_clip, get_clip, get_clip_availability}
use go_clipboard.Http.Health.{HealthDependencies, handle_health}
use go_clipboard.Http.Limiting.{rate_limit}
use go_clipboard.Http.Mux.{Registered, handle}

-- The handlers of the routes.
pub data Endpoint : Type 0 where
  health create read availability : Endpoint

pub record ApiRoute : Type 0 where
  pub method : Bytes
  pub path : Bytes
  pub handler : Endpoint

abbrev pub get_method : Bytes
get_method = ascii "GET"

abbrev pub head_method : Bytes
head_method = ascii "HEAD"

abbrev pub health_routes : List ApiRoute
health_routes = record { method = get_method; path = ascii "/api/health"; handler = health } ∷ []

abbrev pub clip_routes : List ApiRoute
clip_routes =
    record { method = ascii "POST"; path = ascii "/api/clips"; handler = create }
    ∷ record { method = get_method; path = ascii "/api/clips/{slug}"; handler = read }
    ∷ record {
      method = get_method;
      path = ascii "/api/clips/{slug}/availability";
      handler = availability;
    }
    ∷ []

-- allowed[path], which is empty for a path that is not in the map.
abbrev pub or_empty : Option (List Bytes) → List Bytes
or_empty none = []
or_empty (some methods) = methods

abbrev pub allowed_at : Bytes → Map (List Bytes) → List Bytes
allowed_at path allowed = or_empty (lookup path allowed)

-- allowed[path] = append(allowed[path], method)
unfoldable pub append_method : Bytes → Bytes → Map (List Bytes) → Map (List Bytes)
append_method path method allowed = insert path (allowed_at path allowed ++ (method ∷ [])) allowed

-- The loop over the routes that fills the map.
unfoldable pub allow_routes : List ApiRoute → Map (List Bytes) → Map (List Bytes)
unfolding append_method
allow_routes [] allowed = allowed
allow_routes (route ∷ routes) allowed =
    let served = append_method route.path route.method allowed in
    allow_routes routes
      (if route.method == get_method then append_method route.path head_method served else served)

-- The handlers that NewServer registers.
pub data Target : Type 0 where
  endpoint : Endpoint → Target
  method_not_allowed : List Bytes → Target
  api_fallback root_fallback static_files : Target

unfoldable pub register_routes : List ApiRoute → List (Registered Target)
unfolding handle
register_routes [] = []
register_routes (route ∷ routes) =
    handle route.method route.path (endpoint route.handler) ∷ register_routes routes

-- The paths of the map once more, without a method.
unfoldable pub register_paths : Map (List Bytes) → List (Registered Target)
unfolding handle
register_paths [] = []
register_paths ((path, methods) ∷ allowed) =
    handle [] path (method_not_allowed methods) ∷ register_paths allowed

-- All patterns that NewServer registers. The order in which it ranges over the map does not matter
-- to the mux.
unfoldable pub register : Bool → List ApiRoute → List (Registered Target)
unfolding register_routes register_paths allow_routes handle
register static routes =
    register_routes routes
    ++ (register_paths (allow_routes routes [])
        ++ (handle [] (ascii "/api/") api_fallback
            ∷ handle [] (ascii "/") (if static then static_files else root_fallback)
            ∷ []))

-- strings.Join
unfoldable pub join : Bytes → List Bytes → Bytes
join separator [] = []
join separator (text ∷ []) = text
join separator (text ∷ next ∷ texts) = text ++ (separator ++ join separator (next ∷ texts))

-- The dependencies that are missing; `none` is a nil service.
unfoldable pub missing_dependencies : {A : Type 0} → Option A → List Bytes
missing_dependencies none = ascii "Clips" ∷ []
missing_dependencies (some service) = []

abbrev pub missing_error : List Bytes → Option Bytes
missing_error [] = none
missing_error (name ∷ names) =
    some (ascii "missing required dependencies: " ++ join (ascii ", ") (name ∷ names))

-- Dependencies.validate
unfoldable pub validate_dependencies : {A : Type 0} → Option A → Option Bytes
unfolding missing_dependencies join
validate_dependencies clips = missing_error (missing_dependencies clips)

abbrev pub registered_unless :
    Option Bytes → List (Registered Target) → Result Bytes (List (Registered Target))
registered_unless (some e) patterns = err e
registered_unless none patterns = ok patterns

-- NewServer: the patterns of its mux.
unfoldable pub new_server :
    {A : Type 0} → Option A → Bool → List ApiRoute → Result Bytes (List (Registered Target))
unfolding validate_dependencies register
new_server clips static routes =
    registered_unless (validate_dependencies clips) (register static routes)

unfoldable pub handle_method_not_allowed : List Bytes → Response
unfolding write_error
handle_method_not_allowed methods =
    let resp = write_error 405 "method_not_allowed" "method not allowed" in
    record resp { headers = allow methods ∷ resp.headers }

-- What the handlers of the routes share: the two limiters and the store.
pub record ServerState (S : Type 0) : Type 0 where
  pub create_limiter : Option MemoryLimiter
  pub avail_limiter : Option MemoryLimiter
  pub store : S

module _ {S : Type 0} (net : Net) (cfg : ClientIpConfig) (st : Store S)
    (decode : ℕ → Bytes → Decoded) (deps : HealthDependencies) where
  -- The handler of a route. `order` and `limit_now` are for the limiter, `slug` is r.PathValue("slug").
  unfoldable pub serve :
      Endpoint
      → Map Entry
      → Time
      → Time
      → Time
      → Bytes
      → Request
      → ServerState S
      → Response × ServerState S
  unfolding rate_limit
  serve health order limit_now now db_now slug r state = (handle_health deps, state)
  serve create order limit_now now db_now slug r state =
      let (resp, limiter, s) =
        rate_limit net cfg (create_clip st decode now db_now) order limit_now r state.create_limiter
          state.store in
      (resp, record state { create_limiter = limiter; store = s })
  serve read order limit_now now db_now slug r state =
      (get_clip st now db_now slug state.store, state)
  serve availability order limit_now now db_now slug r state =
      let (resp, limiter, s) =
        rate_limit net cfg (λ r' s'. (get_clip_availability st db_now slug s', s')) order limit_now
          r state.avail_limiter state.store in
      (resp, record state { avail_limiter = limiter; store = s })
