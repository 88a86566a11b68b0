-- ===== src/Http/App.antt =====
-- internal/httpapi/server.go: the whole handler of a Server, from the host check to the endpoints.
pub mod Answers
pub mod Postings
pub mod History
pub mod Parallel
pub mod Agreement
mod Tests
use go_clipboard.Base.{
  ℕ, Bool, true, false, Bytes, ascii, ◌==◌, List, [], ◌∷◌, ◌++◌, Option, none, some, if◌then◌else◌,
}
use go_clipboard.Base.Map.{Map}
use go_clipboard.Clock.{Time}
use go_clipboard.Clips.Store.{Store}
use go_clipboard.RateLimit.{Entry}
use go_clipboard.Http.{Request, Response, handle_not_found}
use go_clipboard.Http.ClientIp.{Net, ClientIpConfig}
use go_clipboard.Http.Clips.{Decoded}
use go_clipboard.Http.Health.{HealthDependencies}
use go_clipboard.Http.Host.{require_host}
use go_clipboard.Http.Middleware.{Run, returned, Handler, chain, request_logging, panic_recovery}
use go_clipboard.Http.Mux.{Choice, matched, redirected, not_found, find_handler}
use go_clipboard.Http.Server.{
  Target, endpoint, method_not_allowed, api_fallback, root_fallback, static_files, register,
  health_routes, clip_routes, handle_method_not_allowed, ServerState, serve,
}
use go_clipboard.Http.Writer.{respond}

-- What NewServer is given, and what it uses of net/http: the JSON decoder, the files' handler if there
-- are embedded files, and the answer of a mux that redirects.
pub record Settings (S : Type 0) : Type 0 where
  pub net : Net
  pub client_ip : ClientIpConfig
  pub store : Store S
  pub decode : ℕ → Bytes → Decoded
  pub files : Option (Request → Response)
  pub redirect : Request → Response
  pub hostname : Bytes

-- The same settings over another store.
abbrev pub with_store : {S T : Type 0} → Settings S → Store T → Settings T
with_store settings st = record {
  net = settings.net;
  client_ip = settings.client_ip;
  store = st;
  decode = settings.decode;
  files = settings.files;
  redirect = settings.redirect;
  hostname = settings.hostname;
}

-- What the environment shows while one request is handled: the order of the limiter's map, the clocks of
-- the limiter, of the service and of the store, and what the probes return.
pub record Moment : Type 0 where
  pub order : Map Entry
  pub limit_now : Time
  pub now : Time
  pub db_now : Time
  pub health : HealthDependencies

-- r.PathValue("slug")
abbrev pub path_value : List Bytes → Bytes
path_value [] = []
path_value (slug ∷ slugs) = slug

abbrev pub serves_files : {A : Type 0} → Option A → Bool
serves_files none = false
serves_files (some a) = true

unfoldable pub file_answer : Option (Request → Response) → Request → Response
unfolding handle_not_found
file_answer none r = handle_not_found
file_answer (some files) r = files r

module _ {S : Type 0} (settings : Settings S) (m : Moment) where
  unfoldable pub run_target :
      Target → List Bytes → Request → ServerState S → Response × ServerState S
  unfolding serve handle_method_not_allowed handle_not_found file_answer
  run_target (endpoint e) slugs r state =
      serve settings.net settings.client_ip settings.store settings.decode m.health e m.order
        m.limit_now m.now m.db_now (path_value slugs) r state
  run_target (method_not_allowed methods) slugs r state = (handle_method_not_allowed methods, state)
  run_target api_fallback slugs r state = (handle_not_found, state)
  run_target root_fallback slugs r state = (handle_not_found, state)
  run_target static_files slugs r state = (file_answer settings.files r, state)

  unfoldable pub run_choice : Choice Target → Request → ServerState S → Response × ServerState S
  unfolding run_target
  run_choice (matched t slugs) r state = run_target t slugs r state
  run_choice redirected r state = (settings.redirect r, state)
  run_choice not_found r state = (handle_not_found, state)

  abbrev pub chosen : Request → Choice Target
  chosen r =
      find_handler (register (serves_files settings.files) (health_routes ++ clip_routes)) r.method
        r.escaped r.segments

  -- s.mux.ServeHTTP
  unfoldable pub dispatch : Request → ServerState S → Response × ServerState S
  unfolding run_choice
  dispatch r state = run_choice (chosen r) r state

  -- A handler that writes one response and returns.
  unfoldable pub written : Response → Run
  written resp = record { ops = respond resp; ending = returned; log = [] }

  unfoldable pub serve_mux : Handler (ServerState S)
  unfolding dispatch written
  serve_mux r state = let (resp, state') = dispatch r state in (written resp, state')

  -- Server.Handler
  unfoldable pub handler : Handler (ServerState S)
  unfolding serve_mux require_host
  handler =
      require_host settings.net written settings.hostname
        (chain serve_mux (request_logging ∷ panic_recovery ∷ []))
