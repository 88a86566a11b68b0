-- ===== src/Openapi/Generated.antt =====
-- internal/openapi/openapi.gen.go: the enumerations, and the server that is generated from the document.
-- Parameters: `bind` is runtime.BindStyledParameterWithOptions for the slug of a path, and `itoa` prints a
-- number in decimal. A handler takes the values of the path's wildcards with the request.
pub mod Routes
pub mod Agreement
pub mod Lifetimes
use go_clipboard.Base.{
  ℕ, Bool, ◌||◌, Bytes, ascii, ◌==◌, List, [], ◌∷◌, ◌++◌, ℤ, pos, eqb_ℤ, Option, none, some, Result,
  ok, err,
}
use go_clipboard.Http.{Request, Response, plain_error}
use go_clipboard.Http.Mux.{Registered, handle}
use go_clipboard.Http.App.{path_value}

-- CreateClipRequestTtlSeconds.Valid
unfoldable pub is_valid_ttl : ℤ → Bool
is_valid_ttl e = eqb_ℤ e (pos 3600) || eqb_ℤ e (pos 600) || eqb_ℤ e (pos 7200)

-- HealthResponseStatus.Valid
unfoldable pub is_valid_status : Bytes → Bool
unfolding ◌==◌
is_valid_status e = e == ascii "degraded" || e == ascii "ok"

-- The errors of parameters. An error that one of them wraps is its text.
pub data ParamError : Type 0 where
  unescaped_cookie_param unmarshaling_param : Bytes → Bytes → ParamError
  required_param : Bytes → ParamError
  required_header invalid_param_format : Bytes → Bytes → ParamError
  too_many_values_for_param : Bytes → ℕ → ParamError

-- The methods Error.
unfoldable pub error_text : (ℕ → Bytes) → ParamError → Bytes
error_text itoa (unescaped_cookie_param name cause) =
    ascii "error unescaping cookie parameter '" ++ (name ++ ascii "'")
error_text itoa (unmarshaling_param name cause) =
    ascii "Error unmarshaling parameter " ++ (name ++ (ascii " as JSON: " ++ cause))
error_text itoa (required_param name) =
    ascii "Query argument " ++ (name ++ ascii " is required, but not found")
error_text itoa (required_header name cause) =
    ascii "Header parameter " ++ (name ++ ascii " is required, but not found")
error_text itoa (invalid_param_format name cause) =
    ascii "Invalid format for parameter " ++ (name ++ (ascii ": " ++ cause))
error_text itoa (too_many_values_for_param name count) =
    ascii "Expected one value for " ++ (name ++ (ascii ", got " ++ itoa count))

-- The methods Unwrap, which two of the types do not have.
unfoldable pub unwrap : ParamError → Option Bytes
unwrap (unescaped_cookie_param name cause) = some cause
unwrap (unmarshaling_param name cause) = some cause
unwrap (required_param name) = none
unwrap (required_header name cause) = some cause
unwrap (invalid_param_format name cause) = some cause
unwrap (too_many_values_for_param name count) = none

-- http.HandlerFunc
abbrev pub HandlerFunc : Type 0 → Type 0
HandlerFunc S = List Bytes → Request → S → Response × S

abbrev pub MiddlewareFunc : Type 0 → Type 0
MiddlewareFunc S = HandlerFunc S → HandlerFunc S

pub record ServerInterface (S : Type 0) : Type 0 where
  pub create_clip : HandlerFunc S
  pub get_clip : Bytes → HandlerFunc S
  pub get_clip_availability : Bytes → HandlerFunc S
  pub get_health : HandlerFunc S

pub record ServerInterfaceWrapper (S : Type 0) : Type 0 where
  pub handler : ServerInterface S
  pub handler_middlewares : List (MiddlewareFunc S)
  pub error_handler_func : ParamError → HandlerFunc S

-- An option that is left out is empty, or `none`.
pub record StdHttpServerOptions (S : Type 0) : Type 0 where
  pub base_url : Bytes
  pub base_router : Option (List (Registered (HandlerFunc S)))
  pub middlewares : List (MiddlewareFunc S)
  pub error_handler_func : Option (ParamError → HandlerFunc S)

-- The patterns of the router that options name, or of a new one.
abbrev pub router_or_new : {A : Type 0} → Option (List A) → List A
router_or_new none = []
router_or_new (some patterns) = patterns

module _ (bind : Bytes → Result Bytes Bytes) (itoa : ℕ → Bytes) {S : Type 0} where
  -- for _, middleware := range siw.HandlerMiddlewares
  unfoldable pub wrap_all : List (MiddlewareFunc S) → HandlerFunc S → HandlerFunc S
  wrap_all [] next = next
  wrap_all (middleware ∷ middlewares) next = wrap_all middlewares (middleware next)

  unfoldable pub wrapped_create_clip : ServerInterfaceWrapper S → HandlerFunc S
  unfolding wrap_all
  wrapped_create_clip siw = wrap_all siw.handler_middlewares siw.handler.create_clip

  unfoldable pub wrapped_get_clip : ServerInterfaceWrapper S → HandlerFunc S
  unfolding wrap_all
  wrapped_get_clip siw slugs r s = elim (bind (path_value slugs)) [
    | err e ↦ siw.error_handler_func (invalid_param_format (ascii "slug") e) slugs r s
    | ok slug ↦ wrap_all siw.handler_middlewares (siw.handler.get_clip slug) slugs r s
  ]

  unfoldable pub wrapped_get_clip_availability : ServerInterfaceWrapper S → HandlerFunc S
  unfolding wrap_all
  wrapped_get_clip_availability siw slugs r s = elim (bind (path_value slugs)) [
    | err e ↦ siw.error_handler_func (invalid_param_format (ascii "slug") e) slugs r s
    | ok slug ↦ wrap_all siw.handler_middlewares (siw.handler.get_clip_availability slug) slugs r s
  ]

  unfoldable pub wrapped_get_health : ServerInterfaceWrapper S → HandlerFunc S
  unfolding wrap_all
  wrapped_get_health siw = wrap_all siw.handler_middlewares siw.handler.get_health

  unfoldable pub error_handler : Option (ParamError → HandlerFunc S) → ParamError → HandlerFunc S
  unfolding plain_error error_text
  error_handler (some f) = f
  error_handler none = λ e slugs r s. (plain_error (error_text itoa e) 400, s)

  -- HandlerWithOptions: the patterns of the router that it returns.
  unfoldable pub handler_with_options :
      ServerInterface S → StdHttpServerOptions S → List (Registered (HandlerFunc S))
  unfolding wrapped_create_clip wrapped_get_clip wrapped_get_clip_availability wrapped_get_health
      error_handler handle
  handler_with_options si options =
      let wrapper : ServerInterfaceWrapper S = record {
        handler = si;
        handler_middlewares = options.middlewares;
        error_handler_func = error_handler options.error_handler_func;
      } in
      router_or_new options.base_router
      ++ (handle (ascii "GET") (options.base_url ++ ascii "/api/health")
            (wrapped_get_health wrapper)
          ∷ handle (ascii "POST") (options.base_url ++ ascii "/api/clips")
              (wrapped_create_clip wrapper)
          ∷ handle (ascii "GET") (options.base_url ++ ascii "/api/clips/{slug}")
              (wrapped_get_clip wrapper)
          ∷ handle (ascii "GET") (options.base_url ++ ascii "/api/clips/{slug}/availability")
              (wrapped_get_clip_availability wrapper)
          ∷ [])

  abbrev pub default_options : StdHttpServerOptions S
  default_options = record {
    base_url = [];
    base_router = none;
    middlewares = [];
    error_handler_func = none;
  }

  -- HandlerFromMuxWithBaseURL
  unfoldable pub handler_from_mux_with_base_url :
      ServerInterface S
      → List (Registered (HandlerFunc S))
      → Bytes
      → List (Registered (HandlerFunc S))
  unfolding handler_with_options
  handler_from_mux_with_base_url si m base_url =
      handler_with_options si (record default_options { base_url = base_url; base_router = some m })

  -- HandlerFromMux
  unfoldable pub handler_from_mux :
      ServerInterface S → List (Registered (HandlerFunc S)) → List (Registered (HandlerFunc S))
  unfolding handler_with_options
  handler_from_mux si m = handler_with_options si (record default_options { base_router = some m })

  -- Handler
  unfoldable pub handler_of : ServerInterface S → List (Registered (HandlerFunc S))
  unfolding handler_with_options
  handler_of si = handler_with_options si default_options
