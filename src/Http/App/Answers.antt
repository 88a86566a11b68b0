-- ===== src/Http/App/Answers.antt =====
-- internal/httpapi/server.go: what the client gets of a request, and what is logged.
use go_clipboard.Base.{ascii, ◌≡◌, refl, ap, ◌∙◌, [], ◌∷◌, if◌then◌else◌, inl, inr, Bool-cases}
use go_clipboard.Http.{Request, Response, plain_error}
use go_clipboard.Http.Host.{is_allowed, require_host-is_allowed}
use go_clipboard.Http.Middleware.{
  Run, returned, request_completed, chain, request_logging, panic_recovery,
}
use go_clipboard.Http.Middleware.Logged.{chain-returned}
use go_clipboard.Http.Server.{ServerState}
use go_clipboard.Http.Writer.{new_writer, write_all, sent_header, respond}
use go_clipboard.Http.Writer.Sent.{IsDistinct, respond-exact}
use go_clipboard.Http.App.{Settings, Moment, dispatch, written, serve_mux, handler}

module _ {S : Type 0} (settings : Settings S) (m : Moment) (r : Request) (s : ServerState S) where
  handler-is_allowed : handler settings m r s ≡ (
      if is_allowed settings.net settings.hostname r.host
      then chain (serve_mux settings m) (request_logging ∷ panic_recovery ∷ []) r s
      else (written settings m (plain_error (ascii "host not allowed") 421), s))
  unfolding handler
  handler-is_allowed =
      require_host-is_allowed settings.net (written settings m) settings.hostname
        (chain (serve_mux settings m) (request_logging ∷ panic_recovery ∷ [])) r s

  serve_mux-written :
      serve_mux settings m r s
      ≡ (written settings m (dispatch settings m r s).0, (dispatch settings m r s).1)
  unfolding serve_mux
  serve_mux-written = refl

  written_lem :
      (resp : Response)
      → written settings m resp ≡ record { ops = respond resp; ending = returned; log = [] }
  unfolding written
  written_lem resp = refl

  plain_error-IsDistinct : IsDistinct [] (plain_error (ascii "host not allowed") 421).headers
  unfolding plain_error
  plain_error-IsDistinct = (tt, ((refl, tt), tt))

  -- A request for a host that is not the configured one, if there is one, is answered by 421 with
  -- nothing logged and the state as it was; any other by what the routes answer, with one line of
  -- the wrappers in the log that tells the status, if no two headers of the answer have one name. Either way the handler
  -- returns, and the client reads exactly the answer.
  pub handler_lem :
      IsDistinct [] (dispatch settings m r s).0.headers
      → let (run, s') = handler settings m r s in
        let (resp, s'') =
          if is_allowed settings.net settings.hostname r.host
          then dispatch settings m r s
          else (plain_error (ascii "host not allowed") 421, s) in
        (run.ending ≡ returned)
        × (sent_header (write_all run.ops new_writer) ≡ (resp.status, resp.headers))
        × ((write_all run.ops new_writer).body ≡ resp.body ∷ [])
        × (run.log ≡ (
            if is_allowed settings.net settings.hostname r.host
            then request_completed r.method r.path resp.status ∷ []
            else []))
        × (s' ≡ s'')
  handler_lem distinct = elim (Bool-cases (is_allowed settings.net settings.hostname r.host)) [
    | inl ok ↦
        let (run, sent, state) =
          chain-returned (serve_mux settings m) r s (dispatch settings m r s).0
            (ap (λ (x : Run × ServerState S). x.0) serve_mux-written
              ∙ written_lem (dispatch settings m r s).0)
            distinct in
        rw (handler-is_allowed, ok, run)
          (
            refl,
            sent,
            (respond-exact (dispatch settings m r s).0 distinct).1,
            refl,
            state ∙ ap (λ (x : Run × ServerState S). x.1) serve_mux-written,
          )
    | inr refused ↦
        let (sent, body) =
          respond-exact (plain_error (ascii "host not allowed") 421) plain_error-IsDistinct in
        rw (handler-is_allowed, refused, written_lem (plain_error (ascii "host not allowed") 421))
          (refl, sent, body, refl, refl)
  ]
