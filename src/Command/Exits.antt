-- ===== src/Command/Exits.antt =====
-- cmd/server/main.go: when a run ends well.
use go_clipboard.Base.{
  ◌≡◌, refl, ◌∙◌, sym, ◌↔◌, ◌⊎◌, ◌≢◌, subst, Result-cases, inl, inr, [], Option, none, some, Result,
  ok, err, String, arith,
}
use go_clipboard.Config.{Config, ConfigError}
use go_clipboard.Migrate.{Provider, RunnerError, new_runner}
use go_clipboard.Command.{
  Wake, listen_failed, listen_closed, signalled, World, Trace, deferring, after, unless,
  wait_and_shutdown, serve_http, failing, load_static_fs, start_server, serve_with, serve_pooled,
  pooled, serve_configured, run_serve, exit, main,
}

-- Everything that a server cannot do without.
pub record Serves {S : Type 0} (w : World S) : Type 0 where
  pub cfg : Config
  pub config : w.config ≡ ok cfg
  pub new_pool : w.new_pool ≡ none
  pub frontend : load_static_fs cfg w.frontend ≡ none
  pub wake : (w.wake ≡ listen_closed) ⊎ (w.wake ≡ signalled)
  pub shutdown : w.shutdown ≡ none

exit-0_iff : (t : Trace) → ((exit t).0 ≡ 0) ↔ (t.0 ≡ none)
exit-0_iff (none, acts) = (λ h. refl, λ h. refl)
exit-0_iff (some e, acts) = (λ h. absurd (ground (arith, h)), λ h. absurd (ground (arith, h)))

failing_iff : (e : Option String) → (failing e ≡ none) ↔ (e ≡ none)
failing_iff none = (λ h. refl, λ h. refl)
failing_iff (some e) = (λ h. absurd (ground (arith, h)), λ h. absurd (ground (arith, h)))

wait_and_shutdown_iff :
    (wake : Wake) (shutdown : Option String)
    → ((wait_and_shutdown wake shutdown).0 ≡ none)
      ↔ (((wake ≡ listen_closed) ⊎ (wake ≡ signalled)) × (shutdown ≡ none))
unfolding wait_and_shutdown
wait_and_shutdown_iff (listen_failed e) shutdown = (
  λ h. absurd (ground (arith, h)),
  λ (h, stopped). elim h [
    | inl x ↦ absurd (ground (arith, x))
    | inr x ↦ absurd (ground (arith, x))
  ],
)
wait_and_shutdown_iff listen_closed shutdown =
    (λ h. (inl refl, (failing_iff shutdown).0 h), λ (h, stopped). (failing_iff shutdown).1 stopped)
wait_and_shutdown_iff signalled shutdown =
    (λ h. (inr refl, (failing_iff shutdown).0 h), λ (h, stopped). (failing_iff shutdown).1 stopped)

unless_iff :
    (e : Option String) (rest : Trace) → ((unless e rest).0 ≡ none) ↔ ((e ≡ none) × (rest.0 ≡ none))
unfolding unless
unless_iff none rest = (λ h. (refl, h), λ (h, h'). h')
unless_iff (some e) rest = (λ h. absurd (ground (arith, h)), λ (h, h'). absurd (ground (arith, h)))

pooled_iff :
    {S : Type 0} (w : World S) (e : Option String) (rest : Trace)
    → ((pooled w e rest).0 ≡ none) ↔ ((e ≡ none) × (rest.0 ≡ none))
unfolding pooled deferring
pooled_iff w none rest = (λ h. (refl, h), λ (h, h'). h')
pooled_iff w (some e) rest =
    (λ h. absurd (ground (arith, h)), λ (h, h'). absurd (ground (arith, h)))

module _ {S : Type 0} (w : World S) where
  serve_with-start_server :
      (cfg : Config) (result : Result RunnerError (Provider S))
      → (serve_with w cfg result).0 ≡ (start_server w cfg).0
  unfolding serve_with after
  serve_with-start_server cfg (ok p) = refl
  serve_with-start_server cfg (err e) = refl

  serve_pooled-start_server : (cfg : Config) → (serve_pooled w cfg).0 ≡ (start_server w cfg).0
  unfolding serve_pooled after
  serve_pooled-start_server cfg =
      serve_with-start_server cfg (new_runner cfg.migrations_dir w.stat w.provider).0

  start_server_iff :
      (cfg : Config)
      → ((start_server w cfg).0 ≡ none) ↔ (
          (load_static_fs cfg w.frontend ≡ none)
          × ((w.wake ≡ listen_closed) ⊎ (w.wake ≡ signalled))
          × (w.shutdown ≡ none))
  unfolding start_server serve_http deferring after
  start_server_iff cfg =
      let loads = unless_iff (load_static_fs cfg w.frontend) _ in
      let stops = wait_and_shutdown_iff w.wake w.shutdown in
      (
        λ h.
            let (loaded, rest) = loads.0 h in
            let (woken, stopped) = stops.0 rest in (loaded, woken, stopped),
        λ (loaded, woken, stopped). loads.1 (loaded, stops.1 (woken, stopped)),
      )

  configured_iff :
      (cfg : Config)
      → ((serve_configured w (ok cfg)).0 ≡ none) ↔ (
          (w.new_pool ≡ none)
          × (load_static_fs cfg w.frontend ≡ none)
          × ((w.wake ≡ listen_closed) ⊎ (w.wake ≡ signalled))
          × (w.shutdown ≡ none))
  unfolding serve_configured
  configured_iff cfg =
      let makes = pooled_iff w w.new_pool (serve_pooled w cfg) in
      let starts = start_server_iff cfg in
      let same = serve_pooled-start_server cfg in
      (
        λ h.
            let (made, rest) = makes.0 h in
            let (loaded, woken, stopped) = starts.0 (sym same ∙ rest) in
            (made, loaded, woken, stopped),
        λ (made, loaded, woken, stopped). makes.1 (made, same ∙ starts.1 (loaded, woken, stopped)),
      )

  no_config : (e : ConfigError) → (serve_configured w (err e)).0 ≢ none
  unfolding serve_configured
  no_config e h = ground (arith, h)

  -- Without arguments the process exits with status 0 exactly when the configuration is accepted, the
  -- pool is made, the frontend, if it is served, is loaded, the server does not fail to listen, and
  -- its shutdown does not fail. A failed ping, a missing migrations directory, a runner that cannot be
  -- made and a failed check of the migrations do not stop it.
  pub main-0_iff : ((main w []).0 ≡ 0) ↔ Serves w
  unfolding main run_serve
  main-0_iff = (
    λ h. elim (Result-cases w.config) [
      | inl (cfg, given) ↦
          let done = (exit-0_iff (run_serve w)).0 h in
          let (made, loaded, woken, stopped) =
            (configured_iff cfg).0 (subst (λ c. (serve_configured w c).0 ≡ none) given done) in
          record {
            cfg = cfg;
            config = given;
            new_pool = made;
            frontend = loaded;
            wake = woken;
            shutdown = stopped;
          }
      | inr (e, given) ↦
          let done = (exit-0_iff (run_serve w)).0 h in
          absurd (no_config e (subst (λ c. (serve_configured w c).0 ≡ none) given done))
    ],
    λ serves. (exit-0_iff (run_serve w)).1 (
        subst (λ c. (serve_configured w c).0 ≡ none) (sym serves.config)
          ((configured_iff serves.cfg).1
            (serves.new_pool, serves.frontend, serves.wake, serves.shutdown))),
  )
