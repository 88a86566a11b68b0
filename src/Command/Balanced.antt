-- ===== src/Command/Balanced.antt =====
-- cmd/server/main.go: what a run acquires it gives back, the latest first.
use go_clipboard.Base.{
  ◌≡◌, refl, ap, ◌∙◌, Bool, true, false, Bool-cases, Bytes, ascii, ◌==◌, List, [], ◌∷◌, ◌++◌,
  Option, none, some, Option-cases, Result, ok, err, String, if◌then◌else◌, Result-cases, inl, inr,
  ◌⊎◌,
}
use go_clipboard.Config.{Config, ConfigError}
use go_clipboard.Migrate.{
  Provider, RunnerError, HandleAct, new_runner, migrations_dir_exists, provided,
}
use go_clipboard.Migrate
use go_clipboard.Command.{
  unless, Resource, pool, runner, signals, sweeper, Act, opened, closed, migration_checked, failed,
  Wake, listen_failed, listen_closed, signalled, World, Trace, deferring, after, wait_and_shutdown,
  serve_http, load_static_fs, handle_acts, migrate_acts, migrate_outcome, start_server, serve_with,
  serve_pooled, pooled, serve_configured, run_serve, run_command, migrate_with, migrate_pooled,
  migrate_configured, run_migrate, exit, run_migrate_args, main,
}

abbrev pub same : Resource → Resource → Bool
same pool pool = true
same runner runner = true
same signals signals = true
same sweeper sweeper = true
same _ _ = false

-- A close must be of the resource that was opened last of those that are held.
abbrev pub close : Resource → List Resource → Option (List Resource)
close r [] = none
close r (last ∷ held) = if same r last then some held else none

abbrev pub act : Act → List Resource → Option (List Resource)
act (opened r) held = some (r ∷ held)
act (closed r) held = close r held
act _ held = some held

-- What is held after the acts, if each close is of the last one.
unfoldable pub settle : List Act → Option (List Resource) → Option (List Resource)
settle acts none = none
settle [] (some held) = some held
settle (a ∷ acts) (some held) = settle acts (act a held)

abbrev IsBalanced : List Act → Type 0
IsBalanced acts = (held : List Resource) → settle acts (some held) ≡ some held

settle-none : (acts : List Act) → settle acts none ≡ none
unfolding settle
settle-none acts = refl

settle-append :
    (xs ys : List Act) (o : Option (List Resource)) → settle (xs ++ ys) o ≡ settle ys (settle xs o)
unfolding settle
settle-append [] ys none = settle-none ys
settle-append [] ys (some held) = refl
settle-append (a ∷ xs) ys none = settle-none ys
settle-append (a ∷ xs) ys (some held) = settle-append xs ys (act a held)

append-IsBalanced : (xs ys : List Act) → IsBalanced xs → IsBalanced ys → IsBalanced (xs ++ ys)
append-IsBalanced xs ys hx hy held =
    settle-append xs ys (some held) ∙ ap (settle ys) (hx held) ∙ hy held

-- A deferred close of what is already held.
closing :
    (r : Resource) (acts : List Act) (held : List Resource)
    → IsBalanced acts
    → settle (acts ++ (closed r ∷ [])) (some (r ∷ held)) ≡ some held
unfolding settle
closing r acts held h =
    settle-append acts (closed r ∷ []) (some (r ∷ held))
    ∙ ap (settle (closed r ∷ [])) (h (r ∷ held))
    ∙ last r
  where
    last : (q : Resource) → settle (closed q ∷ []) (some (q ∷ held)) ≡ some held
    last pool = refl
    last runner = refl
    last signals = refl
    last sweeper = refl

deferring-IsBalanced :
    (r : Resource) (rest : Trace) → IsBalanced rest.1 → IsBalanced (deferring r rest).1
unfolding deferring settle
deferring-IsBalanced r rest h held = closing r rest.1 held h

migrate_acts-IsBalanced : (lines : List Migrate.Log) → IsBalanced (migrate_acts lines)
unfolding migrate_acts settle
migrate_acts-IsBalanced [] held = refl
migrate_acts-IsBalanced (line ∷ lines) held = migrate_acts-IsBalanced lines held

wait_and_shutdown-IsBalanced :
    (wake : Wake) (shutdown : Option String) → IsBalanced (wait_and_shutdown wake shutdown).1
unfolding wait_and_shutdown settle
wait_and_shutdown-IsBalanced (listen_failed e) shutdown held = refl
wait_and_shutdown-IsBalanced listen_closed none held = refl
wait_and_shutdown-IsBalanced listen_closed (some e) held = refl
wait_and_shutdown-IsBalanced signalled none held = refl
wait_and_shutdown-IsBalanced signalled (some e) held = refl

exit-IsBalanced : (t : Trace) → IsBalanced t.1 → IsBalanced (exit t).1
unfolding settle
exit-IsBalanced (none, acts) h held = h held
exit-IsBalanced (some e, acts) h held = append-IsBalanced acts (failed ∷ []) h (λ k. refl) held

unless-IsBalanced :
    (e : Option String) (rest : Trace) → IsBalanced rest.1 → IsBalanced (unless e rest).1
unfolding unless settle
unless-IsBalanced none rest h held = h held
unless-IsBalanced (some e) rest h held = refl

-- NewRunner holds its handle exactly if it returns a runner.
runner_cases :
    {P : Type 0} (dir : Bytes) (stat : Migrate.Stat) (provider : Result String P)
    → ((p : P) × (new_runner dir stat provider ≡ (ok p, Migrate.opened ∷ [])))
      ⊎ ((e : RunnerError) × (new_runner dir stat provider ≡ (err e, [])))
      ⊎ ((e : RunnerError) × (new_runner dir stat provider
            ≡ (err e, Migrate.opened ∷ Migrate.closed ∷ [])))
unfolding new_runner provided
runner_cases dir stat provider = elim (Option-cases (Migrate.migrations_dir_exists dir stat)) [
  | inr (e, no_dir) ↦ inr (inl (Migrate.no_directory e, rw (no_dir, new_runner) refl))
  | inl there ↦ elim (Result-cases provider) [
    | inl (p, made) ↦ inl (p, rw (there, new_runner, made) refl)
    | inr (e, refused) ↦ inr (inr (Migrate.no_provider e, rw (there, new_runner, refused) refl))
  ]
]

module _ {S : Type 0} (w : World S) where
  serve_http-IsBalanced : IsBalanced (serve_http w.wake w.shutdown).1
  unfolding serve_http after settle
  serve_http-IsBalanced held = wait_and_shutdown-IsBalanced w.wake w.shutdown held

  start_server-IsBalanced : (cfg : Config) → IsBalanced (start_server w cfg).1
  unfolding start_server
  start_server-IsBalanced cfg =
      let served = serve_http w.wake w.shutdown in
      unless-IsBalanced (load_static_fs cfg w.frontend)
        (deferring signals (deferring sweeper served))
        (deferring-IsBalanced signals (deferring sweeper served)
          (deferring-IsBalanced sweeper served serve_http-IsBalanced))

  -- The rest of a function that has made a runner, or has not.
  serve_with-ok :
      (cfg : Config) (p : Provider S) (held : List Resource)
      → settle (serve_with w cfg (ok p)).1 (some (runner ∷ held)) ≡ some held
  unfolding serve_with after settle
  serve_with-ok cfg p held =
      closing runner
        (migration_checked (Migrate.check_pending p w.database) ∷ (start_server w cfg).1) held
        (start_server-IsBalanced cfg)

  serve_with-err : (cfg : Config) (e : RunnerError) → IsBalanced (serve_with w cfg (err e)).1
  unfolding serve_with after settle
  serve_with-err cfg e held = start_server-IsBalanced cfg held

  serve_pooled-IsBalanced : (cfg : Config) → IsBalanced (serve_pooled w cfg).1
  unfolding serve_pooled after handle_acts settle
  serve_pooled-IsBalanced cfg held = elim (runner_cases cfg.migrations_dir w.stat w.provider) [
    | inl (p, made) ↦ rw made (serve_with-ok cfg p held)
    | inr (inl (e, none_made)) ↦ rw none_made (serve_with-err cfg e held)
    | inr (inr (e, given_back)) ↦ rw given_back (serve_with-err cfg e held)
  ]

  run_command-IsBalanced :
      (command : Bytes) (p : Provider S) → IsBalanced (run_command w command p).1
  unfolding run_command migrate_outcome settle
  run_command-IsBalanced command p held = elim (Bool-cases (command == ascii "up")) [
    | inl ups ↦ rw ups (migrate_acts-IsBalanced (Migrate.up p w.database).0.1 held)
    | inr not_up ↦ elim (Bool-cases (command == ascii "down")) [
      | inl downs ↦
          rw (not_up, downs) (migrate_acts-IsBalanced (Migrate.down p w.database).0.1 held)
      | inr not_down ↦ elim (Bool-cases (command == ascii "status")) [
        | inl prints ↦
            rw (not_up, not_down, prints)
              (migrate_acts-IsBalanced (Migrate.print_status p w.database).1 held)
        | inr unknown ↦ rw (not_up, not_down, unknown) refl
      ]
    ]
  ]

  migrate_pooled-IsBalanced :
      (command : Bytes) (cfg : Config) → IsBalanced (migrate_pooled w command cfg).1
  unfolding migrate_pooled migrate_with after handle_acts settle
  migrate_pooled-IsBalanced command cfg held =
      elim (runner_cases cfg.migrations_dir w.stat w.provider) [
        | inl (p, made) ↦
            rw made
              (closing runner (run_command w command p).1 held (run_command-IsBalanced command p))
        | inr (inl (e, none_made)) ↦ rw none_made refl
        | inr (inr (e, given_back)) ↦ rw given_back refl
      ]

  pooled-IsBalanced :
      (e : Option String) (rest : Trace) → IsBalanced rest.1 → IsBalanced (pooled w e rest).1
  unfolding pooled settle
  pooled-IsBalanced (some e) rest h held = refl
  pooled-IsBalanced none rest h held = deferring-IsBalanced pool rest h held

  serve_configured-IsBalanced :
      (c : Result ConfigError Config) → IsBalanced (serve_configured w c).1
  unfolding serve_configured settle
  serve_configured-IsBalanced (err e) held = refl
  serve_configured-IsBalanced (ok cfg) held =
      pooled-IsBalanced w.new_pool (serve_pooled w cfg) (serve_pooled-IsBalanced cfg) held

  migrate_configured-IsBalanced :
      (command : Bytes) (c : Result ConfigError Config)
      → IsBalanced (migrate_configured w command c).1
  unfolding migrate_configured settle
  migrate_configured-IsBalanced command (err e) held = refl
  migrate_configured-IsBalanced command (ok cfg) held =
      pooled-IsBalanced w.new_pool (migrate_pooled w command cfg)
        (migrate_pooled-IsBalanced command cfg) held

  run_serve-IsBalanced : IsBalanced (exit (run_serve w)).1
  unfolding run_serve
  run_serve-IsBalanced = exit-IsBalanced (run_serve w) (serve_configured-IsBalanced w.config)

  migrate_args-IsBalanced : (args : List Bytes) → IsBalanced (run_migrate_args w args).1
  unfolding run_migrate_args run_migrate settle
  migrate_args-IsBalanced [] held = refl
  migrate_args-IsBalanced (command ∷ others) held =
      exit-IsBalanced (run_migrate w command) (migrate_configured-IsBalanced command w.config) held

  -- Whatever the arguments and however a run ends, what it has acquired is given back before the process
  -- exits, the latest first: the sweeper is waited for before the runner's handle is closed, and the
  -- pool is closed last.
  pub main-settle : (args : List Bytes) → settle (main w args).1 (some []) ≡ some []
  unfolding main settle
  main-settle [] = run_serve-IsBalanced []
  main-settle (name ∷ args) = elim (Bool-cases (name == ascii "serve")) [
    | inl serves ↦ rw serves (run_serve-IsBalanced [])
    | inr not_serve ↦ elim (Bool-cases (name == ascii "migrate")) [
      | inl migrates ↦ rw (not_serve, migrates) (migrate_args-IsBalanced args [])
      | inr unknown ↦ rw (not_serve, unknown) refl
    ]
  ]
