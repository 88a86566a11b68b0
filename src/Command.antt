-- ===== src/Command.antt =====
-- cmd/server/main.go: the commands, what each acquires and gives back, and the exit status.
-- A run is the list of its acts. A resource that is closed by a `defer` is closed after the acts of the
-- rest of its function, whichever return ends it.
pub mod Balanced
pub mod Exits
pub mod Lifecycle
pub mod Wiring
pub mod Limits
pub mod Origin
mod Tests
mod WiringTests
use go_clipboard.Base.{
  ℕ, Bool, true, false, Bytes, ascii, ◌==◌, List, [], ◌∷◌, ◌++◌, Option, none, some, Result, ok,
  err, String, if◌then◌else◌,
}
use go_clipboard.Config.{Config, ConfigError}
use go_clipboard.Database.{PoolError, verify_connectivity}
use go_clipboard.Database
use go_clipboard.Migrate.{
  Status, Provider, Stat, RunnerError, HandleAct, new_runner, check_pending, up, down, print_status,
}
use go_clipboard.Migrate

-- What is acquired: the pool, the database/sql handle of the runner, the relay of signals, and the
-- goroutine of the sweeper, which is closed when its end has been waited for.
pub data Resource : Type 0 where
  pool runner signals sweeper : Resource

pub data Act : Type 0 where
  opened closed : Resource → Act
  connectivity : Database.Log → Act
  migrations_unavailable : RunnerError → Act
  migration_checked : Result String Status → Act
  migrated : Migrate.Log → Act
  listening server_stopped : Act
  failed usage : Act

-- How the wait in serveHTTP ends: ListenAndServe returns an error, or the error of a closed server, or a
-- signal comes.
pub data Wake : Type 0 where
  listen_failed : String → Wake
  listen_closed signalled : Wake

pub data ServeError : Type 0 where
  config_error : ConfigError → ServeError
  pool_error : PoolError → ServeError
  other_error : String → ServeError
  runner_error : RunnerError → ServeError
  unknown_command : Bytes → ServeError

-- What a run meets, over states `S` of the database: the configuration, what creates the pool, the first
-- ping, the migrations directory, goose's provider, the embedded frontend, and the end of the server.
pub record World (S : Type 0) : Type 0 where
  pub config : Result ConfigError Config
  pub new_pool : Option String
  pub ping : Option String
  pub stat : Stat
  pub provider : Result String (Provider S)
  pub database : S
  pub frontend : Option String
  pub wake : Wake
  pub shutdown : Option String

-- An error, if the function returns one, and the acts.
abbrev pub Trace : Type 0
Trace = Option ServeError × List Act

-- A resource that is opened, the rest of the function, and the deferred close.
unfoldable pub deferring : Resource → Trace → Trace
deferring r rest = (rest.0, opened r ∷ (rest.1 ++ (closed r ∷ [])))

unfoldable pub after : List Act → Trace → Trace
after acts rest = (rest.0, acts ++ rest.1)

abbrev pub failing : Option String → Option ServeError
failing none = none
failing (some e) = some (other_error e)

abbrev pub stopped_if : Option String → List Act
stopped_if none = server_stopped ∷ []
stopped_if (some e) = []

-- A server that failed to listen is not shut down.
unfoldable pub wait_and_shutdown : Wake → Option String → Trace
wait_and_shutdown (listen_failed e) shutdown = (some (other_error e), [])
wait_and_shutdown listen_closed shutdown = (failing shutdown, stopped_if shutdown)
wait_and_shutdown signalled shutdown = (failing shutdown, stopped_if shutdown)

unfoldable pub serve_http : Wake → Option String → Trace
unfolding wait_and_shutdown after
serve_http wake shutdown = after (listening ∷ []) (wait_and_shutdown wake shutdown)

-- The error of loadStaticFS: the frontend is loaded if there is a public base URL.
unfoldable pub load_static_fs : Config → Option String → Option String
load_static_fs cfg frontend = if cfg.public_base_url == [] then none else frontend

unfoldable pub handle_acts : List HandleAct → List Act
handle_acts [] = []
handle_acts (Migrate.opened ∷ acts) = opened runner ∷ handle_acts acts
handle_acts (Migrate.closed ∷ acts) = closed runner ∷ handle_acts acts

unfoldable pub migrate_acts : List Migrate.Log → List Act
migrate_acts [] = []
migrate_acts (line ∷ lines) = migrated line ∷ migrate_acts lines

unfoldable pub migrate_outcome : Migrate.Outcome → Trace
unfolding migrate_acts
migrate_outcome (error, lines) = (failing error, migrate_acts lines)

-- An early return of an error.
unfoldable pub unless : Option String → Trace → Trace
unless (some e) rest = (some (other_error e), [])
unless none rest = rest

-- The exit status, and the acts; a failure is logged before os.Exit.
abbrev pub exit : Trace → ℕ × List Act
exit (none, acts) = (0, acts)
exit (some e, acts) = (1, acts ++ (failed ∷ []))

module _ {S : Type 0} (w : World S) where
  -- runServe from loadStaticFS on. NewServer refuses only a missing service, and here it is there.
  unfoldable pub start_server : Config → Trace
  unfolding unless load_static_fs serve_http deferring
  start_server cfg =
      unless (load_static_fs cfg w.frontend)
        (deferring signals (deferring sweeper (serve_http w.wake w.shutdown)))

  -- runServe once the pool is there. Without a runner it goes on.
  unfoldable pub serve_with : Config → Result RunnerError (Provider S) → Trace
  unfolding start_server check_pending after
  serve_with cfg (err e) = after (migrations_unavailable e ∷ []) (start_server cfg)
  serve_with cfg (ok p) =
      let rest = after (migration_checked (check_pending p w.database) ∷ []) (start_server cfg) in
      (rest.0, rest.1 ++ (closed runner ∷ []))

  unfoldable pub serve_pooled : Config → Trace
  unfolding serve_with new_runner handle_acts verify_connectivity after
  serve_pooled cfg =
      let (result, acts) = new_runner cfg.migrations_dir w.stat w.provider in
      after (connectivity (verify_connectivity w.ping) ∷ handle_acts acts) (serve_with cfg result)

  -- What NewPool returns, and the pool's deferred close.
  unfoldable pub made : Option PoolError → Trace → Trace
  unfolding deferring
  made (some e) rest = (some (pool_error e), [])
  made none rest = deferring pool rest

  unfoldable pub pooled : Option String → Trace → Trace
  unfolding made
  pooled e rest = made (Database.new_pool e) rest

  unfoldable pub serve_configured : Result ConfigError Config → Trace
  unfolding pooled serve_pooled
  serve_configured (err e) = (some (config_error e), failed ∷ [])
  serve_configured (ok cfg) = pooled w.new_pool (serve_pooled cfg)

  unfoldable pub run_serve : Trace
  unfolding serve_configured
  run_serve = serve_configured w.config

  -- The switch of runMigrate.
  unfoldable pub run_command : Bytes → Provider S → Trace
  unfolding up down print_status migrate_outcome
  run_command command p =
      if command == ascii "up"
      then migrate_outcome (up p w.database).0
      else if command == ascii "down"
      then migrate_outcome (down p w.database).0
      else if command == ascii "status"
      then migrate_outcome (print_status p w.database)
      else (some (unknown_command command), usage ∷ [])

  unfoldable pub migrate_with : Bytes → Result RunnerError (Provider S) → Trace
  unfolding run_command
  migrate_with command (err e) = (some (runner_error e), [])
  migrate_with command (ok p) =
      let rest = run_command command p in (rest.0, rest.1 ++ (closed runner ∷ []))

  unfoldable pub migrate_pooled : Bytes → Config → Trace
  unfolding migrate_with new_runner handle_acts after
  migrate_pooled command cfg =
      let (result, acts) = new_runner cfg.migrations_dir w.stat w.provider in
      after (handle_acts acts) (migrate_with command result)

  unfoldable pub migrate_configured : Bytes → Result ConfigError Config → Trace
  unfolding pooled migrate_pooled
  migrate_configured command (err e) = (some (config_error e), failed ∷ [])
  migrate_configured command (ok cfg) = pooled w.new_pool (migrate_pooled command cfg)

  unfoldable pub run_migrate : Bytes → Trace
  unfolding migrate_configured
  run_migrate command = migrate_configured command w.config

  unfoldable pub run_migrate_args : List Bytes → ℕ × List Act
  unfolding run_migrate
  run_migrate_args [] = (1, usage ∷ [])
  run_migrate_args (command ∷ others) = exit (run_migrate command)

  -- main, on os.Args[1:].
  unfoldable pub main : List Bytes → ℕ × List Act
  unfolding run_serve run_migrate_args
  main [] = exit run_serve
  main (name ∷ args) =
      if name == ascii "serve"
      then exit run_serve
      else if name == ascii "migrate"
      then run_migrate_args args
      else (1, usage ∷ [])
