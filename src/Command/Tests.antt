-- ===== src/Command/Tests.antt =====
-- Runs of cmd/server/main.go and instances of its theorems.
use go_clipboard.Base.{
  inr, ◌≡◌, ◌↔◌, refl, ascii, ◌==◌, [], ◌∷◌, none, some, ok, err, pos, true, false,
}
use go_clipboard.Clock.{minute}
use go_clipboard.Config.{Config}
use go_clipboard.Database.{verify_connectivity, connectivity_verified}
use go_clipboard.Migrate
use go_clipboard.Migrate.{Provider, missing, found}
use go_clipboard.Command.{
  pool, runner, signals, sweeper, opened, closed, connectivity, migration_checked, listening,
  server_stopped, failed, listen_failed, signalled, World, deferring, after, unless,
  wait_and_shutdown, serve_http, load_static_fs, handle_acts, migrate_acts, migrate_outcome,
  start_server, serve_with, serve_pooled, pooled, serve_configured, run_serve, run_command,
  migrate_with, migrate_pooled, migrate_configured, run_migrate, run_migrate_args, main,
}
use go_clipboard.Command.Balanced.{settle, main-settle}
use go_clipboard.Command.Lifecycle.{
  Process, waiting, pool_closed, sweeping, ended, started, Steps, here, next, served, tick, swept,
  stop, sweep_done, close, shutdown_timeout,
}
use go_clipboard.Command.Exits.{Serves, main-0_iff}

program : Unit {0}
unfolding deferring after unless wait_and_shutdown serve_http load_static_fs handle_acts
    migrate_acts migrate_outcome start_server serve_with serve_pooled pooled serve_configured
    run_serve run_command migrate_with migrate_pooled migrate_configured run_migrate
    run_migrate_args main verify_connectivity Migrate.new_runner Migrate.migrations_dir_exists
    Migrate.provided Migrate.up Migrate.up_outcome Migrate.check_pending Migrate.status_of ◌==◌
program = tt

abbrev config : Config
config = record {
  database_url = ascii "postgres://db";
  port = pos 8080;
  migrations_dir = ascii "db/migrations";
  sweep_interval = pos minute;
  trusted_proxy = [];
  ipv6_prefix = pos 64;
  rate_limit = record {
    create_rate = pos 10;
    create_window = pos minute;
    avail_rate = pos 60;
    avail_window = pos minute;
    max_keys = pos 1000;
  };
  public_base_url = [];
  tls_hostname = [];
}

abbrev provider : Provider (Unit {0})
provider = record {
  up = λ s. (err "locked", s);
  down = λ s. (ok none, s);
  status = λ s. ok [];
  has_pending = λ s. ok false;
  get_db_version = λ s. ok (pos 3);
}

-- A server that is stopped by a signal.
abbrev world : World (Unit {0})
world = record {
  config = ok config;
  new_pool = none;
  ping = none;
  stat = found true;
  provider = ok provider;
  database = tt;
  frontend = none;
  wake = signalled;
  shutdown = none;
}

serves : main world [] ≡ (
  0,
  opened pool
      ∷ connectivity connectivity_verified
      ∷ opened runner
      ∷ migration_checked (ok (record { pending = false; current_version = pos 3 }))
      ∷ opened signals
      ∷ opened sweeper
      ∷ listening
      ∷ server_stopped
      ∷ closed sweeper
      ∷ closed signals
      ∷ closed runner
      ∷ closed pool
      ∷ [],
)
unfolding program
serves = refl

migrate_fails :
    main world (ascii "migrate" ∷ ascii "up" ∷ [])
    ≡ (1, opened pool ∷ opened runner ∷ closed runner ∷ closed pool ∷ failed ∷ [])
unfolding program
migrate_fails = refl

abbrev no_folder : World (Unit {0})
no_folder = record world { stat = missing; wake = listen_failed "port in use" }

main-settle_example : settle (main no_folder (ascii "serve" ∷ [])).1 (some []) ≡ some []
main-settle_example = main-settle no_folder (ascii "serve" ∷ [])

main-0_iff_example : ((main world []).0 ≡ 0) ↔ Serves world
main-0_iff_example = main-0_iff world

abbrev stopping : Process
stopping = record {
  phase = waiting;
  loop = sweeping;
  cancelled = true;
  answered = false;
  elapsed = 0;
  timed_out = false;
}

abbrev over : Process
over = record stopping { phase = pool_closed; loop = ended }

-- The server ends during a sweep.
to_stopping : Steps shutdown_timeout started stopping
to_stopping = next (next (here started) (tick started refl)) (served _ refl)

to_over : Steps shutdown_timeout started over
to_over =
    next
      (next (next (next to_stopping (swept _ refl (inr refl))) (stop _ refl refl))
        (sweep_done _ refl refl))
      (close _ refl)
