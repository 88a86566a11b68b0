-- ===== src/Config/Tests.antt =====
-- Runs of internal/config and an instance of its theorem.
use go_clipboard.Base.{◌≡◌, refl, true, false, ascii, ◌==◌, [], ◌∷◌, pos, none, some, ok, err}
use go_clipboard.Clock.{minute}
use go_clipboard.Config.{
  Environment, Parsers, Config, load_from_env, getenv, setting, and_then, check_url,
  load_trusted_proxy, load_public_base_url, load_rate_limit_config, drop_slashes, port, required,
  database_url, migrations_dir, sweep_interval, trusted_proxy, ipv6_prefix, create_rate,
  create_window, avail_rate, avail_window, max_keys, public_base_url,
}
use go_clipboard.Config.Bounds.{IsConfig, load_from_env-IsConfig}

program : Unit {0}
unfolding ◌==◌ load_from_env getenv setting and_then check_url load_trusted_proxy
    load_public_base_url load_rate_limit_config drop_slashes
program = tt

-- Numbers of one digit, durations of that many minutes, one URL.
abbrev pub parsers : Parsers
parsers = record {
  atoi = λ s. elim s [ [] ↦ none | c ∷ rest ↦ some (pos 9) ];
  parse_duration = λ s. some (pos minute);
  is_ip = λ s. true;
  trim_space = λ s. s;
  parse_url = λ s. some (record {
    scheme = ascii "https";
    host = ascii "paste.example:443";
    hostname = ascii "paste.example";
    user = false;
    path = ascii "/";
    raw_query = [];
    fragment = [];
  });
}

abbrev pub production : Environment
production database_url = some (ascii "postgres:")
production port = some (ascii "9")
production migrations_dir = none
production sweep_interval = none
production trusted_proxy = some []
production ipv6_prefix = none
production create_rate = none
production create_window = none
production avail_rate = none
production avail_window = none
production max_keys = none
production public_base_url = some (ascii "https://paste.example:443/")

abbrev pub loaded : Config
loaded = record {
  database_url = ascii "postgres:";
  port = pos 9;
  migrations_dir = ascii "db/migrations";
  sweep_interval = pos minute;
  trusted_proxy = [];
  ipv6_prefix = pos 64;
  rate_limit = record {
    create_rate = pos 10;
    create_window = pos minute;
    avail_rate = pos 30;
    avail_window = pos minute;
    max_keys = pos 10000;
  };
  public_base_url = ascii "https://paste.example:443";
  tls_hostname = ascii "paste.example";
}

pub loads : load_from_env parsers production ≡ ok loaded
unfolding program
loads = refl

load_from_env-IsConfig_example : IsConfig parsers production loaded
load_from_env-IsConfig_example = load_from_env-IsConfig parsers production loaded loads

abbrev nothing : Environment
nothing v = none

nothing_refused : load_from_env parsers nothing ≡ err (required database_url)
unfolding program
nothing_refused = refl
