-- ===== src/Config.antt =====
-- internal/config/config.go: the configuration that the environment holds.
-- The environment is a function of the variable: `none` if it is unset. What the file calls of strconv,
-- time, net, strings and net/url are parameters.
pub mod Bounds
pub mod Tests
use go_clipboard.Base.{
  ℕ, Bool, true, false, not, ◌||◌, ◌&&◌, Bytes, ascii, ◌==◌, List, [], ◌∷◌, ◌++◌, ℤ, pos, Option,
  none, some, Result, ok, err, if◌then◌else◌, ltb_ℤ, leb_ℤ, eqb,
}
use go_clipboard.Clock.{Duration, minute}

pub data Variable : Type 0 where
  database_url port migrations_dir sweep_interval trusted_proxy ipv6_prefix create_rate
        create_window avail_rate avail_window max_keys public_base_url :
      Variable

abbrev pub Environment : Type 0
Environment = Variable → Option Bytes

-- Which rule is broken, by which variable and with which value.
pub data ConfigError : Type 0 where
  required : Variable → ConfigError
  invalid : Variable → Bytes → ConfigError
  no_url not_https no_host userinfo has_path has_query has_fragment not_origin : ConfigError

-- url.URL, as far as it is read. `hostname` is what u.Hostname() returns, `user` whether u.User is set.
pub record Url : Type 0 where
  pub scheme : Bytes
  pub host : Bytes
  pub hostname : Bytes
  pub user : Bool
  pub path : Bytes
  pub raw_query : Bytes
  pub fragment : Bytes

-- strconv.Atoi, time.ParseDuration, whether net.ParseIP accepts, strings.TrimSpace and url.Parse.
pub record Parsers : Type 0 where
  pub atoi : Bytes → Option ℤ
  pub parse_duration : Bytes → Option Duration
  pub is_ip : Bytes → Bool
  pub trim_space : Bytes → Bytes
  pub parse_url : Bytes → Option Url

pub record RateLimitConfig : Type 0 where
  pub create_rate : ℤ
  pub create_window : Duration
  pub avail_rate : ℤ
  pub avail_window : Duration
  pub max_keys : ℤ

pub record Config : Type 0 where
  pub database_url : Bytes
  pub port : ℤ
  pub migrations_dir : Bytes
  pub sweep_interval : Duration
  pub trusted_proxy : Bytes
  pub ipv6_prefix : ℤ
  pub rate_limit : RateLimitConfig
  pub public_base_url : Bytes
  pub tls_hostname : Bytes

abbrev pub default_port : ℤ
default_port = pos 8080

abbrev pub default_migrations_dir : Bytes
default_migrations_dir = ascii "db/migrations"

abbrev pub default_sweep_interval : Duration
default_sweep_interval = pos minute

abbrev pub default_trusted_proxy : Bytes
default_trusted_proxy = ascii "127.0.0.1"

abbrev pub default_ipv6_prefix : ℤ
default_ipv6_prefix = pos 64

abbrev pub default_rate_limit_create_rate : ℤ
default_rate_limit_create_rate = pos 10

abbrev pub default_rate_limit_create_window : Duration
default_rate_limit_create_window = pos minute

abbrev pub default_rate_limit_avail_rate : ℤ
default_rate_limit_avail_rate = pos 30

abbrev pub default_rate_limit_avail_window : Duration
default_rate_limit_avail_window = pos minute

abbrev pub default_rate_limit_max_keys : ℤ
default_rate_limit_max_keys = pos 10000

-- os.Getenv
unfoldable pub getenv : Environment → Variable → Bytes
getenv env v = elim (env v) [ none ↦ [] | some value ↦ value ]

-- The early return of an error.
unfoldable pub and_then :
    {A B : Type 0} → Result ConfigError A → (A → Result ConfigError B) → Result ConfigError B
and_then (ok a) f = f a
and_then (err e) f = err e

-- A variable that replaces a default: if v := os.Getenv(name); v != "" { … }
unfoldable pub setting :
    {A : Type 0} → Environment → Variable → A → (Bytes → Option A) → Result ConfigError A
unfolding getenv
setting env v default parse =
    if getenv env v == []
    then ok default
    else (elim (parse (getenv env v)) [ none ↦ err (invalid v (getenv env v)) | some a ↦ ok a ])

-- A number that is parsed and then tested against the bounds.
unfoldable pub within : ℤ → ℤ → Option ℤ → Option ℤ
within low high none = none
within low high (some n) = if ltb_ℤ n low || ltb_ℤ high n then none else some n

unfoldable pub at_least_one : Option ℤ → Option ℤ
at_least_one none = none
at_least_one (some n) = if ltb_ℤ n (pos 1) then none else some n

unfoldable pub positive : Option Duration → Option Duration
positive none = none
positive (some d) = if leb_ℤ d (pos 0) then none else some d

unfoldable pub drop_slashes : Bytes → Bytes
drop_slashes [] = []
drop_slashes (b ∷ s) = let rest = drop_slashes s in if eqb b 47 && rest == [] then [] else b ∷ rest

-- The checks of `loadPublicBaseURL` on a URL that was parsed, in their order.
unfoldable pub check_url : Bytes → Url → Result ConfigError (Bytes × Bytes)
unfolding drop_slashes
check_url raw u =
    if not (u.scheme == ascii "https")
    then err not_https
    else if u.host == []
    then err no_host
    else if u.hostname == []
    then err no_host
    else if u.user
    then err userinfo
    else if not (u.path == []) && not (u.path == ascii "/")
    then err has_path
    else if not (u.raw_query == [])
    then err has_query
    else if not (u.fragment == [])
    then err has_fragment
    else if not (drop_slashes raw == u.scheme ++ (ascii "://" ++ u.host))
    then err not_origin
    else ok (u.scheme ++ (ascii "://" ++ u.host), u.hostname)

module _ (p : Parsers) (env : Environment) where
  unfoldable pub load_trusted_proxy : Result ConfigError Bytes
  load_trusted_proxy = elim (env trusted_proxy) [
    | none ↦ ok default_trusted_proxy
    | some v ↦
        if v == [] then ok [] else if not (p.is_ip v) then err (invalid trusted_proxy v) else ok v
  ]

  unfoldable pub load_public_base_url : Result ConfigError (Bytes × Bytes)
  unfolding getenv check_url
  load_public_base_url =
      let raw = p.trim_space (getenv env public_base_url) in
      if raw == []
      then ok ([], [])
      else (elim (p.parse_url raw) [ none ↦ err no_url | some u ↦ check_url raw u ])

  unfoldable pub load_rate_limit_config : Result ConfigError RateLimitConfig
  unfolding and_then setting at_least_one positive
  load_rate_limit_config =
      and_then
        (setting env create_rate default_rate_limit_create_rate (λ v. at_least_one (p.atoi v)))
        (λ rate1.
          and_then
            (setting env create_window default_rate_limit_create_window
              (λ v. positive (p.parse_duration v)))
            (λ window1.
              and_then
                (setting env avail_rate default_rate_limit_avail_rate
                  (λ v. at_least_one (p.atoi v)))
                (λ rate2.
                  and_then
                    (setting env avail_window default_rate_limit_avail_window
                      (λ v. positive (p.parse_duration v)))
                    (λ window2.
                      and_then
                        (setting env max_keys default_rate_limit_max_keys
                          (λ v. at_least_one (p.atoi v)))
                        (λ keys. ok (record {
                          create_rate = rate1;
                          create_window = window1;
                          avail_rate = rate2;
                          avail_window = window2;
                          max_keys = keys;
                        }))))))

  unfoldable pub load_from_env : Result ConfigError Config
  unfolding and_then setting within positive load_trusted_proxy load_public_base_url
      load_rate_limit_config
  load_from_env =
      if getenv env database_url == []
      then err (required database_url)
      else (and_then (setting env port default_port (λ v. within (pos 1) (pos 65535) (p.atoi v)))
          (λ port_number.
            and_then (setting env migrations_dir default_migrations_dir (λ v. some v)) (λ dir.
              and_then
                (setting env sweep_interval default_sweep_interval
                  (λ v. positive (p.parse_duration v)))
                (λ interval. and_then load_trusted_proxy (λ proxy.
                  and_then
                    (setting env ipv6_prefix default_ipv6_prefix
                      (λ v. within (pos 0) (pos 128) (p.atoi v)))
                    (λ prefix. and_then load_rate_limit_config (λ limits.
                      and_then load_public_base_url (λ url. ok (record {
                        database_url = getenv env database_url;
                        port = port_number;
                        migrations_dir = dir;
                        sweep_interval = interval;
                        trusted_proxy = proxy;
                        ipv6_prefix = prefix;
                        rate_limit = limits;
                        public_base_url = url.0;
                        tls_hostname = url.1;
                      })))))))))
