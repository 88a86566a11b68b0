-- ===== src/Config/Bounds.antt =====
-- internal/config/config.go: what an accepted configuration satisfies.
use go_clipboard.Base.{
  ℕ, ◌≤◌, ◌≡◌, ◌≢◌, refl, ap, sym, ◌∙◌, subst, inl, inr, ◌⊎◌, true, false, not, Bytes, ascii, ◌==◌,
  ==_iff, [], ◌++◌, ℤ, pos, Option, none, some, Result, ok, err, if◌then◌else◌, ◌≤ℤ◌, arith,
  Bool-cases, Option-cases,
}
use go_clipboard.Clock.{minute}
use go_clipboard.Config.{
  invalid, Variable, Environment, ConfigError, Url, Parsers, RateLimitConfig, Config, getenv,
  and_then, setting, within, at_least_one, positive, check_url, load_trusted_proxy,
  load_public_base_url, load_rate_limit_config, load_from_env, database_url, port, migrations_dir,
  sweep_interval, trusted_proxy, ipv6_prefix, create_rate, create_window, avail_rate, avail_window,
  max_keys, public_base_url,
}

-- The bounds on the limiters' settings.
pub record IsRateLimitConfig (c : RateLimitConfig) : Type 0 where
  pub create_rate : pos 1 ≤ℤ c.create_rate
  pub create_window : pos 1 ≤ℤ c.create_window
  pub avail_rate : pos 1 ≤ℤ c.avail_rate
  pub avail_window : pos 1 ≤ℤ c.avail_window
  pub max_keys : pos 1 ≤ℤ c.max_keys

-- The URL that the value of PUBLIC_BASE_URL is parsed to, with the origin and the host name that are taken
-- from it: the origin is https, and neither the host nor its name is empty.
pub record IsFromUrl (p : Parsers) (raw : Bytes) (u : Url) (url hostname : Bytes) : Type 0 where
  pub parsed : p.parse_url raw ≡ some u
  pub https : url ≡ ascii "https://" ++ u.host
  pub host_given : u.host ≢ []
  pub host_name : hostname ≡ u.hostname
  pub named : hostname ≢ []

-- The origin and the host name go together: both empty, or both those of the URL that is configured.
abbrev pub IsOrigin : Parsers → Environment → Bytes → Bytes → Type 0
IsOrigin p env url hostname =
    ((url ≡ []) × (hostname ≡ []))
    ⊎ ((u : Url) × IsFromUrl p (p.trim_space (getenv env public_base_url)) u url hostname)

-- The bounds on a whole configuration.
pub record IsConfig (p : Parsers) (env : Environment) (c : Config) : Type 0 where
  pub database_url : c.database_url ≢ []
  pub port_low : pos 1 ≤ℤ c.port
  pub port_high : c.port ≤ℤ pos 65535
  pub migrations_dir : c.migrations_dir ≢ []
  pub sweep_interval : pos 1 ≤ℤ c.sweep_interval
  pub trusted_proxy :
      (c.trusted_proxy ≡ [])
      ⊎ (c.trusted_proxy ≡ ascii "127.0.0.1")
      ⊎ (p.is_ip c.trusted_proxy ≡ true)
  pub prefix_low : pos 0 ≤ℤ c.ipv6_prefix
  pub prefix_high : c.ipv6_prefix ≤ℤ pos 128
  pub limits : IsRateLimitConfig c.rate_limit
  pub origin : IsOrigin p env c.public_base_url c.tls_hostname

and_then-ok :
    {A B : Type 0} (r : Result ConfigError A) (f : A → Result ConfigError B) (b : B)
    → and_then r f ≡ ok b
    → (a : A) × (r ≡ ok a) × (f a ≡ ok b)
unfolding and_then
and_then-ok (ok a) f b h = (a, refl, h)
and_then-ok (err e) f b h = absurd (ground (arith, h))

-- A setting is its default, or what its text is parsed to.
setting-ok :
    {A : Type 0} (env : Environment) (v : Variable) (default : A) (parse : Bytes → Option A) (a : A)
    → setting env v default parse ≡ ok a
    → (a ≡ default) ⊎ (((getenv env v == []) ≡ false) × (parse (getenv env v) ≡ some a))
unfolding setting
setting-ok env v default parse a h = elim (Bool-cases (getenv env v == [])) [
  | inl unset ↦ inl (ground (arith, h, unset))
  | inr given ↦ elim (Option-cases (parse (getenv env v))) [
    | inl bad ↦ absurd (ground (arith, h, given, bad))
    | inr (x, good) ↦ inr (given, good ∙ ap (λ (y : _). some y) (ground (arith, h, given, good)))
  ]
]

within-some :
    (low high n : ℤ) (o : Option ℤ) → within low high o ≡ some n → (low ≤ℤ n) × (n ≤ℤ high)
unfolding within
within-some low high n none h = absurd (ground (arith, h))
within-some low high n (some m) h = ground (arith, h)

at_least_one-some : (n : ℤ) (o : Option ℤ) → at_least_one o ≡ some n → pos 1 ≤ℤ n
unfolding at_least_one
at_least_one-some n none h = absurd (ground (arith, h))
at_least_one-some n (some m) h = ground (arith, h)

positive-some : (n : ℤ) (o : Option ℤ) → positive o ≡ some n → pos 1 ≤ℤ n
unfolding positive
positive-some n none h = absurd (ground (arith, h))
positive-some n (some m) h = ground (arith, h)

ok-injective : {A : Type 0} (a b : A) → ◌≡◌ {A = Result ConfigError A} (ok a) (ok b) → a ≡ b
ok-injective a b h = cc

-- The choice of `loadTrustedProxy`, for a value of the variable.
abbrev proxy_of : Parsers → Option Bytes → Result ConfigError Bytes
proxy_of p o = elim o [
  | none ↦ ok (ascii "127.0.0.1")
  | some v ↦
      if v == [] then ok [] else if not (p.is_ip v) then err (invalid trusted_proxy v) else ok v
]

proxy_of-some :
    (p : Parsers) (v proxy : Bytes)
    → proxy_of p (some v) ≡ ok proxy
    → (proxy ≡ []) ⊎ (proxy ≡ ascii "127.0.0.1") ⊎ (p.is_ip proxy ≡ true)
proxy_of-some p v proxy h = elim (Bool-cases (v == [])) [
  | inl empty ↦ inl (ground (arith, h, empty))
  | inr given ↦ elim (Bool-cases (p.is_ip v)) [
    | inl good ↦ inr (inr (subst (λ x. p.is_ip x ≡ true) (ground (arith, h, given, good)) good))
    | inr bad ↦ absurd (ground (arith, h, given, bad))
  ]
]

module _ (p : Parsers) (env : Environment) where
  count_bound :
      (v : Variable) (d : ℕ) (n : ℤ)
      → setting env v (pos d) (λ t. at_least_one (p.atoi t)) ≡ ok n
      → 1 ≤ d
      → pos 1 ≤ℤ n
  count_bound v d n h least = elim (setting-ok env v (pos d) _ n h) [
    | inl default ↦ ground (arith, default, least)
    | inr (given, parsed) ↦ at_least_one-some n _ parsed
  ]

  duration_bound :
      (v : Variable) (d : ℕ) (n : ℤ)
      → setting env v (pos d) (λ t. positive (p.parse_duration t)) ≡ ok n
      → 1 ≤ d
      → pos 1 ≤ℤ n
  duration_bound v d n h least = elim (setting-ok env v (pos d) _ n h) [
    | inl default ↦ ground (arith, default, least)
    | inr (given, parsed) ↦ positive-some n _ parsed
  ]

  within_bound :
      (v : Variable) (low high d : ℕ) (n : ℤ)
      → setting env v (pos d) (λ t. within (pos low) (pos high) (p.atoi t)) ≡ ok n
      → low ≤ d
      → d ≤ high
      → (pos low ≤ℤ n) × (n ≤ℤ pos high)
  within_bound v low high d n h above below = elim (setting-ok env v (pos d) _ n h) [
    | inl default ↦ ground (arith, default, above, below)
    | inr (given, parsed) ↦ within-some (pos low) (pos high) n _ parsed
  ]

  directory_bound :
      (dir : Bytes)
      → setting env migrations_dir (ascii "db/migrations") (λ v. some v) ≡ ok dir
      → dir ≢ []
  directory_bound dir h = elim (setting-ok env migrations_dir (ascii "db/migrations") _ dir h) [
    | inl default ↦ λ none. ground (arith, default, none)
    | inr (given, same) ↦
        λ none. ground (arith, given, same, none, (==_iff (getenv env migrations_dir) []).1)
  ]

  load_trusted_proxy-ok :
      (proxy : Bytes)
      → load_trusted_proxy p env ≡ ok proxy
      → (proxy ≡ []) ⊎ (proxy ≡ ascii "127.0.0.1") ⊎ (p.is_ip proxy ≡ true)
  unfolding load_trusted_proxy
  load_trusted_proxy-ok proxy h = elim (Option-cases (env trusted_proxy)) [
    | inl unset ↦ inr (inl (sym (ok-injective _ _ (subst (λ o. proxy_of p o ≡ ok proxy) unset h))))
    | inr (v, set) ↦ proxy_of-some p v proxy (subst (λ o. proxy_of p o ≡ ok proxy) set h)
  ]

  load_rate_limit_config-ok :
      (c : RateLimitConfig) → load_rate_limit_config p env ≡ ok c → IsRateLimitConfig c
  unfolding load_rate_limit_config
  load_rate_limit_config-ok c h =
      let (rate1, h1, g1) = and_then-ok _ _ c h in
      let (window1, h2, g2) = and_then-ok _ _ c g1 in
      let (rate2, h3, g3) = and_then-ok _ _ c g2 in
      let (window2, h4, g4) = and_then-ok _ _ c g3 in
      let (keys, h5, g5) = and_then-ok _ _ c g4 in
      subst (λ x. IsRateLimitConfig x) (ok-injective _ c g5)
        (record {
          create_rate = count_bound create_rate 10 rate1 h1 (omega arith);
          create_window = duration_bound create_window minute window1 h2 (omega arith);
          avail_rate = count_bound avail_rate 30 rate2 h3 (omega arith);
          avail_window = duration_bound avail_window minute window2 h4 (omega arith);
          max_keys = count_bound max_keys 10000 keys h5 (omega arith);
        })

  check_url-ok :
      (raw : Bytes) (u : Url) (o : Bytes × Bytes)
      → p.parse_url raw ≡ some u
      → check_url raw u ≡ ok o
      → IsFromUrl p raw u o.0 o.1
  unfolding check_url
  check_url-ok raw u o parsed h =
      let facts : ((u.scheme == ascii "https") ≡ true)
          × ((u.host == []) ≡ false)
          × ((u.hostname == []) ≡ false)
          × (u.scheme ++ (ascii "://" ++ u.host) ≡ o.0)
          × (u.hostname ≡ o.1) =
        ground (arith, h) in
      let (https, host, name, origin_eq, name_eq) = facts in
      record {
        parsed = parsed;
        https =
            sym origin_eq
            ∙ ap (λ (x : Bytes). x ++ (ascii "://" ++ u.host))
                ((==_iff u.scheme (ascii "https")).0 https);
        host_given = λ none. ground (arith, host, (==_iff u.host []).1 none);
        host_name = sym name_eq;
        named = λ none. ground (arith, name, (==_iff u.hostname []).1 (name_eq ∙ none));
      }

  load_public_base_url-ok :
      (o : Bytes × Bytes) → load_public_base_url p env ≡ ok o → IsOrigin p env o.0 o.1
  unfolding load_public_base_url
  load_public_base_url-ok o h =
      let raw = p.trim_space (getenv env public_base_url) in
      elim (Bool-cases (raw == [])) [
        | inl unset ↦ inl (ground (arith, h, unset))
        | inr given ↦ elim (Option-cases (p.parse_url raw)) [
          | inl bad ↦ absurd (ground (arith, h, given, bad))
          | inr (u, parsed) ↦
              inr (u, check_url-ok raw u o parsed (ground (arith, h, given, parsed)))
        ]
      ]

  -- Every configuration that is accepted has a database URL, a port from 1 to 65535, a directory for
  -- the migrations, a positive sweep interval, a trusted proxy that is empty, the default or an
  -- address, a prefix from 0 to 128, rates, windows and a cap on keys that are at least 1, and
  -- either no public origin or the https origin and the host name of the URL that is configured.
  pub load_from_env-IsConfig : (c : Config) → load_from_env p env ≡ ok c → IsConfig p env c
  unfolding load_from_env
  load_from_env-IsConfig c h = elim (Bool-cases (getenv env database_url == [])) [
    | inl unset ↦ absurd (ground (arith, h, unset))
    | inr given ↦
        let k = rw (load_from_env, given) at h in
        let (number, h1, g1) = and_then-ok _ _ c k in
        let (dir, h2, g2) = and_then-ok _ _ c g1 in
        let (interval, h3, g3) = and_then-ok _ _ c g2 in
        let (proxy, h4, g4) = and_then-ok _ _ c g3 in
        let (prefix, h5, g5) = and_then-ok _ _ c g4 in
        let (limits, h6, g6) = and_then-ok _ _ c g5 in
        let (url, h7, g7) = and_then-ok _ _ c g6 in
        let (port_from, port_to) =
          within_bound port 1 65535 8080 number h1 (omega arith) (omega arith) in
        let (prefix_from, prefix_to) =
          within_bound ipv6_prefix 0 128 64 prefix h5 (omega arith) (omega arith) in
        subst (λ x. IsConfig p env x) (ok-injective _ c g7)
          (record {
            database_url =
                λ none. ground (arith, given, (==_iff (getenv env database_url) []).1 none);
            port_low = port_from;
            port_high = port_to;
            migrations_dir = directory_bound dir h2;
            sweep_interval = duration_bound sweep_interval minute interval h3 (omega arith);
            trusted_proxy = load_trusted_proxy-ok proxy h4;
            prefix_low = prefix_from;
            prefix_high = prefix_to;
            limits = load_rate_limit_config-ok limits h6;
            origin = load_public_base_url-ok url h7;
          })
  ]
