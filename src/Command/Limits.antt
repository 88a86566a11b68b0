-- ===== src/Command/Limits.antt =====
-- cmd/server/main.go: the caps of the limiters over a server's whole run.
use go_clipboard.Base.{
  ◌≡◌, ◌≢◌, refl, subst, [], Option, none, some, ℤ, pos, negsuc, ◌≤ℤ◌, ok, length, arith,
}
use go_clipboard.Base.Map.{Map, Visits}
use go_clipboard.Clock.{Time}
use go_clipboard.Config.{Config, Environment, Parsers, load_from_env}
use go_clipboard.Config.Bounds.{load_from_env-IsConfig}
use go_clipboard.Clips.Service
use go_clipboard.RateLimit.{Entry, MemoryConfig, MemoryLimiter, new_memory_limiter, allow}
use go_clipboard.RateLimit.Capacity.{Reach, here, call, keys-bounded}
use go_clipboard.Http.{Request, Response}
use go_clipboard.Http.ClientIp.{Ip, client_ip}
use go_clipboard.Http.ClientIp.Keys.{client_ip-nonempty}
use go_clipboard.Http.Clips.{create_clip, get_clip_availability}
use go_clipboard.Http.Limiting.{rate_limit}
use go_clipboard.Http.Limiting.Refusals.{rate_limit-limiter}
use go_clipboard.Http.Mux.{Choice, matched, redirected, not_found}
use go_clipboard.Http.Server.{
  health, create, read, availability, Target, endpoint, method_not_allowed, api_fallback,
  root_fallback, static_files, ServerState, serve,
}
use go_clipboard.Http.App.{Settings, Moment, path_value, run_target, run_choice, chosen, dispatch}
use go_clipboard.Command.Wiring.{create_config, avail_config, wired_state}

-- The runtime ranges over the whole map of the limiter.
abbrev pub VisitsOf : Map Entry → Option MemoryLimiter → Type 0
VisitsOf order none = Unit {0}
VisitsOf order (some l) = Visits order l.keys

-- The order that a moment shows is one of the limiter that the request is counted by, if there is one.
abbrev pub IsOrderFor : {S : Type 0} → Choice Target → Map Entry → ServerState S → Type 0
IsOrderFor (matched (endpoint create) slugs) order state = VisitsOf order state.create_limiter
IsOrderFor (matched (endpoint availability) slugs) order state = VisitsOf order state.avail_limiter
IsOrderFor _ order state = Unit {0}

-- Requests and sweeps in any order.
pub data Run {S : Type 0} (settings : Settings S) (start : ServerState S)
    : ServerState S → Type 0 where
  begin : Run settings start start
  requested :
      {state : ServerState S} (m : Moment) (r : Request)
      → IsOrderFor (chosen settings m r) m.order state
      → Run settings start state
      → Run settings start (dispatch settings m r state).1
  swept :
      {state : ServerState S} (db_now : Time)
      → Run settings start state
      → Run settings start
          (record state { store = (Service.delete_expired settings.store db_now state.store).1 })

-- A limiter that calls have led to.
abbrev Held : MemoryLimiter → Option MemoryLimiter → Type 0
Held start o = (l : MemoryLimiter) × (o ≡ some l) × Reach start l

module _ {S : Type 0} (settings : Settings S)
    (printed : (a : Ip) → settings.net.ip_string a ≢ []) where
  rate_limit-Held :
      (start : MemoryLimiter) (next : Request → S → Response × S) (order : Map Entry) (now : Time)
      (r : Request) (o : Option MemoryLimiter) (s : S)
      → VisitsOf order o
      → Held start o
      → Held start (rate_limit settings.net settings.client_ip next order now r o s).1
  rate_limit-Held start next order now r none s visits (l, e, reach) = absurd (ground (arith, e))
  rate_limit-Held start next order now r (some l') s visits (l, e, reach) =
      let reached = subst (Reach start) (ground (arith, e)) reach in
      (
        (allow order now (client_ip settings.net r settings.client_ip) l').1,
        rate_limit-limiter settings.net settings.client_ip next order now r l' s,
        call order now (client_ip settings.net r settings.client_ip) reached visits
            (client_ip-nonempty settings.net r settings.client_ip printed),
      )

  record AreHeld (creates avails : MemoryLimiter) (state : ServerState S) : Type 0 where
    create_held : Held creates state.create_limiter
    avail_held : Held avails state.avail_limiter

  choice-AreHeld :
      (creates avails : MemoryLimiter) (m : Moment) (r : Request) (c : Choice Target)
      (state : ServerState S)
      → IsOrderFor c m.order state
      → AreHeld creates avails state
      → AreHeld creates avails (run_choice settings m c r state).1
  unfolding run_choice run_target serve
  choice-AreHeld creates avails m r (matched (endpoint create) slugs) state visits h = record {
    create_held =
        rate_limit-Held creates (create_clip settings.store settings.decode m.now m.db_now) m.order
          m.limit_now r state.create_limiter state.store visits h.create_held;
    avail_held = h.avail_held;
  }
  choice-AreHeld creates avails m r (matched (endpoint availability) slugs) state visits h =
      record {
        create_held = h.create_held;
        avail_held =
            rate_limit-Held avails
              (λ r' s'. (get_clip_availability settings.store m.db_now (path_value slugs) s', s'))
              m.order m.limit_now r state.avail_limiter state.store visits h.avail_held;
      }
  choice-AreHeld creates avails m r (matched (endpoint health) slugs) state visits h = h
  choice-AreHeld creates avails m r (matched (endpoint read) slugs) state visits h = h
  choice-AreHeld creates avails m r (matched (method_not_allowed methods) slugs) state visits h = h
  choice-AreHeld creates avails m r (matched api_fallback slugs) state visits h = h
  choice-AreHeld creates avails m r (matched root_fallback slugs) state visits h = h
  choice-AreHeld creates avails m r (matched static_files slugs) state visits h = h
  choice-AreHeld creates avails m r redirected state visits h = h
  choice-AreHeld creates avails m r not_found state visits h = h

  Run-AreHeld :
      (creates avails : MemoryLimiter) {start state : ServerState S}
      → AreHeld creates avails start
      → Run settings start state
      → AreHeld creates avails state
  unfolding dispatch
  Run-AreHeld creates avails held begin = held
  Run-AreHeld creates avails held (requested {state} m r visits run) =
      choice-AreHeld creates avails m r (chosen settings m r) state visits
        (Run-AreHeld creates avails held run)
  Run-AreHeld creates avails held (swept db_now run) =
      let h = Run-AreHeld creates avails held run in
      record { create_held = h.create_held; avail_held = h.avail_held }

-- The limiter is there, and holds no more keys than its cap.
abbrev pub IsCapped : ℤ → Option MemoryLimiter → Type 0
IsCapped cap o = (l : MemoryLimiter) × (o ≡ some l) × (pos (length l.keys) ≤ℤ cap)

length-cap :
    (cfg : MemoryConfig) (cap : ℤ) (l : MemoryLimiter)
    → cfg.max_keys ≡ cap
    → pos 1 ≤ℤ cap
    → Reach (new_memory_limiter cfg) l
    → pos (length l.keys) ≤ℤ cap
length-cap cfg (pos n) l e positive reach =
    let (bounded, distinct) = keys-bounded cfg n e (omega (arith, positive)) reach in
    omega (arith, bounded)
length-cap cfg (negsuc n) l e positive reach = absurd (omega (arith, positive))

Held-IsCapped :
    (cfg : MemoryConfig) (o : Option MemoryLimiter)
    → pos 1 ≤ℤ cfg.max_keys
    → Held (new_memory_limiter cfg) o
    → IsCapped cfg.max_keys o
Held-IsCapped cfg o positive (l, e, reach) =
    (l, e, length-cap cfg cfg.max_keys l refl positive reach)

module _ (p : Parsers) (env : Environment) (cfg : Config)
    (accepted : load_from_env p env ≡ ok cfg) where
  -- However many clients there are: a server that is started from a configuration that LoadFromEnv
  -- accepts keeps both its limiters, and after any requests and sweeps each holds at most as many
  -- keys as the configuration says, given that no address is printed as the empty text and that the
  -- runtime, where a limiter ranges over its map, visits all of it.
  pub wired-IsCapped :
      {S : Type 0} (settings : Settings S) (s : S) {state : ServerState S}
      → ((a : Ip) → settings.net.ip_string a ≢ [])
      → Run settings (wired_state cfg s) state
      → IsCapped cfg.rate_limit.max_keys state.create_limiter
        × IsCapped cfg.rate_limit.max_keys state.avail_limiter
  unfolding wired_state create_config avail_config
  wired-IsCapped settings s printed run =
      let positive = (load_from_env-IsConfig p env cfg accepted).limits.max_keys in
      let held =
        Run-AreHeld settings printed (new_memory_limiter (create_config cfg))
          (new_memory_limiter (avail_config cfg))
          (record { create_held = (_, refl, here); avail_held = (_, refl, here) }) run in
      (
        Held-IsCapped (create_config cfg) _ positive held.create_held,
        Held-IsCapped (avail_config cfg) _ positive held.avail_held,
      )
