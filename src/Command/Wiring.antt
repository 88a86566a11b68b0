-- ===== src/Command/Wiring.antt =====
-- cmd/server/main.go: the limiters and the server that runServe makes of the configuration.
use go_clipboard.Base.{Bytes, ◌==◌, [], ℕ, none, some, if◌then◌else◌}
use go_clipboard.Config.{Config}
use go_clipboard.Clips.Store.{Store}
use go_clipboard.RateLimit.{MemoryConfig, new_memory_limiter}
use go_clipboard.Http.{Request, Response}
use go_clipboard.Http.ClientIp.{Net}
use go_clipboard.Http.Clips.{Decoded}
use go_clipboard.Http.Server.{ServerState}
use go_clipboard.Http.App.{Settings}

unfoldable pub create_config : Config → MemoryConfig
create_config cfg = record {
  rate = cfg.rate_limit.create_rate;
  window = cfg.rate_limit.create_window;
  max_keys = cfg.rate_limit.max_keys;
}

unfoldable pub avail_config : Config → MemoryConfig
avail_config cfg = record {
  rate = cfg.rate_limit.avail_rate;
  window = cfg.rate_limit.avail_window;
  max_keys = cfg.rate_limit.max_keys;
}

-- The state in which a server begins, over a store in the state `s`.
unfoldable pub wired_state : {S : Type 0} → Config → S → ServerState S
unfolding create_config avail_config
wired_state cfg s = record {
  create_limiter = some (new_memory_limiter (create_config cfg));
  avail_limiter = some (new_memory_limiter (avail_config cfg));
  store = s;
}

-- The server's settings; `frontend` serves the embedded files, which are there if there is a public base
-- URL.
unfoldable pub wired_settings :
    {S : Type 0}
    → Config
    → Net
    → Store S
    → (ℕ → Bytes → Decoded)
    → (Request → Response)
    → (Request → Response)
    → Settings S
wired_settings cfg net st decode frontend redirect = record {
  net = net;
  client_ip = record { trusted_proxy = cfg.trusted_proxy; ipv6_prefix = cfg.ipv6_prefix };
  store = st;
  decode = decode;
  files = if cfg.public_base_url == [] then none else some frontend;
  redirect = redirect;
  hostname = cfg.tls_hostname;
}
