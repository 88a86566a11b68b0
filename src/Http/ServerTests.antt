-- ===== src/Http/ServerTests.antt =====
-- Runs of internal/httpapi/server.go and instances of its theorems.
use go_clipboard.Base.{ℕ, ◌≡◌, refl, none, some, Bytes, ascii, ◌==◌, [], ◌∷◌, ◌++◌, pos, arith}
use go_clipboard.Base.Map.{Map, lookup, insert, Visits-self, Distinct}
use go_clipboard.Clock.{minute, sub}
use go_clipboard.Clips.Store.{Store}
use go_clipboard.Clips.Fake.{StoredClip}
use go_clipboard.Clips.Fake.Contract.{live_clip, fake_store, fake-IsStore}
use go_clipboard.RateLimit.{MemoryLimiter, allow, allow_found}
use go_clipboard.Http.{Request}
use go_clipboard.Http.ClientIp.{
  Net, ClientIpConfig, client_ip, chosen_ip, bucket_ip, is_trusted_hop,
}
use go_clipboard.Http.Clips.{Decoded, malformed, create_clip}
use go_clipboard.Http.Health.{HealthDependencies}
use go_clipboard.Http.Limiting.{rate_limit, too_many_requests}
use go_clipboard.Http.Server.{
  create, ServerState, serve, health_routes, clip_routes, allowed_at, allow_routes, append_method,
}
use go_clipboard.Http.Server.Stores.{serve_unchanged}

program : Unit {0}
unfolding sub lookup insert ◌==◌ allow allow_found client_ip chosen_ip bucket_ip is_trusted_hop
    rate_limit too_many_requests serve allow_routes append_method create_clip
program = tt

slug_allows :
    allowed_at (ascii "/api/clips/{slug}") (allow_routes (health_routes ++ clip_routes) [])
    ≡ ascii "GET" ∷ ascii "HEAD" ∷ []
unfolding program
slug_allows = refl

abbrev memory : Store (Map StoredClip)
memory = fake_store (λ m. m)

-- No address can be read, so every client is the unknown one.
abbrev net : Net
net = record {
  split_host_port = λ s. none;
  parse_ip = λ s. none;
  ip_string = λ ip. [];
  trim_space = λ s. s;
  itoa = λ n. [];
  equal_fold = λ s t. s == t;
}

abbrev config : ClientIpConfig
config = record { trusted_proxy = []; ipv6_prefix = pos 64 }

abbrev decode : ℕ → Bytes → Decoded
decode limit body = malformed

abbrev deps : HealthDependencies
deps = record { pool = none; migrations = none; server_time = none }

abbrev posted : Request
posted = record {
  method = [];
  path = [];
  escaped = [];
  segments = [];
  remote_addr = [];
  host = [];
  forwarded_for = [];
  body = ascii "{";
}

-- The unknown client has used up its window.
abbrev limiter : MemoryLimiter
limiter = record {
  rate = pos 1;
  window = pos minute;
  max_keys = pos 10;
  keys = (ascii "unknown", record { count = 1; window_start = 100 }) ∷ [];
}

abbrev state : ServerState (Map StoredClip)
state = record { create_limiter = some limiter; avail_limiter = none; store = [] }

posts_refused :
    (serve net config memory decode deps create limiter.keys 200 200 200 [] posted state).0.status
    ≡ 429
unfolding program
posts_refused = refl

nothing-Distinct : Distinct {V = StoredClip} []
unfolding program
nothing-Distinct = tt

serve_unchanged_example :
    (serve net config memory decode deps create limiter.keys 200 200 200 [] posted state).1.store
    ≡ []
serve_unchanged_example =
    serve_unchanged memory Distinct (λ now slug m. live_clip now (lookup slug m)) (λ t. t)
      (fake-IsStore (λ m. m) Visits-self) net config decode deps create limiter.keys 200 200 200 []
      posted state nothing-Distinct (λ h. ground (arith, h, posts_refused))
