-- ===== src/Http/Limiting/Refusals.antt =====
-- internal/httpapi/ratelimit.go: what a refusal says, and what the limiter lets through.
use go_clipboard.Base.{
  ℕ, ◌+◌, ◌*◌, ◌/◌, ◌-◌, ◌≤◌, ◌≡◌, ◌≢◌, refl, ap, subst, sym, ◌∙◌, inl, inr, true, false, List, [],
  ◌∷◌, Option, some, pos, arith, max, length, Bool-cases,
}
use go_clipboard.Base.Map.{Map, Visits, Distinct}
use go_clipboard.Clock.{Time, second}
use go_clipboard.RateLimit.{Entry, MemoryConfig, MemoryLimiter, new_memory_limiter, allow}
use go_clipboard.RateLimit.Retry.{IsOpen, refusal_exact}
use go_clipboard.RateLimit.Capacity.{Reach, here, call, keys-bounded}
use go_clipboard.Http.{Request, Response, Header, retry_after}
use go_clipboard.Http.ClientIp.{Net, ClientIpConfig, Ip, client_ip}
use go_clipboard.Http.ClientIp.Keys.{client_ip-nonempty}
use go_clipboard.Http.Limiting.{retry_seconds, too_many_requests, rate_limit}

retry_seconds_lem : (wait : ℕ) → second ≤ wait → retry_seconds (pos wait) ≡ pos (wait / second)
unfolding retry_seconds
retry_seconds_lem wait h = ground arith

named_seconds :
    (wait seconds : ℕ) (rest : List Header)
    → second ≤ wait
    → (too_many_requests (pos wait)).headers ≡ retry_after (pos seconds) ∷ rest
    → seconds ≡ wait / second
unfolding too_many_requests
named_seconds wait seconds rest h header = ground (arith, retry_seconds_lem wait h, header)

module _ {S : Type 0} (net : Net) (cfg : ClientIpConfig) (next : Request → S → Response × S) where
  pub rate_limit-allowed :
      (order : Map Entry) (now : Time) (r : Request) (l : MemoryLimiter) (s : S)
      → (allow order now (client_ip net r cfg) l).0.allowed ≡ true
      → rate_limit net cfg next order now r (some l) s
        ≡ ((next r s).0, some (allow order now (client_ip net r cfg) l).1, (next r s).1)
  unfolding rate_limit
  rate_limit-allowed order now r l s h = rw (h, rate_limit) refl

  pub rate_limit-refused :
      (order : Map Entry) (now : Time) (r : Request) (l : MemoryLimiter) (s : S)
      → (allow order now (client_ip net r cfg) l).0.allowed ≡ false
      → rate_limit net cfg next order now r (some l) s ≡ (
        too_many_requests (allow order now (client_ip net r cfg) l).0.retry_after,
        some (allow order now (client_ip net r cfg) l).1,
        s,
      )
  unfolding rate_limit
  rate_limit-refused order now r l s h = rw (h, rate_limit) refl

  refused_answer :
      (order order' : Map Entry) (now later window : ℕ) (r : Request) (e : Entry)
      (l : MemoryLimiter) (s : S)
      → IsOpen now window (client_ip net r cfg) e l
      → (allow order now (client_ip net r cfg) l).0.allowed ≡ false
      → rate_limit net cfg next order now r (some l) s
        ≡ (too_many_requests (pos (max (e.window_start + window - now) second)), some l, s)
  refused_answer order order' now later window r e l s h refused =
      let (kept, wait, _) =
        refusal_exact order now window (client_ip net r cfg) e l h refused order' now
          (omega arith) in
      rw (rate_limit-refused order now r l s refused, kept, wait) refl

  -- A client whose window is open and whose request the limiter refuses is answered by 429, the
  -- handler is not called and the limiter is as before. The header Retry-After names at least one
  -- second, and a request of the client that comes at least one second after the time named is
  -- passed to the handler.
  pub retry_after_suffices :
      (order order' : Map Entry) (now later window seconds : ℕ) (r again : Request) (e : Entry)
      (l : MemoryLimiter) (s s' : S) (rest : List Header)
      → IsOpen now window (client_ip net r cfg) e l
      → (allow order now (client_ip net r cfg) l).0.allowed ≡ false
      → client_ip net again cfg ≡ client_ip net r cfg
      → (rate_limit net cfg next order now r (some l) s).0.headers
        ≡ retry_after (pos seconds) ∷ rest
      → now + (seconds + 1) * second ≤ later
      → ((rate_limit net cfg next order now r (some l) s).0.status ≡ 429)
        × ((rate_limit net cfg next order now r (some l) s).1 ≡ some l)
        × ((rate_limit net cfg next order now r (some l) s).2 ≡ s)
        × (1 ≤ seconds)
        × ((rate_limit net cfg next order' later again (some l) s').0 ≡ (next again s').0)
        × ((rate_limit net cfg next order' later again (some l) s').2 ≡ (next again s').1)
  unfolding too_many_requests
  retry_after_suffices order order' now later window seconds r again e l s s' rest h refused same
        header waited =
      let answer = refused_answer order order' now later window r e l s h refused in
      let wait = max (e.window_start + window - now) second in
      let named : seconds ≡ wait / second =
        named_seconds wait seconds rest (omega arith)
          (ap (λ (x : Response × Option MemoryLimiter × S). x.0.headers) (sym answer) ∙ header) in
      let (_, _, exact) =
        refusal_exact order now window (client_ip net r cfg) e l h refused order' later
          (omega (arith, waited)) in
      let passes : (allow order' later (client_ip net again cfg) l).0.allowed ≡ true =
        rw (same, exact) (ground (arith, named, waited)) in
      let passed = rate_limit-allowed order' later again l s' passes in
      (
        ap (λ (x : Response × Option MemoryLimiter × S). x.0.status) answer,
        ap (λ (x : Response × Option MemoryLimiter × S). x.1) answer,
        ap (λ (x : Response × Option MemoryLimiter × S). x.2) answer,
        omega (arith, named),
        ap (λ (x : Response × Option MemoryLimiter × S). x.0) passed,
        ap (λ (x : Response × Option MemoryLimiter × S). x.2) passed,
      )

  -- Whether or not a request is refused, the limiter has seen one call, with the client's key.
  pub rate_limit-limiter :
      (order : Map Entry) (now : Time) (r : Request) (l : MemoryLimiter) (s : S)
      → (rate_limit net cfg next order now r (some l) s).1
        ≡ some (allow order now (client_ip net r cfg) l).1
  rate_limit-limiter order now r l s =
      elim (Bool-cases (allow order now (client_ip net r cfg) l).0.allowed) [
        | inl allowed ↦
            ap (λ (x : Response × Option MemoryLimiter × S). x.1)
              (rate_limit-allowed order now r l s allowed)
        | inr refused ↦
            ap (λ (x : Response × Option MemoryLimiter × S). x.1)
              (rate_limit-refused order now r l s refused)
      ]

  -- The limiters that requests lead to, in whatever state of the handler.
  pub data Served (start : MemoryLimiter) : MemoryLimiter → Type 0 where
    begin : Served start start
    serve :
        {l l' : MemoryLimiter} (order : Map Entry) (now : Time) (r : Request) (s : S)
        → Served start l
        → Visits order l.keys
        → (rate_limit net cfg next order now r (some l) s).1 ≡ some l'
        → Served start l'

  Served→Reach :
      {start l : MemoryLimiter} → ((a : Ip) → net.ip_string a ≢ []) → Served start l → Reach start l
  Served→Reach printed begin = here
  Served→Reach {start} printed (serve {l = l} order now r s before visits after) =
      subst (Reach start) (ground (arith, after, rate_limit-limiter order now r l s)) (
        call order now (client_ip net r cfg) (Served→Reach printed before) visits
          (client_ip-nonempty net r cfg printed))

  -- Requests cannot make a limiter track more keys than its cap, whatever their addresses and
  -- headers hold, given that no address is printed as the empty text.
  pub Served-bounded :
      {l : MemoryLimiter} (config : MemoryConfig) (cap : ℕ)
      → config.max_keys ≡ pos cap
      → 1 ≤ cap
      → ((a : Ip) → net.ip_string a ≢ [])
      → Served (new_memory_limiter config) l
      → (length l.keys ≤ cap) × Distinct l.keys
  Served-bounded config cap cap_eq positive printed served =
      keys-bounded config cap cap_eq positive (Served→Reach printed served)
