-- ===== src/Http/Limiting.antt =====
-- internal/httpapi/ratelimit.go: the handlers that a limiter guards.
-- `next` is the wrapped handler, over states `S`. The limiter is `none` if it is nil.
pub mod Refusals
use go_clipboard.Base.{
  ℕ, ◌+◌, ◌/◌, ◌-◌, Bool, true, false, not, List, [], ◌∷◌, Option, none, some, ℤ, pos, negsuc,
  ltb_ℤ, if◌then◌else◌, eqb,
}
use go_clipboard.Base.Map.{Map}
use go_clipboard.Clock.{Time, Duration, second}
use go_clipboard.RateLimit.{Entry, MemoryLimiter, allow}
use go_clipboard.Http.{Request, Response, retry_after, write_error}
use go_clipboard.Http.ClientIp.{Net, ClientIpConfig, client_ip}

-- int(d.Seconds()): the whole seconds, truncated towards zero. Up to 2^23 seconds, which is 97 days,
-- float64 keeps every duration below the next whole second.
unfoldable pub whole_seconds : Duration → ℤ
whole_seconds (pos n) = pos (n / second)
whole_seconds (negsuc n) = if eqb ((n + 1) / second) 0 then pos 0 else negsuc ((n + 1) / second - 1)

unfoldable pub retry_seconds : Duration → ℤ
unfolding whole_seconds
retry_seconds d = if ltb_ℤ (whole_seconds d) (pos 1) then pos 1 else whole_seconds d

-- The answer to a request that is refused: `Retry-After` is set before the error is written.
unfoldable pub too_many_requests : Duration → Response
unfolding retry_seconds write_error
too_many_requests d =
    let resp = write_error 429 "rate_limited" "too many requests" in
    record resp { headers = retry_after (retry_seconds d) ∷ resp.headers }

module _ {S : Type 0} (net : Net) (cfg : ClientIpConfig) (next : Request → S → Response × S) where
  unfoldable pub rate_limit :
      Map Entry → Time → Request → Option MemoryLimiter → S → Response × Option MemoryLimiter × S
  unfolding too_many_requests
  rate_limit order now r none s = let (resp, s') = next r s in (resp, none, s')
  rate_limit order now r (some limiter) s =
      let (decision, limiter') = allow order now (client_ip net r cfg) limiter in
      if not decision.allowed
      then (too_many_requests decision.retry_after, some limiter', s)
      else (let (resp, s') = next r s in (resp, some limiter', s'))
