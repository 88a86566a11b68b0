-- ===== src/Database.antt =====
-- internal/database/database.go: the probes of the pool, and the server's clock as cmd/server reads it.
use go_clipboard.Base.{
  Bool, true, false, Option, none, some, pos, Result, ok, err, String, if◌then◌else◌,
}
use go_clipboard.Clock.{Time, Duration}
use go_clipboard.Db.{Timestamptz, QueryError, no_rows, failed}

-- The error of NewPool: that of pgxpool.New, which it wraps.
pub data PoolError : Type 0 where
  create_pool : String → PoolError

-- NewPool, by whether pgxpool.New fails.
abbrev pub new_pool : Option String → Option PoolError
new_pool none = none
new_pool (some e) = some (create_pool e)

pub data ProbeError : Type 0 where
  not_configured : ProbeError
  ping_failed : String → ProbeError

pub record ProbeResult : Type 0 where
  pub reachable : Bool
  pub latency : Duration
  pub error : Option ProbeError

-- A call of Ping: its error, that of the deadline included, and how long it takes.
pub record Ping : Type 0 where
  pub error : Option String
  pub latency : Duration

unfoldable pub pinged : Duration → Option String → ProbeResult
pinged latency none = record { reachable = true; latency = latency; error = none }
pinged latency (some e) = record {
  reachable = false;
  latency = latency;
  error = some (ping_failed e);
}

-- `none` is a nil pool.
unfoldable pub probe : Option Ping → ProbeResult
unfolding pinged
probe none = record { reachable = false; latency = pos 0; error = some not_configured }
probe (some ping) = pinged ping.latency ping.error

pub data Log : Type 0 where
  connectivity_check_failed : String → Log
  connectivity_verified : Log

unfoldable pub verify_connectivity : Option String → Log
verify_connectivity (some e) = connectivity_check_failed e
verify_connectivity none = connectivity_verified

-- querierClock.ServerTime, from what the query returns.
unfoldable pub server_time : Result QueryError Timestamptz → Result String Time
server_time (err no_rows) = err "no rows in result set"
server_time (err (failed e)) = err e
server_time (ok ts) = if ts.valid then ok ts.time else err "server time unavailable"
