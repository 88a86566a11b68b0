-- ===== src/Command/Lifecycle.antt =====
-- cmd/server/main.go: the goroutine of the sweeper and the end of runServe, as steps that interleave.
-- `limit` is the timeout of waitSweeper in nanoseconds; without one it waits for the goroutine alone.
use go_clipboard.Base.{ℕ, ◌+◌, ◌*◌, ◌<◌, ◌≤◌, ◌≡◌, ◌⊎◌, Bool, true, false}
use go_clipboard.Clock.{second}

-- shutdownTimeout
abbrev pub shutdown_timeout : ℕ
shutdown_timeout = 10 * second

-- Where runServe is: before serveHTTP returns, in the select of waitSweeper, after it, and after the
-- other deferred calls, which close the runner and the pool.
pub data Phase : Type 0 where
  serving waiting waited pool_closed : Phase

-- Where the goroutine is: in the select of Run, in a sweep, or after its return.
pub data Loop : Type 0 where
  selecting sweeping ended : Loop

-- `answered`: the database has replied to the statement of the sweep that runs. `elapsed`: the time, in
-- nanoseconds, since waitSweeper made its timer.
pub record Process : Type 0 where
  pub phase : Phase
  pub loop : Loop
  pub cancelled : Bool
  pub answered : Bool
  pub elapsed : ℕ
  pub timed_out : Bool

abbrev pub started : Process
started = record {
  phase = serving;
  loop = selecting;
  cancelled = false;
  answered = false;
  elapsed = 0;
  timed_out = false;
}

-- A signal cancels the context that the sweeper's is made from, and waitSweeper cancels the sweeper's own.
-- When both cases of its select are ready, the sweeper may take either. A sweep returns when the database
-- has replied, or with an error when its context is cancelled, as pgx documents. The timer fires when
-- the limit has passed, and not before.
pub data Step (limit : ℕ) : Process → Process → Type 0 where
  signal : (p : Process) → p.phase ≡ serving → Step limit p (record p { cancelled = true })
  served :
      (p : Process)
      → p.phase ≡ serving
      → Step limit p (record p { phase = waiting; cancelled = true; elapsed = 0 })
  tick :
      (p : Process)
      → p.loop ≡ selecting
      → Step limit p (record p { loop = sweeping; answered = false })
  reply : (p : Process) → p.loop ≡ sweeping → Step limit p (record p { answered = true })
  swept :
      (p : Process)
      → p.loop ≡ sweeping
      → (p.answered ≡ true) ⊎ (p.cancelled ≡ true)
      → Step limit p (record p { loop = selecting })
  stop :
      (p : Process)
      → p.loop ≡ selecting
      → p.cancelled ≡ true
      → Step limit p (record p { loop = ended })
  sweep_done :
      (p : Process)
      → p.phase ≡ waiting
      → p.loop ≡ ended
      → Step limit p (record p { phase = waited })
  passes :
      (p : Process) (time : ℕ)
      → p.phase ≡ waiting
      → Step limit p (record p { elapsed = p.elapsed + time })
  timer :
      (p : Process)
      → p.phase ≡ waiting
      → 0 < limit
      → limit ≤ p.elapsed
      → Step limit p (record p { phase = waited; timed_out = true })
  close : (p : Process) → p.phase ≡ waited → Step limit p (record p { phase = pool_closed })

pub data Steps (limit : ℕ) : Process → Process → Type 0 where
  here : (p : Process) → Steps limit p p
  next : {p q r : Process} → Steps limit p q → Step limit q r → Steps limit p r

abbrev is_serving : Phase → Bool
is_serving serving = true
is_serving waiting = false
is_serving waited = false
is_serving pool_closed = false

module _ (limit : ℕ) where
  -- Once serveHTTP has returned, the sweeper's context is cancelled.
  IsTold : Process → Type 0
  IsTold p = is_serving p.phase ≡ false → p.cancelled ≡ true

  -- The pool can be closed from here without the timer, without time that passes, and without a reply of
  -- the database to the sweep that runs.
  abbrev pub CanClose : Process → Type 0
  CanClose p =
      (q : Process) × Steps limit p q
      × (q.phase ≡ pool_closed)
      × (q.timed_out ≡ p.timed_out)
      × (q.elapsed ≤ p.elapsed)
      × (q.answered ≡ p.answered)
