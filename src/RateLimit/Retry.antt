-- ===== src/RateLimit/Retry.antt =====
-- internal/ratelimit/memory.go: what a refusal promises about the next attempt.
use go_clipboard.Base.{
  ℕ, ◌+◌, ◌-◌, ◌≤◌, ◌<◌, ◌≡◌, refl, inl, inr, true, false, some, Bytes, pos, ◌-ℤ◌, leb_ℤ, leb,
  leb→le, ap, wrap64, wrap64_lem, max_int64, if◌then◌else◌, arith, Bool-cases, max,
}
use go_clipboard.Base.Map.{Map, lookup, insert}
use go_clipboard.Clock.{second, sub, sub-ge_iff, sub_exact}
use go_clipboard.RateLimit.{
  Entry, Decision, MemoryLimiter, remaining, allow_found, open_window, allow,
}

-- A call on a key whose window is open, at a clock reading that is not before its start.
pub record IsOpen (now window : ℕ) (key : Bytes) (e : Entry) (l : MemoryLimiter) : Type 0 where
  pub window_eq : l.window ≡ pos window
  pub positive : 0 < window
  pub fits : window ≤ max_int64
  pub found : lookup key l.keys ≡ some e
  pub started : e.window_start ≤ now
  pub within : now < e.window_start + window

sub_pos : (w d : ℕ) → d < w → pos w -ℤ pos d ≡ pos (w - d)
sub_pos w d h = ground arith

module _ {now window : ℕ} {key : Bytes} {e : Entry} {l : MemoryLimiter} where
  pub remaining-IsOpen :
      IsOpen now window key e l
      → remaining now e l ≡ pos (max (e.window_start + window - now) second)
  unfolding remaining
  remaining-IsOpen h =
      let gone = now - e.window_start in
      let d : sub now e.window_start ≡ pos gone = sub_exact _ _ h.started (omega arith) in
      let exact : wrap64 (pos window -ℤ pos gone) ≡ pos (window - gone) =
        rw (sub_pos window gone (omega arith)) (wrap64_lem (pos (window - gone)) (omega arith)) in
      rw (h.window_eq, d, exact) (ground arith)

  pub window_open : IsOpen now window key e l → leb_ℤ l.window (sub now e.window_start) ≡ false
  window_open h =
      let gone = now - e.window_start in
      let d : sub now e.window_start ≡ pos gone = sub_exact _ _ h.started (omega arith) in
      rw (h.window_eq, d) (ground arith)

  -- While the window of a key is open, a call is refused exactly when the count has reached the rate.
  pub allow-IsOpen :
      (order : Map Entry)
      → IsOpen now window key e l
      → allow order now key l ≡ (
          if leb_ℤ l.rate (pos e.count)
          then (
            record {
              allowed = false;
              retry_after = pos (max (e.window_start + window - now) second);
            },
            l,
          )
          else (
            record { allowed = true; retry_after = pos 0 },
            record l { keys = insert key (record e { count = e.count + 1 }) l.keys },
          ))
  unfolding allow allow_found
  allow-IsOpen order h = rw (h.found, allow) (rw (window_open h, remaining-IsOpen h))

IsOpen-later :
    {now window : ℕ} {key : Bytes} {e : Entry} {l : MemoryLimiter}
    → IsOpen now window key e l
    → (later : ℕ) → e.window_start ≤ later
    → later < e.window_start + window
    → IsOpen later window key e l
IsOpen-later h later from until = record {
  window_eq = h.window_eq;
  positive = h.positive;
  fits = h.fits;
  found = h.found;
  started = from;
  within = until;
}

-- Once the window has gone by, a call is granted and opens a new window.
pub allow_expired :
    (order : Map Entry) (now window : ℕ) (key : Bytes) (e : Entry) (l : MemoryLimiter)
    → l.window ≡ pos window
    → 0 < window
    → window ≤ max_int64
    → lookup key l.keys ≡ some e
    → e.window_start + window ≤ now
    → allow order now key l ≡ open_window now key l
unfolding allow allow_found
allow_expired order now window key e l w p fits found gone =
    rw (found, allow) (rw (w, (sub-ge_iff now e.window_start window p fits).1 gone))

module _ (order : Map Entry) (now window : ℕ) (key : Bytes) (e : Entry) (l : MemoryLimiter)
    (h : IsOpen now window key e l) (refused : (allow order now key l).0.allowed ≡ false) where
  full_of_refused : leb_ℤ l.rate (pos e.count) ≡ true
  full_of_refused = elim (Bool-cases (leb_ℤ l.rate (pos e.count))) [
    | inl full ↦ full
    | inr room ↦ absurd (ground (arith, refused, allow-IsOpen order h, room))
  ]

  refusal_lem : allow order now key l ≡ (
    record { allowed = false; retry_after = pos (max (e.window_start + window - now) second) },
    l,
  )
  refusal_lem = rw (allow-IsOpen order h, full_of_refused) refl

  granted :
      (order' : Map Entry) (later : ℕ)
      → e.window_start + window ≤ later
      → (allow order' later key l).0.allowed ≡ true
  unfolding open_window
  granted order' later closed =
      rw (allow_expired order' later window key e l h.window_eq h.positive h.fits h.found closed)
        refl

  -- A refusal changes nothing; the wait that it names is the rest of the window, but at least a
  -- second; and a later call is granted exactly when the window has closed by then.
  pub refusal_exact :
      (order' : Map Entry) (later : ℕ)
      → now ≤ later
      → ((allow order now key l).1 ≡ l)
        × ((allow order now key l).0.retry_after ≡ pos (max (e.window_start + window - now) second))
        × ((allow order' later key l).0.allowed ≡ leb (e.window_start + window) later)
  refusal_exact order' later after = (
    ap (λ (x : Decision × MemoryLimiter). x.1) refusal_lem,
    ap (λ (x : Decision × MemoryLimiter). x.0.retry_after) refusal_lem,
    elim (Bool-cases (leb (e.window_start + window) later)) [
      | inl closed ↦ rw closed (granted order' later (leb→le _ _ closed))
      | inr running ↦ rw (
        allow-IsOpen order' (IsOpen-later h later (omega (arith, h.started)) (ground arith)),
        running,
        full_of_refused,
      )
    ],
  )

  -- Whoever waits as long as a refusal says is granted the next call.
  pub granted_after_wait :
      (order' : Map Entry) (wait later : ℕ)
      → (allow order now key l).0.retry_after ≡ pos wait
      → now + wait ≤ later
      → (second ≤ wait) × ((allow order' later key (allow order now key l).1).0.allowed ≡ true)
  granted_after_wait order' wait later named waited =
      let (same, wait_eq, at_later) = refusal_exact order' later (omega arith) in
      let exact : max (e.window_start + window - now) second ≡ wait =
        ground (arith, wait_eq, named) in
      (omega (arith, exact), rw same (granted order' later (omega (arith, exact, h.within))))
