-- ===== src/RateLimit.antt =====
-- internal/ratelimit/memory.go: the fixed-window limiter in process memory.
-- A call holds the mutex from start to end, so calls happen one after the other: each is a function
-- from the limiter to a decision and the new limiter. The clock reading and the order in which the
-- runtime ranges over the map are arguments of the call.
pub mod Retry
pub mod Room
pub mod Capacity
pub mod Quota
mod Tests
use go_clipboard.Base.{
  ℕ, ◌+◌, Bool, true, false, ◌||◌, List, [], ◌∷◌, Option, none, some, Bytes, ◌==◌, ℤ, pos, ◌-ℤ◌,
  leb_ℤ, ltb_ℤ, wrap64, length, if◌then◌else◌,
}
use go_clipboard.Base.Map.{Map, lookup, insert, delete}
use go_clipboard.Clock.{Time, Duration, second, sub, before}

pub record Decision : Type 0 where
  pub allowed : Bool
  pub retry_after : Duration

-- `count` is incremented only while it is less than an int, so it never wraps around.
pub record Entry : Type 0 where
  pub count : ℕ
  pub window_start : Time

pub record MemoryConfig : Type 0 where
  pub rate : ℤ
  pub window : Duration
  pub max_keys : ℤ

pub record MemoryLimiter : Type 0 where
  pub rate : ℤ
  pub window : Duration
  pub max_keys : ℤ
  pub keys : Map Entry

unfoldable pub new_memory_limiter : MemoryConfig → MemoryLimiter
new_memory_limiter cfg = record {
  rate = cfg.rate;
  window = cfg.window;
  max_keys = cfg.max_keys;
  keys = [];
}

-- The variables of the loop in `makeRoom`.
pub record Oldest : Type 0 where
  pub oldest_key : Bytes
  pub oldest_start : Time
  pub first : Bool

-- The body of that loop: if first || e.windowStart.Before(oldestStart) { … }
unfoldable pub note_entry : Bytes → Entry → Oldest → Oldest
note_entry k e o =
    if o.first || before e.window_start o.oldest_start
    then record { oldest_key = k; oldest_start = e.window_start; first = false }
    else o

unfoldable pub find_oldest : Map Entry → Oldest → Oldest
unfolding note_entry
find_oldest [] o = o
find_oldest ((k, e) ∷ rest) o = find_oldest rest (note_entry k e o)

abbrev pub no_oldest : Oldest
no_oldest = record { oldest_key = []; oldest_start = 0; first = true }

-- `order` is what the loop's `range l.keys` visits.
unfoldable pub make_room : Map Entry → MemoryLimiter → MemoryLimiter
make_room order l =
    if leb_ℤ l.max_keys (pos 0) || ltb_ℤ (pos (length l.keys)) l.max_keys
    then l
    else (let o = find_oldest order no_oldest in
        if o.oldest_key == [] then l else record l { keys = delete o.oldest_key l.keys })

-- l.keys[key] = entry{count: 1, windowStart: now}; return Decision{Allowed: true}
unfoldable pub open_window : Time → Bytes → MemoryLimiter → Decision × MemoryLimiter
open_window now key l = (
  record { allowed = true; retry_after = pos 0 },
  record l { keys = insert key (record { count = 1; window_start = now }) l.keys },
)

-- What is left of the window, and at least a second.
unfoldable pub remaining : Time → Entry → MemoryLimiter → Duration
remaining now e l =
    let left = wrap64 (l.window -ℤ sub now e.window_start) in
    if ltb_ℤ left (pos second) then pos second else left

-- The branches of `Allow` once the key has been looked up.
unfoldable pub allow_found : Time → Bytes → Entry → MemoryLimiter → Decision × MemoryLimiter
unfolding open_window remaining
allow_found now key e l =
    if leb_ℤ l.window (sub now e.window_start)
    then open_window now key l
    else if leb_ℤ l.rate (pos e.count)
    then (record { allowed = false; retry_after = remaining now e l }, l)
    else (
      record { allowed = true; retry_after = pos 0 },
      record l { keys = insert key (record e { count = e.count + 1 }) l.keys },
    )

unfoldable pub allow : Map Entry → Time → Bytes → MemoryLimiter → Decision × MemoryLimiter
unfolding open_window
allow order now key l = elim (lookup key l.keys) [
  | none ↦ open_window now key (make_room order l)
  | some e ↦ allow_found now key e l
]
