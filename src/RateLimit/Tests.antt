-- ===== src/RateLimit/Tests.antt =====
-- Runs of internal/ratelimit and instances of its theorems.
use go_clipboard.Base.{
  ◌+◌, ◌-◌, ◌≤◌, ◌≡◌, ◌≢◌, refl, inl, inr, true, false, some, Bytes, ascii, ◌==◌, ==_iff, List, [],
  ◌∷◌, pos, wrap64, length, arith, min, false≢true,
}
use go_clipboard.Base.Map.{lookup, insert, delete, Visits-self, Distinct}
use go_clipboard.Clock.{second, minute, sub}
use go_clipboard.RateLimit.{Entry, MemoryConfig, MemoryLimiter, make_room, allow_found, allow}
use go_clipboard.RateLimit.Retry.{IsOpen, granted_after_wait}
use go_clipboard.RateLimit.Room.{victim, make_room_lem}
use go_clipboard.RateLimit.Quota.{Call, granted, asked, quota}

program : Unit {0}
unfolding lookup insert delete sub make_room allow allow_found wrap64 ◌==◌ granted asked
program = tt

abbrev cfg : MemoryConfig
cfg = record { rate = pos 2; window = pos minute; max_keys = pos 2 }

abbrev empty : MemoryLimiter
empty = record { rate = pos 2; window = pos minute; max_keys = pos 2; keys = [] }

abbrev alice : Bytes
alice = ascii "192.0.2.1"

abbrev bob : Bytes
bob = ascii "192.0.2.2"

-- Two calls of one key have been granted in this window, and one of another.
abbrev busy : MemoryLimiter
busy = record empty {
  keys =
      (alice, record { count = 2; window_start = 1000 })
      ∷ (bob, record { count = 1; window_start = 2000 })
      ∷ [];
}

third_refused :
    (allow busy.keys 3000 alice busy).0
    ≡ record { allowed = false; retry_after = pos (minute - 2000) }
unfolding program
third_refused = refl

busy-IsOpen : IsOpen 3000 minute alice (record { count = 2; window_start = 1000 }) busy
unfolding program
busy-IsOpen = record {
  window_eq = refl;
  positive = omega arith;
  fits = omega arith;
  found = refl;
  started = omega arith;
  within = omega arith;
}

busy_refused : (allow busy.keys 3000 alice busy).0.allowed ≡ false
unfolding program
busy_refused = refl

named_wait : (allow busy.keys 3000 alice busy).0.retry_after ≡ pos (minute - 2000)
unfolding program
named_wait = refl

granted_after_wait_example :
    (second ≤ minute - 2000)
    × ((allow busy.keys (minute + 1000) alice (allow busy.keys 3000 alice busy).1).0.allowed ≡ true)
granted_after_wait_example =
    granted_after_wait busy.keys 3000 minute alice (record { count = 2; window_start = 1000 }) busy
      busy-IsOpen busy_refused busy.keys (minute - 2000) (minute + 1000) named_wait (omega arith)

alice_ne_bob : alice ≢ bob
unfolding ◌==◌
alice_ne_bob e = false≢true ((==_iff alice bob).1 e)

busy-Distinct : Distinct busy.keys
unfolding program
busy-Distinct = (refl, (refl, tt))

make_room_lem_example :
    (gone : Entry) × (lookup (victim busy.keys) busy.keys ≡ some gone)
    × (gone.window_start ≤ 2000)
    × (make_room busy.keys busy ≡ record busy { keys = delete (victim busy.keys) busy.keys })
    × (length (make_room busy.keys busy).keys + 1 ≡ length busy.keys)
unfolding program
make_room_lem_example =
    make_room_lem busy.keys busy 2 bob (record { count = 1; window_start = 2000 })
      (Visits-self busy.keys busy-Distinct) busy-Distinct refl refl (omega arith) (omega arith) refl

alice_named : alice ≢ []
alice_named e = ground arith

abbrev roomy : MemoryLimiter
roomy = record empty { max_keys = pos 100 }

-- Alice asks three times and Bob once, at a rate of two.
abbrev calls : List Call
calls =
    record { order = []; now = 20; key = alice }
    ∷ record { order = []; now = 30; key = bob }
    ∷ record { order = []; now = 40; key = alice }
    ∷ []

quota_example :
    granted alice (record { order = []; now = 10; key = alice } ∷ calls) roomy
    ≡ min (asked alice calls + 1) 2
unfolding lookup
quota_example =
    quota alice 2 minute (omega arith) (omega arith) [] 10 calls roomy (omega arith) refl refl
      (inl refl) (inr (omega arith)) (omega arith)

two_granted : granted alice (record { order = []; now = 10; key = alice } ∷ calls) roomy ≡ 2
unfolding program
two_granted = refl
