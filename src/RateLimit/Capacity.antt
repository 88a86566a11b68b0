-- ===== src/RateLimit/Capacity.antt =====
-- internal/ratelimit/memory.go: the number of tracked keys stays under the cap.
use go_clipboard.Base.{
  ℕ, ◌≤◌, ◌<◌, ◌≡◌, ◌≢◌, refl, ◌⊎◌, inl, inr, none, some, Bytes, ==_refl, pos, leb_ℤ, [], ◌∷◌,
  arith, Option-cases, Bool-cases, length, ltb,
}
use go_clipboard.Base.Map.{
  Map, lookup, insert, Visits, Distinct, delete-Distinct, insert-Distinct, lookup-insert_ne,
  lookup-delete, length-insert_absent, length-insert_present, length-delete,
}
use go_clipboard.Clock.{Time, sub}
use go_clipboard.RateLimit.{
  Entry, MemoryConfig, MemoryLimiter, new_memory_limiter, make_room, open_window, allow_found,
  allow,
}
use go_clipboard.RateLimit.Room.{make_room_lem, make_room_idle, victim}

-- What holds of a limiter with a positive cap between two calls. No key is the empty string.
pub record IsBounded (cap : ℕ) (l : MemoryLimiter) : Type 0 where
  pub cap_eq : l.max_keys ≡ pos cap
  pub distinct : Distinct l.keys
  pub nonempty : lookup [] l.keys ≡ none
  pub bounded : length l.keys ≤ cap

-- Writing an entry for a key that is there, or for a new key when there is room.
insert-IsBounded :
    (cap : ℕ) (key : Bytes) (e : Entry) (l : MemoryLimiter)
    → IsBounded cap l
    → key ≢ []
    → (length l.keys < cap) ⊎ ((old : Entry) × (lookup key l.keys ≡ some old))
    → IsBounded cap (record l { keys = insert key e l.keys })
insert-IsBounded cap key e l b named room = record {
  cap_eq = b.cap_eq;
  distinct = insert-Distinct key e l.keys b.distinct;
  nonempty = rw (lookup-insert_ne key [] e l.keys named) b.nonempty;
  bounded = elim (Option-cases (lookup key l.keys)) [
    | inl absent ↦ ground (arith, length-insert_absent key e l.keys absent, b.bounded, room)
    | inr (old, present) ↦ omega (arith, length-insert_present key e old l.keys present, b.bounded)
  ];
}

first_entry : (m : Map Entry) → 1 ≤ length m → (k : Bytes) × (e : Entry) × (lookup k m ≡ some e)
unfolding lookup
first_entry [] h = absurd (omega arith)
first_entry ((k, e) ∷ m) h = (k, e, rw (==_refl k))

make_room-IsBounded :
    (order : Map Entry) (cap : ℕ) (l : MemoryLimiter)
    → Visits order l.keys
    → 1 ≤ cap
    → IsBounded cap l
    → IsBounded cap (make_room order l) × (length (make_room order l).keys < cap)
make_room-IsBounded order cap l visits positive b = elim (Bool-cases (ltb (length l.keys) cap)) [
  | inl room ↦ rw (make_room_idle order l (ground (arith, b.cap_eq, room))) (b, ground arith)
  | inr full ↦
      let (j, other, found) = first_entry l.keys (ground (arith, full, positive)) in
      let (gone, present, older, evicted, smaller) =
        make_room_lem order l cap j other visits b.distinct b.nonempty b.cap_eq positive
          (ground (arith, full)) found in
      (
        rw evicted (record {
          cap_eq = b.cap_eq;
          distinct = delete-Distinct (victim order) l.keys b.distinct;
          nonempty = ground (arith, lookup-delete (victim order) [] l.keys, b.nonempty);
          bounded =
              omega (arith, length-delete (victim order) gone l.keys b.distinct present, b.bounded);
        }),
        omega (arith, smaller, b.bounded),
      )
]

open_window-IsBounded :
    (cap now : ℕ) (key : Bytes) (l : MemoryLimiter)
    → IsBounded cap l
    → key ≢ []
    → (length l.keys < cap) ⊎ ((old : Entry) × (lookup key l.keys ≡ some old))
    → IsBounded cap (open_window now key l).1
unfolding open_window
open_window-IsBounded cap now key l b named room = insert-IsBounded cap key _ l b named room

allow_found-IsBounded :
    (cap now : ℕ) (key : Bytes) (e : Entry) (l : MemoryLimiter)
    → IsBounded cap l
    → key ≢ []
    → lookup key l.keys ≡ some e
    → IsBounded cap (allow_found now key e l).1
unfolding allow_found
allow_found-IsBounded cap now key e l b named found =
    elim (Bool-cases (leb_ℤ l.window (sub now e.window_start))) [
      | inl closed ↦ rw closed (open_window-IsBounded cap now key l b named (inr (e, found)))
      | inr running ↦ rw running (elim (Bool-cases (leb_ℤ l.rate (pos e.count))) [
        | inl full ↦ rw full b
        | inr room ↦ rw room (insert-IsBounded cap key _ l b named (inr (e, found)))
      ])
    ]

-- Every call with a nonempty key keeps the limiter within its cap.
allow-IsBounded :
    (order : Map Entry) (cap now : ℕ) (key : Bytes) (l : MemoryLimiter)
    → Visits order l.keys
    → 1 ≤ cap
    → key ≢ []
    → IsBounded cap l
    → IsBounded cap (allow order now key l).1
unfolding allow
allow-IsBounded order cap now key l visits positive named b =
    elim (Option-cases (lookup key l.keys)) [
      | inl absent ↦
          let (kept, room) = make_room-IsBounded order cap l visits positive b in
          rw (absent, allow)
            (open_window-IsBounded cap now key (make_room order l) kept named (inl room))
      | inr (e, found) ↦ rw (found, allow) (allow_found-IsBounded cap now key e l b named found)
    ]

-- The limiters that calls lead to, whatever the clock shows and however the runtime orders the map.
pub data Reach (start : MemoryLimiter) : MemoryLimiter → Type 0 where
  here : Reach start start
  call :
      {l : MemoryLimiter} (order : Map Entry) (now : Time) (key : Bytes)
      → Reach start l
      → Visits order l.keys
      → key ≢ []
      → Reach start (allow order now key l).1

new_memory_limiter-IsBounded :
    (cfg : MemoryConfig) (cap : ℕ) → cfg.max_keys ≡ pos cap → IsBounded cap (new_memory_limiter cfg)
unfolding new_memory_limiter lookup
new_memory_limiter-IsBounded cfg cap h = record {
  cap_eq = h;
  distinct = tt;
  nonempty = refl;
  bounded = omega arith;
}

Reach-IsBounded :
    {start l : MemoryLimiter} (cap : ℕ)
    → 1 ≤ cap
    → IsBounded cap start
    → Reach start l
    → IsBounded cap l
Reach-IsBounded cap positive b here = b
Reach-IsBounded cap positive b (call order now key r visits named) =
    allow-IsBounded order cap now key _ visits positive named (Reach-IsBounded cap positive b r)

-- A limiter made with a positive cap never tracks more keys than that, and none of them twice,
-- after any calls with nonempty keys, at any clock readings and under any order of the map.
pub keys-bounded :
    {l : MemoryLimiter} (cfg : MemoryConfig) (cap : ℕ)
    → cfg.max_keys ≡ pos cap
    → 1 ≤ cap
    → Reach (new_memory_limiter cfg) l
    → (length l.keys ≤ cap) × Distinct l.keys
keys-bounded cfg cap h positive r =
    let b = Reach-IsBounded cap positive (new_memory_limiter-IsBounded cfg cap h) r in
    (b.bounded, b.distinct)
