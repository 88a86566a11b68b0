-- ===== src/RateLimit/Quota.antt =====
-- internal/ratelimit/memory.go: how many calls of a key are granted within one window.
use go_clipboard.Base.{
  ℕ, ◌+◌, ◌-◌, ◌≤◌, ◌<◌, ◌≡◌, ◌≢◌, refl, ◌∙◌, ◌⊎◌, inl, inr, ◌&&◌, none, some, Bytes, ◌==◌, ==_iff,
  ==_refl, pos, leb_ℤ, List, [], ◌∷◌, if◌then◌else◌, arith, Option-cases, Bool-cases, length, ◌≤ℤ◌,
  All, min, max_int64, suc,
}
use go_clipboard.Base.Map.{
  Map, lookup, insert, lookup-insert_ne, lookup-insert_self, length-insert_absent,
  length-insert_present,
}
use go_clipboard.Clock.{Time, sub}
use go_clipboard.RateLimit.{Entry, MemoryLimiter, make_room, open_window, allow_found, allow}
use go_clipboard.RateLimit.Room.{make_room_idle}
use go_clipboard.RateLimit.Retry.{IsOpen, allow-IsOpen, allow_expired}

-- One call of `Allow`: the map's order, the clock and the key.
pub record Call : Type 0 where
  pub order : Map Entry
  pub now : Time
  pub key : Bytes

-- How many of the calls with the key `k` are granted, the calls made one after the other.
unfoldable pub granted : Bytes → List Call → MemoryLimiter → ℕ
granted k [] l = 0
granted k (c ∷ calls) l =
    let (d, l') = allow c.order c.now c.key l in
    (if c.key == k && d.allowed then 1 else 0) + granted k calls l'

unfoldable pub asked : Bytes → List Call → ℕ
asked k [] = 0
asked k (c ∷ calls) = (if c.key == k then 1 else 0) + asked k calls

-- `n` more keys fit, so that nothing is evicted to make room for them.
abbrev pub HasRoom : ℕ → MemoryLimiter → Type 0
HasRoom n l = (l.max_keys ≤ℤ pos 0) ⊎ (pos (length l.keys + n) ≤ℤ l.max_keys)

make_room-HasRoom :
    (order : Map Entry) (n : ℕ) (l : MemoryLimiter) → HasRoom (suc n) l → make_room order l ≡ l
make_room-HasRoom order n l h = make_room_idle order l (ground arith)

-- The settings stay, and so do the entries of other keys.
record Keeps (key : Bytes) (l l' : MemoryLimiter) : Type 0 where
  rate : l'.rate ≡ l.rate
  window : l'.window ≡ l.window
  max_keys : l'.max_keys ≡ l.max_keys
  others : (j : Bytes) → key ≢ j → lookup j l'.keys ≡ lookup j l.keys
  size : length l'.keys ≤ length l.keys + 1

insert-Keeps :
    (key : Bytes) (e : Entry) (l : MemoryLimiter)
    → Keeps key l (record l { keys = insert key e l.keys })
insert-Keeps key e l = record {
  rate = refl;
  window = refl;
  max_keys = refl;
  others = λ j ne. lookup-insert_ne key j e l.keys ne;
  size = elim (Option-cases (lookup key l.keys)) [
    | inl absent ↦ omega (arith, length-insert_absent key e l.keys absent)
    | inr (old, present) ↦ omega (arith, length-insert_present key e old l.keys present)
  ];
}

Keeps-refl : (key : Bytes) (l : MemoryLimiter) → Keeps key l l
Keeps-refl key l = record {
  rate = refl;
  window = refl;
  max_keys = refl;
  others = λ j ne. refl;
  size = omega arith;
}

allow_found-Keeps :
    (now : ℕ) (key : Bytes) (e : Entry) (l : MemoryLimiter)
    → Keeps key l (allow_found now key e l).1
unfolding allow_found open_window
allow_found-Keeps now key e l = elim (Bool-cases (leb_ℤ l.window (sub now e.window_start))) [
  | inl closed ↦ rw closed (insert-Keeps key _ l)
  | inr running ↦ rw running (elim (Bool-cases (leb_ℤ l.rate (pos e.count))) [
    | inl full ↦ rw full (Keeps-refl key l)
    | inr room ↦ rw room (insert-Keeps key _ l)
  ])
]

allow-Keeps :
    (order : Map Entry) (now n : ℕ) (key : Bytes) (l : MemoryLimiter)
    → HasRoom (suc n) l
    → Keeps key l (allow order now key l).1
unfolding allow open_window
allow-Keeps order now n key l h = elim (Option-cases (lookup key l.keys)) [
  | inl absent ↦ rw (absent, allow) (rw (make_room-HasRoom order n l h) (insert-Keeps key _ l))
  | inr (e, found) ↦ rw (found, allow) (allow_found-Keeps now key e l)
]

allow-HasRoom :
    (order : Map Entry) (now n : ℕ) (key : Bytes) (l : MemoryLimiter)
    → HasRoom (suc n) l
    → HasRoom n (allow order now key l).1
allow-HasRoom order now n key l h =
    let k = allow-Keeps order now n key l h in rw (k.max_keys) (ground (arith, k.size, h))

-- While there is room, a call of one key leaves every other key its entry: clients do not use up one another's quota.
pub allow-isolated :
    (order : Map Entry) (now : ℕ) (key j : Bytes) (l : MemoryLimiter)
    → HasRoom 1 l
    → key ≢ j
    → lookup j (allow order now key l).1.keys ≡ lookup j l.keys
allow-isolated order now key j l h ne = (allow-Keeps order now 0 key l h).others j ne

-- Every call is made while a window that began at `start` is open.
abbrev pub Within : ℕ → ℕ → List Call → Type 0
Within start window calls = All (λ c. (start ≤ c.now) × (c.now < start + window)) calls

-- A limiter with room for `n` more keys that holds the entry `e` for `k`.
record Tracked (k : Bytes) (e : Entry) (r window n : ℕ) (l : MemoryLimiter) : Type 0 where
  rate : l.rate ≡ pos r
  window_eq : l.window ≡ pos window
  found : lookup k l.keys ≡ some e
  room : HasRoom n l

Tracked-other :
    {k : Bytes} {e : Entry} {r window n : ℕ} {l : MemoryLimiter} (order : Map Entry) (now : ℕ)
    (key : Bytes)
    → Tracked k e r window (suc n) l
    → key ≢ k
    → Tracked k e r window n (allow order now key l).1
Tracked-other {k} {n} {l} order now key t ne =
    let kept = allow-Keeps order now n key l t.room in
    record {
      rate = kept.rate ∙ t.rate;
      window_eq = kept.window ∙ t.window_eq;
      found = kept.others k ne ∙ t.found;
      room = allow-HasRoom order now n key l t.room;
    }

Tracked-full :
    {k : Bytes} {e : Entry} {r window n : ℕ} {l : MemoryLimiter}
    → Tracked k e r window (suc n) l
    → Tracked k e r window n l
Tracked-full t = record {
  rate = t.rate;
  window_eq = t.window_eq;
  found = t.found;
  room = ground (arith, t.room);
}

Tracked-counted :
    {k : Bytes} {e : Entry} {r window n : ℕ} {l : MemoryLimiter}
    → Tracked k e r window (suc n) l
    → Tracked k
        (record e { count = e.count + 1 })
        r
        window
        n
        (record l { keys = insert k (record e { count = e.count + 1 }) l.keys })
Tracked-counted {k} {e} {l} t = record {
  rate = t.rate;
  window_eq = t.window_eq;
  found = lookup-insert_self k _ l.keys;
  room =
      ground (
        arith,
        t.room,
        length-insert_present k (record e { count = e.count + 1 }) e l.keys t.found,
      );
}

Tracked-IsOpen :
    {k : Bytes} {e : Entry} {r window n : ℕ} {l : MemoryLimiter} (now : ℕ)
    → 0 < window
    → window ≤ max_int64
    → Tracked k e r window n l
    → e.window_start ≤ now
    → now < e.window_start + window
    → IsOpen now window k e l
Tracked-IsOpen now positive fits t from until = record {
  window_eq = t.window_eq;
  positive = positive;
  fits = fits;
  found = t.found;
  started = from;
  within = until;
}

module _ (k : Bytes) (r window : ℕ) (positive : 0 < window) (fits : window ≤ max_int64) where
  granted-Tracked :
      (calls : List Call) (e : Entry) (l : MemoryLimiter)
      → Tracked k e r window (length calls) l
      → Within e.window_start window calls
      → granted k calls l ≡ min (asked k calls) (r - e.count)
  unfolding granted asked
  granted-Tracked [] e l t w = omega arith
  granted-Tracked (c ∷ calls) e l t w = elim (Bool-cases (c.key == k)) [
    | inl same ↦
        let is_k : c.key ≡ k = (==_iff c.key k).0 same in
        let opened = Tracked-IsOpen c.now positive fits t w.0.0 w.0.1 in
        elim (Bool-cases (leb_ℤ l.rate (pos e.count))) [
          | inl full ↦
              rw (is_k, ==_refl, allow-IsOpen c.order opened, full)
                (omega (
                  arith,
                  granted-Tracked calls e l (Tracked-full t) w.1,
                  let reached : r ≤ e.count = ground (arith, t.rate, full) in reached,
                ))
          | inr room ↦
              rw (is_k, ==_refl, allow-IsOpen c.order opened, room)
                (omega (
                  arith,
                  granted-Tracked calls (record e { count = e.count + 1 }) _ (Tracked-counted t)
                      w.1,
                  let below : e.count < r = ground (arith, t.rate, room) in below,
                ))
        ]
    | inr other ↦ rw other (
        omega (
          arith,
          granted-Tracked calls e (allow c.order c.now c.key l).1
              (Tracked-other c.order c.now c.key t (λ eq. ground (arith, (==_iff c.key k).1 eq)))
              w.1,
        ))
  ]

  -- The key has no open window at `start`.
  abbrev pub NoWindow : ℕ → MemoryLimiter → Type 0
  NoWindow start l =
      (lookup k l.keys ≡ none)
      ⊎ ((old : Entry) × (lookup k l.keys ≡ some old) × (old.window_start + window ≤ start))

  allow-NoWindow :
      (order : Map Entry) (start n : ℕ) (l : MemoryLimiter)
      → l.window ≡ pos window
      → HasRoom (suc n) l
      → NoWindow start l
      → allow order start k l ≡ open_window start k l
  unfolding allow
  allow-NoWindow order start n l window_eq room (inl absent) =
      rw (absent, allow) (rw (make_room-HasRoom order n l room) refl)
  allow-NoWindow order start n l window_eq room (inr (old, found, gone)) =
      allow_expired order start window k old l window_eq positive fits found gone

  opened-Tracked :
      (start n : ℕ) (l : MemoryLimiter)
      → l.rate ≡ pos r
      → l.window ≡ pos window
      → HasRoom (suc n) l
      → Tracked k
          (record { count = 1; window_start = start })
          r
          window
          n
          (record l { keys = insert k (record { count = 1; window_start = start }) l.keys })
  opened-Tracked start n l rate window_eq room = record {
    rate = rate;
    window_eq = window_eq;
    found = lookup-insert_self k _ l.keys;
    room =
        ground (arith, room, (insert-Keeps k (record { count = 1; window_start = start }) l).size);
  }

  -- The quota of a window. A key that has no open window asks at time `start`, and then asks again
  -- among calls of other keys, all of them before the window that its first call opens has closed.
  -- While there is room for all the keys, exactly the first `r` calls of the key are granted.
  pub quota :
      (order : Map Entry) (start : ℕ) (calls : List Call) (l : MemoryLimiter)
      → 1 ≤ r
      → l.rate ≡ pos r
      → l.window ≡ pos window
      → NoWindow start l
      → HasRoom (suc (length calls)) l
      → Within start window calls
      → granted k (record { order = order; now = start; key = k } ∷ calls) l
        ≡ min (asked k calls + 1) r
  unfolding granted open_window
  quota order start calls l least rate window_eq free room within =
      rw (allow-NoWindow order start (length calls) l window_eq room free, ==_refl)
        (omega (
          arith,
          granted-Tracked calls (record { count = 1; window_start = start }) _
              (opened-Tracked start (length calls) l rate window_eq room) within,
        ))
