-- ===== src/RateLimit/Room.antt =====
-- internal/ratelimit/memory.go: what `makeRoom` evicts.
use go_clipboard.Base.{
  ℕ, ◌+◌, ◌≤◌, ◌≡◌, refl, subst, ◌⊎◌, inl, inr, true, false, ◌||◌, none, some, Bytes, ◌==◌, ==_iff,
  pos, leb_ℤ, ltb_ℤ, [], ◌∷◌, arith, Bool-cases, All, length,
}
use go_clipboard.Base.Map.{Map, lookup, delete, Visits, Distinct, length-delete}
use go_clipboard.RateLimit.{
  Entry, MemoryLimiter, Oldest, note_entry, find_oldest, no_oldest, make_room,
}

-- The loop's variables hold an entry of `m`.
record Holds (m : Map Entry) (o : Oldest) : Type 0 where
  started : o.first ≡ false
  entry : Entry
  present : lookup o.oldest_key m ≡ some entry
  start : entry.window_start ≡ o.oldest_start

abbrev noted : Bytes → Entry → Oldest
noted k e = record { oldest_key = k; oldest_start = e.window_start; first = false }

note_entry-cases :
    (k : Bytes) (e : Entry) (o : Oldest)
    → (note_entry k e o ≡ noted k e) ⊎ ((note_entry k e o ≡ o) × (o.first ≡ false))
unfolding note_entry
note_entry-cases k e o = ground arith

noted-Holds : (m : Map Entry) (k : Bytes) (e : Entry) → lookup k m ≡ some e → Holds m (noted k e)
noted-Holds m k e h = record { started = refl; entry = e; present = h; start = refl }

note_entry-Holds :
    (m : Map Entry) (k : Bytes) (e : Entry) (o : Oldest)
    → lookup k m ≡ some e
    → Holds m o
    → Holds m (note_entry k e o)
note_entry-Holds m k e o h holds = elim (note_entry-cases k e o) [
  | inl new ↦ rw new (noted-Holds m k e h)
  | inr (kept, _) ↦ rw kept holds
]

find_oldest-Holds :
    (m order : Map Entry) (o : Oldest)
    → All (λ e. lookup e.0 m ≡ some e.1) order
    → Holds m o
    → Holds m (find_oldest order o)
unfolding find_oldest
find_oldest-Holds m [] o h holds = holds
find_oldest-Holds m ((k, e) ∷ rest) o h holds =
    find_oldest-Holds m rest (note_entry k e o) h.1 (note_entry-Holds m k e o h.0 holds)

note_entry_le :
    (k : Bytes) (e : Entry) (o : Oldest)
    → o.first ≡ false
    → ((note_entry k e o).oldest_start ≤ e.window_start)
      × ((note_entry k e o).oldest_start ≤ o.oldest_start)
      × ((note_entry k e o).first ≡ false)
unfolding note_entry
note_entry_le k e o h = ground arith

find_oldest_le :
    (order : Map Entry) (o : Oldest)
    → o.first ≡ false
    → ((find_oldest order o).oldest_start ≤ o.oldest_start)
      × All (λ x. (find_oldest order o).oldest_start ≤ x.1.window_start) order
unfolding find_oldest
find_oldest_le [] o h = (omega arith, tt)
find_oldest_le ((k, e) ∷ rest) o h =
    let (below_e, below_o, started) = note_entry_le k e o h in
    let (below, rest_below) = find_oldest_le rest (note_entry k e o) started in
    (omega arith, (omega arith, rest_below))

All-lookup :
    (t : ℕ) (order : Map Entry) (k : Bytes) (e : Entry)
    → All (λ x. t ≤ x.1.window_start) order
    → lookup k order ≡ some e
    → t ≤ e.window_start
unfolding lookup
All-lookup t [] k e h found = cc
All-lookup t ((j, x) ∷ rest) k e h found = ground (arith, All-lookup t rest k e h.1)

-- The key that the loop of `makeRoom` ends with.
abbrev pub victim : Map Entry → Bytes
victim order = (find_oldest order no_oldest).oldest_key

victim-Holds :
    (m order : Map Entry)
    → All (λ e. lookup e.0 m ≡ some e.1) order
    → 1 ≤ length order
    → Holds m (find_oldest order no_oldest)
unfolding find_oldest note_entry
victim-Holds m [] h l = absurd (omega arith)
victim-Holds m ((k, e) ∷ rest) h l =
    find_oldest-Holds m rest (noted k e) h.1 (noted-Holds m k e h.0)

victim_le :
    (order : Map Entry)
    → 1 ≤ length order
    → All (λ x. (find_oldest order no_oldest).oldest_start ≤ x.1.window_start) order
unfolding find_oldest note_entry
victim_le [] l = tt
victim_le ((k, e) ∷ rest) l = find_oldest_le rest (noted k e) refl

length-pos_of_lookup : (m : Map Entry) (k : Bytes) (e : Entry) → lookup k m ≡ some e → 1 ≤ length m
unfolding lookup
length-pos_of_lookup [] k e h = cc
length-pos_of_lookup (x ∷ m) k e h = omega arith

-- No key of `m` is empty, so the key that the loop ends with is not.
victim-ne-nil :
    (m : Map Entry) (k : Bytes) (e : Entry)
    → lookup [] m ≡ none
    → lookup k m ≡ some e
    → (k == []) ≡ false
victim-ne-nil m k e nonempty found = elim (Bool-cases (k == [])) [
  | inl empty ↦
      absurd (ground (arith, subst (λ x. lookup x m ≡ some e) ((==_iff k []).0 empty) found))
  | inr h ↦ h
]

make_room-delete :
    (order : Map Entry) (l : MemoryLimiter) (cap : ℕ)
    → l.max_keys ≡ pos cap
    → 1 ≤ cap
    → cap ≤ length l.keys
    → (victim order == []) ≡ false
    → make_room order l ≡ record l { keys = delete (victim order) l.keys }
unfolding make_room
make_room-delete order l cap cap_eq positive full h =
    rw
      (
        h,
        (let off : leb_ℤ l.max_keys (pos 0) || ltb_ℤ (pos (length l.keys)) l.max_keys ≡ false =
              rw cap_eq (ground arith) in
            off),
      )
      refl

-- A full limiter with a positive cap, none of whose keys is empty, evicts one key: the entry that
-- goes has a window no younger than that of any other entry, and the map is then the old one without
-- that key, one entry smaller.
pub make_room_lem :
    (order : Map Entry) (l : MemoryLimiter) (cap : ℕ) (j : Bytes) (other : Entry)
    → Visits order l.keys
    → Distinct l.keys
    → lookup [] l.keys ≡ none
    → l.max_keys ≡ pos cap
    → 1 ≤ cap
    → cap ≤ length l.keys
    → lookup j l.keys ≡ some other
    → (gone : Entry) × (lookup (victim order) l.keys ≡ some gone)
      × (gone.window_start ≤ other.window_start)
      × (make_room order l ≡ record l { keys = delete (victim order) l.keys })
      × (length (make_room order l).keys + 1 ≡ length l.keys)
make_room_lem order l cap j other visits distinct nonempty cap_eq positive full found =
    let holds =
      victim-Holds l.keys order visits.present
        (length-pos_of_lookup order j other (visits.complete j other found)) in
    let gone = holds.entry in
    let evicted =
      make_room-delete order l cap cap_eq positive full
        (victim-ne-nil l.keys (victim order) gone nonempty holds.present) in
    (
      gone,
      holds.present,
      omega (
        arith,
        holds.start,
        All-lookup _ order j other
            (victim_le order (length-pos_of_lookup order j other (visits.complete j other found)))
            (visits.complete j other found),
      ),
      evicted,
      rw evicted (length-delete (victim order) gone l.keys distinct holds.present),
    )

-- With the cap off, or not reached, nothing is evicted.
pub make_room_idle :
    (order : Map Entry) (l : MemoryLimiter)
    → (leb_ℤ l.max_keys (pos 0) ≡ true) ⊎ (ltb_ℤ (pos (length l.keys)) l.max_keys ≡ true)
    → make_room order l ≡ l
unfolding make_room
make_room_idle order l h = ground arith
