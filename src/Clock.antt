-- ===== src/Clock.antt =====
-- What the program uses of Go's package time: instants and durations, in nanoseconds.
-- An instant is counted from the zero Time, which every clock reading is past. A location
-- (`UTC()`) changes only how an instant is written, and is not part of the model.
use go_clipboard.Base.{
  ℕ, ◌+◌, ◌-◌, ◌≤◌, ◌<◌, ◌≡◌, Bool, true, arith, ℤ, pos, negsuc, pos_part, neg_part, ltb, leb,
  leb_ℤ, max_int64, if◌then◌else◌, ◌↔◌,
}

abbrev pub Time : Type 0
Time = ℕ

abbrev pub Duration : Type 0
Duration = ℤ

-- The number of nanoseconds in a second.
abbrev pub second : ℕ
second = 1000000000

abbrev pub minute : ℕ
minute = 60000000000

abbrev pub hour : ℕ
hour = 3600000000000

-- t.Add(d)
abbrev pub add : Time → Duration → Time
add t d = t + pos_part d - neg_part d

-- t.Sub(u), which saturates at the ends of int64.
unfoldable pub sub : Time → Time → Duration
sub t u =
    if leb u t
    then (if leb (t - u) max_int64 then pos (t - u) else pos max_int64)
    else (if leb (u - t - 1) max_int64 then negsuc (u - t - 1) else negsuc max_int64)

-- t.After(u)
abbrev pub after : Time → Time → Bool
after t u = ltb u t

-- t.Before(u)
abbrev pub before : Time → Time → Bool
before t u = ltb t u

-- Saturation does not show in a comparison with a duration that int64 holds: at or past a
-- positive window exactly when that many nanoseconds have gone by.
pub sub-ge_iff :
    (now start window : ℕ)
    → 0 < window
    → window ≤ max_int64
    → (leb_ℤ (pos window) (sub now start) ≡ true) ↔ (start + window ≤ now)
unfolding sub
sub-ge_iff now start window p h = ground arith

-- Under the window the difference is exact.
pub sub_exact :
    (now start : ℕ) → start ≤ now → now - start ≤ max_int64 → sub now start ≡ pos (now - start)
unfolding sub
sub_exact now start h k = ground arith
