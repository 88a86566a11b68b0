-- ===== src/Clips/Ttl.antt =====
-- internal/clips/clips.go: which lifetimes are accepted.
use go_clipboard.Base.{
  ℕ, ◌*◌, ◌≤◌, ◌≡◌, ◌↔◌, ◌⊎◌, inl, inr, arith, ℤ, pos, negsuc, ◌*ℤ◌, wrap64, ok, err, Bool-cases,
  ltb_ℤ,
}
use go_clipboard.Clock.{Duration, second}
use go_clipboard.Clips.{
  Error, invalid_ttl, preset_10m, preset_1h, preset_2h, ttl_from_seconds, resolve_ttl,
  max_seconds_as_duration,
}

-- One of the three preset lifetimes.
abbrev pub IsPreset : Duration → Type 0
IsPreset d = (d ≡ preset_10m) ⊎ (d ≡ preset_1h) ⊎ (d ≡ preset_2h)

-- The product of an accepted number of seconds does not wrap around.
seconds_exact :
    (n : ℕ) → n ≤ max_seconds_as_duration → wrap64 (pos n *ℤ pos second) ≡ pos (n * second)
unfolding wrap64
seconds_exact n h = ground arith

-- `TTLFromSeconds` accepts 600, 3600 and 7200 seconds and no other number, whatever int64 the
-- request holds, and the duration is that many seconds.
pub ttl_from_seconds_iff :
    (seconds : ℤ) (d : Duration)
    → (ttl_from_seconds seconds ≡ ok d) ↔ (
        ((seconds ≡ pos 600) × (d ≡ preset_10m))
        ⊎ ((seconds ≡ pos 3600) × (d ≡ preset_1h))
        ⊎ ((seconds ≡ pos 7200) × (d ≡ preset_2h)))
unfolding ttl_from_seconds
ttl_from_seconds_iff (negsuc n) d = ground arith
ttl_from_seconds_iff (pos n) d = elim (Bool-cases (ltb_ℤ (pos max_seconds_as_duration) (pos n))) [
  | inl big ↦ ground arith
  | inr fits ↦ rw (fits, seconds_exact n (ground arith)) (ground arith)
]

-- `ResolveTTL` gives the default for zero, a preset for itself, and refuses every other duration.
pub resolve_ttl_iff :
    (ttl d : Duration)
    → (resolve_ttl ttl ≡ ok d) ↔ (((ttl ≡ pos 0) × (d ≡ preset_2h)) ⊎ (IsPreset ttl × (d ≡ ttl)))
unfolding resolve_ttl
resolve_ttl_iff ttl d = ground arith

-- The only error of `ResolveTTL`.
pub resolve_ttl-err : (ttl : Duration) (e : Error) → resolve_ttl ttl ≡ err e → e ≡ invalid_ttl
unfolding resolve_ttl
resolve_ttl-err ttl e h = ground arith
