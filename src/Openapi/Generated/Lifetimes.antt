-- ===== src/Openapi/Generated/Lifetimes.antt =====
-- internal/openapi/openapi.gen.go: the lifetimes of the generated enumeration are those of internal/clips.
use go_clipboard.Base.{◌≡◌, ◌↔◌, ◌⊎◌, inl, inr, true, ℤ, pos, ok, arith, refl}
use go_clipboard.Clock.{Duration}
use go_clipboard.Clips.{preset_10m, preset_1h, preset_2h, ttl_from_seconds}
use go_clipboard.Clips.Ttl.{ttl_from_seconds_iff}
use go_clipboard.Openapi.Generated.{is_valid_ttl}

is_valid_ttl_iff :
    (seconds : ℤ)
    → (is_valid_ttl seconds ≡ true)
      ↔ ((seconds ≡ pos 600) ⊎ (seconds ≡ pos 3600) ⊎ (seconds ≡ pos 7200))
unfolding is_valid_ttl
is_valid_ttl_iff seconds = ground arith

-- The handler accepts exactly the lifetimes that the generated enumeration has.
pub ttl_from_seconds-is_valid_ttl :
    (seconds : ℤ)
    → (is_valid_ttl seconds ≡ true) ↔ ((d : Duration) × (ttl_from_seconds seconds ≡ ok d))
ttl_from_seconds-is_valid_ttl seconds = (
  λ valid. elim ((is_valid_ttl_iff seconds).0 valid) [
    | inl h ↦ (preset_10m, (ttl_from_seconds_iff seconds preset_10m).1 (inl (h, refl)))
    | inr (inl h) ↦ (preset_1h, (ttl_from_seconds_iff seconds preset_1h).1 (inr (inl (h, refl))))
    | inr (inr h) ↦ (preset_2h, (ttl_from_seconds_iff seconds preset_2h).1 (inr (inr (h, refl))))
  ],
  λ (d, accepted).
      (is_valid_ttl_iff seconds).1 (elim ((ttl_from_seconds_iff seconds d).0 accepted) [
        | inl (h, e) ↦ inl h
        | inr (inl (h, e)) ↦ inr (inl h)
        | inr (inr (h, e)) ↦ inr (inr h)
      ]),
)
