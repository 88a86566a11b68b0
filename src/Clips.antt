-- ===== src/Clips.antt =====
-- internal/clips/clips.go: clips, their limits and errors, and the choice of a lifetime.
pub mod Ttl
pub mod Store
pub mod Fake
pub mod Postgres
pub mod Service
mod Tests
use go_clipboard.Base.{
  ℕ, ◌*◌, Bool, ◌||◌, List, [], ◌∷◌, String, Bytes, ℤ, pos, ◌*ℤ◌, ltb_ℤ, eqb_ℤ, wrap64, Result, ok,
  err, if◌then◌else◌,
}
use go_clipboard.Clock.{Time, Duration, second, minute, hour}
use go_clipboard.Slug.{ValidationError}

abbrev pub max_body_bytes : ℕ
max_body_bytes = 262144

abbrev pub anon_ceiling : ℕ
anon_ceiling = 2 * hour

abbrev pub preset_10m : Duration
preset_10m = pos (10 * minute)

abbrev pub preset_1h : Duration
preset_1h = pos (1 * hour)

abbrev pub preset_2h : Duration
preset_2h = pos (2 * hour)

abbrev pub presets : List Duration
presets = preset_10m ∷ preset_1h ∷ preset_2h ∷ []

abbrev pub default_preset : Duration
default_preset = preset_2h

-- The errors that the package's callers tell apart. `failure` is any other error of a store.
pub data Error : Type 0 where
  invalid_slug : ValidationError → Error
  slug_in_use not_found body_too_large invalid_ttl : Error
  failure : String → Error

pub record Clip : Type 0 where
  pub slug : Bytes
  pub body : Bytes
  pub created_at : Time
  pub expires_at : Time

-- int64(math.MaxInt64 / int64(time.Second))
abbrev pub max_seconds_as_duration : ℕ
max_seconds_as_duration = 9223372036

-- The loop `for _, preset := range …` of both functions below.
unfoldable pub find_preset : List Duration → Duration → Result Error Duration
find_preset [] ttl = err invalid_ttl
find_preset (preset ∷ rest) ttl = if eqb_ℤ ttl preset then ok ttl else find_preset rest ttl

-- `seconds` is an int64; the product is computed in int64.
unfoldable pub ttl_from_seconds : ℤ → Result Error Duration
unfolding find_preset
ttl_from_seconds seconds =
    if ltb_ℤ seconds (pos 0) || ltb_ℤ (pos max_seconds_as_duration) seconds
    then err invalid_ttl
    else (let ttl = wrap64 (seconds *ℤ pos second) in find_preset presets ttl)

unfoldable pub resolve_ttl : Duration → Result Error Duration
unfolding find_preset
resolve_ttl ttl = if eqb_ℤ ttl (pos 0) then ok default_preset else find_preset presets ttl
