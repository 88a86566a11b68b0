-- ===== src/Slug/Rules.antt =====
-- internal/slug/slug.go: what `Validate` accepts, and which error it gives otherwise.
use go_clipboard.Base.{
  ℕ, ◌≤◌, ◌<◌, ◌≡◌, ◌≢◌, refl, ap, ◌↔◌, ◌⊎◌, inl, inr, true, false, [], ◌∷◌, none, some, Bytes,
  ascii, ==_iff, all, all-All, All-all, All, length, arith, Bool-cases,
}
use text.Mathlib.TextEquality.{eq_iff}
use go_clipboard.Slug.{
  ValidationError, in_class, match_pattern, is_reserved, validate, bad_length, bad_charset,
  reserved_name,
}

-- A letter, a digit, an underscore or a hyphen.
abbrev pub IsSlugByte : ℕ → Type 0
IsSlugByte c =
    (b'a' ≤ c) × (c ≤ b'z')
    ⊎ (b'A' ≤ c) × (c ≤ b'Z')
    ⊎ (b'0' ≤ c) × (c ≤ b'9')
    ⊎ (c ≡ b'_')
    ⊎ (c ≡ b'-')

pub in_class_iff : (c : ℕ) → (in_class c ≡ true) ↔ IsSlugByte c
unfolding in_class
in_class_iff c = ground arith

pub record IsSlug (slug : Bytes) : Type 0 where
  pub at_least : 3 ≤ length slug
  pub at_most : length slug ≤ 64
  pub charset : All IsSlugByte slug
  pub not_reserved : slug ≢ ascii "status"

all_of_match : (s : Bytes) → match_pattern s ≡ true → all in_class s ≡ true
unfolding match_pattern
all_of_match [] h = cc
all_of_match (c ∷ s) h = h

match_of_all : (s : Bytes) → 1 ≤ length s → all in_class s ≡ true → match_pattern s ≡ true
unfolding match_pattern
match_of_all [] l h = absurd (omega arith)
match_of_all (c ∷ s) l h = h

pub All-IsSlugByte : (s : Bytes) → All (λ c. in_class c ≡ true) s → All IsSlugByte s
All-IsSlugByte [] h = tt
All-IsSlugByte (c ∷ s) h = ((in_class_iff c).0 h.0, All-IsSlugByte s h.1)

pub All-in_class : (s : Bytes) → All IsSlugByte s → All (λ c. in_class c ≡ true) s
All-in_class [] h = tt
All-in_class (c ∷ s) h = ((in_class_iff c).1 h.0, All-in_class s h.1)

pub is_reserved_iff : (s : Bytes) → (is_reserved s ≡ true) ↔ (s ≡ ascii "status")
unfolding is_reserved
is_reserved_iff s = ground (arith, ==_iff s (ascii "status"))

validate_sound : (s : Bytes) → validate s ≡ none → IsSlug s
unfolding validate
validate_sound s h = record {
  at_least = ground arith;
  at_most = ground arith;
  charset = All-IsSlugByte s (all-All in_class s (all_of_match s (ground arith)));
  not_reserved = λ e. ground (arith, (is_reserved_iff s).1 e);
}

validate_complete : (s : Bytes) → IsSlug s → validate s ≡ none
unfolding validate
validate_complete s h =
    let matched = match_of_all s (omega arith) (All-all in_class s (All-in_class s h.charset)) in
    ground (arith, matched, is_reserved_iff s, h.at_least, h.at_most, h.not_reserved)

-- `Validate` accepts a name exactly when it has 3 to 64 bytes, each a letter, a digit, an
-- underscore or a hyphen, and is not the reserved name "status".
pub validate-none_iff : (s : Bytes) → (validate s ≡ none) ↔ IsSlug s
validate-none_iff s = (validate_sound s, validate_complete s)

-- A nonempty name matches the pattern exactly when each of its bytes is in the class.
match_pattern_iff : (s : Bytes) → 1 ≤ length s → (match_pattern s ≡ true) ↔ All IsSlugByte s
match_pattern_iff s l = (
  λ h. All-IsSlugByte s (all-All in_class s (all_of_match s h)),
  λ h. match_of_all s l (All-all in_class s (All-in_class s h)),
)

bad_length≢bad_charset : bad_length ≢ bad_charset
bad_length≢bad_charset e = ground (
  arith,
  eq_iff bad_length.message bad_charset.message,
  ap (λ (v : ValidationError). v.message) e,
)

bad_length≢reserved_name : bad_length ≢ reserved_name
bad_length≢reserved_name e =
    ground
      (arith, eq_iff bad_length.code reserved_name.code, ap (λ (v : ValidationError). v.code) e)

bad_charset≢reserved_name : bad_charset ≢ reserved_name
bad_charset≢reserved_name e =
    ground
      (arith, eq_iff bad_charset.code reserved_name.code, ap (λ (v : ValidationError). v.code) e)

reserved-IsSlug : (s : Bytes) → s ≡ ascii "status" → (length s ≡ 6) × (match_pattern s ≡ true)
unfolding match_pattern in_class
reserved-IsSlug s e = rw e (refl, refl)

-- The error names the first rule that is broken: the length, then the charset, then the reservation.
pub validate_errors :
    (s : Bytes)
    → ((validate s ≡ some bad_length) ↔ ((length s < 3) ⊎ (64 < length s)))
      × ((validate s ≡ some bad_charset)
          ↔ ((3 ≤ length s) × (length s ≤ 64) × (¬ All IsSlugByte s)))
      × ((validate s ≡ some reserved_name) ↔ (s ≡ ascii "status"))
unfolding validate
validate_errors s = (
  (λ h. ground (arith, bad_length≢bad_charset, bad_length≢reserved_name), λ h. ground arith),
  (
    λ h.
        let fits : (3 ≤ length s) × (length s ≤ 64) × (match_pattern s ≡ false) =
          ground (arith, bad_length≢bad_charset, bad_charset≢reserved_name) in
        (fits.0, fits.1, λ c. ground (arith, fits.2, (match_pattern_iff s (omega arith)).1 c)),
    λ (lo, hi, bad). elim (Bool-cases (match_pattern s)) [
      | inl e ↦ absurd (bad ((match_pattern_iff s (omega arith)).0 e))
      | inr e ↦ ground arith
    ],
  ),
  (
    λ h.
        (is_reserved_iff s).0 (ground (arith, bad_length≢reserved_name, bad_charset≢reserved_name)),
    λ e. ground (arith, reserved-IsSlug s e, (is_reserved_iff s).1 e),
  ),
)
