-- ===== src/Http/ClientIp/Split.antt =====
-- internal/httpapi/clientip.go: the parts of a header that is a list.
use go_clipboard.Base.{
  ℕ, ◌≡◌, refl, ap, Bool, false, ◌||◌, Bytes, List, [], ◌∷◌, ◌++◌, eqb, inl, inr, Bool-cases, arith,
}
use go_clipboard.Http.ClientIp.{split, prepend}

-- strings.Contains, for a separator of one byte.
unfoldable pub contains : ℕ → Bytes → Bool
contains c [] = false
contains c (b ∷ s) = eqb b c || contains c s

prepend-cases :
    (b : ℕ) (parts : List Bytes) → (p : Bytes) × (ps : List Bytes) × (prepend b parts ≡ p ∷ ps)
unfolding prepend
prepend-cases b [] = (b ∷ [], [], refl)
prepend-cases b (p ∷ ps) = (b ∷ p, ps, refl)

pub split-cases : (c : ℕ) (s : Bytes) → (p : Bytes) × (ps : List Bytes) × (split c s ≡ p ∷ ps)
unfolding split
split-cases c [] = ([], [], refl)
split-cases c (b ∷ s) = elim (Bool-cases (eqb b c)) [
  | inl same ↦ ([], split c s, rw (same, split) refl)
  | inr other ↦ rw (other, split) (prepend-cases b (split c s))
]

prepend-append :
    (b : ℕ) (c : ℕ) (s : Bytes) (qs : List Bytes)
    → prepend b (split c s ++ qs) ≡ prepend b (split c s) ++ qs
unfolding prepend
prepend-append b c s qs = let (p, ps, e) = split-cases c s in rw e refl

-- The parts of two lists that a separator joins are those of the two.
pub split-append : (c : ℕ) (s t : Bytes) → split c (s ++ (c ∷ t)) ≡ split c s ++ split c t
unfolding split
split-append c [] t = ground arith
split-append c (b ∷ s) t = elim (Bool-cases (eqb b c)) [
  | inl same ↦ rw (same, split) (ap (λ l. [] ∷ l) (split-append c s t))
  | inr other ↦ rw (other, split, split-append c s t) (prepend-append b c s (split c t))
]

-- What holds no separator is one part.
pub split_one : (c : ℕ) (s : Bytes) → contains c s ≡ false → split c s ≡ s ∷ []
unfolding split contains prepend
split_one c [] h = refl
split_one c (b ∷ s) h = elim (Bool-cases (eqb b c)) [
  | inl same ↦ absurd (ground (arith, h, same))
  | inr other ↦ rw (other, split, split_one c s (ground (arith, h, other))) refl
]
