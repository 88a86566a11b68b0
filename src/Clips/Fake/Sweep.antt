-- ===== src/Clips/Fake/Sweep.antt =====
-- internal/clips/fake/store.go: what the loop of `DeleteExpiredClips` leaves.
use go_clipboard.Base.{
  ℕ, ◌+◌, ◌≡◌, refl, subst, inl, inr, true, false, Option, none, some, Bytes, ◌==◌, ==_iff, ok,
  if◌then◌else◌, [], ◌∷◌, arith, All, length, Bool-cases, Option-cases,
}
use go_clipboard.Base.Map.{
  Map, lookup, delete, Visits, Distinct, lookup-delete, length-delete, delete-Distinct,
}
use go_clipboard.Clock.{Time, after}
use go_clipboard.Clips.Fake.{StoredClip, delete_loop, delete_expired_clips}

-- The entry of a map after a sweep.
abbrev pub unless_expired : Time → Option StoredClip → Option StoredClip
unless_expired now none = none
unless_expired now (some c) = if after c.expires_at now then some c else none

-- The entries that the loop has still to visit are in the map.
abbrev Present : Map StoredClip → Map StoredClip → Type 0
Present order m = All (λ e. lookup e.0 m ≡ some e.1) order

Present-delete :
    (k : Bytes) (order m : Map StoredClip)
    → lookup k order ≡ none
    → Present order m
    → Present order (delete k m)
unfolding lookup
Present-delete k [] m absent p = tt
Present-delete k ((j, c) ∷ order) m absent p = (
  ground (arith, lookup-delete k j m, p.0, ==_iff k j, ==_iff j k),
  Present-delete k order m (ground arith) p.1,
)

module _ (k : Bytes) (c : StoredClip) (order : Map StoredClip) (now : Time) (m : Map StoredClip)
    (n : ℕ) where
  delete_loop_live :
      after c.expires_at now ≡ true
      → delete_loop ((k, c) ∷ order) now m n ≡ delete_loop order now m n
  unfolding delete_loop
  delete_loop_live h = ground arith

  delete_loop_expired :
      after c.expires_at now ≡ false
      → delete_loop ((k, c) ∷ order) now m n ≡ delete_loop order now (delete k m) (n + 1)
  unfolding delete_loop
  delete_loop_expired h = ground arith

-- A key that is not visited keeps its entry.
delete_loop_absent :
    (order : Map StoredClip) (now : Time) (m : Map StoredClip) (n : ℕ) (j : Bytes)
    → lookup j order ≡ none
    → lookup j (delete_loop order now m n).1 ≡ lookup j m
unfolding lookup
delete_loop_absent [] now m n j h = unfold delete_loop in refl
delete_loop_absent ((k, c) ∷ order) now m n j h = elim (Bool-cases (after c.expires_at now)) [
  | inl live ↦
      rw (delete_loop_live k c order now m n live)
        (delete_loop_absent order now m n j (ground arith))
  | inr expired ↦
      rw
        (
          delete_loop_expired k c order now m n expired,
          delete_loop_absent order now (delete k m) (n + 1) j (ground arith),
        )
        (ground (arith, lookup-delete k j m))
]

at_j : {k j : Bytes} (P : Bytes → Type 0) → (k == j) ≡ true → P k → P j
at_j {k} {j} P same h = subst P ((==_iff k j).0 same) h

lookup-delete_loop :
    (order : Map StoredClip) (now : Time) (m : Map StoredClip) (n : ℕ) (j : Bytes) (c : StoredClip)
    → Distinct order
    → Present order m
    → lookup j order ≡ some c
    → lookup j (delete_loop order now m n).1 ≡ unless_expired now (some c)
unfolding lookup
lookup-delete_loop [] now m n j c d p h = cc
lookup-delete_loop ((k, x) ∷ order) now m n j c d p h = elim (Bool-cases (after x.expires_at now)) [
  | inl live ↦ rw (delete_loop_live k x order now m n live) (elim (Bool-cases (k == j)) [
    | inl same ↦ ground (
      arith,
      h,
      delete_loop_absent order now m n j (at_j (λ y. lookup y order ≡ none) same d.0),
      at_j (λ y. lookup y m ≡ some x) same p.0,
    )
    | inr other ↦ lookup-delete_loop order now m n j c d.1 p.1 (ground arith)
  ])
  | inr expired ↦ rw (delete_loop_expired k x order now m n expired) (elim (Bool-cases (k == j)) [
    | inl same ↦ ground (
      arith,
      h,
      delete_loop_absent order now (delete k m) (n + 1) j
          (at_j (λ y. lookup y order ≡ none) same d.0),
      lookup-delete k j m,
    )
    | inr other ↦
        lookup-delete_loop order now (delete k m) (n + 1) j c d.1 (Present-delete k order m d.0 p.1)
          (ground arith)
  ])
]

length-delete_loop :
    (order : Map StoredClip) (now : Time) (m : Map StoredClip) (n : ℕ)
    → Distinct order
    → Distinct m
    → Present order m
    → Distinct (delete_loop order now m n).1
      × ((delete_loop order now m n).0 + length (delete_loop order now m n).1 ≡ n + length m)
length-delete_loop [] now m n d dm p = unfold delete_loop in (dm, omega arith)
length-delete_loop ((k, c) ∷ order) now m n d dm p = elim (Bool-cases (after c.expires_at now)) [
  | inl live ↦
      rw (delete_loop_live k c order now m n live) (length-delete_loop order now m n d.1 dm p.1)
  | inr expired ↦ rw (delete_loop_expired k c order now m n expired) (
      let (d', e) =
        length-delete_loop order now (delete k m) (n + 1) d.1 (delete-Distinct k m dm)
          (Present-delete k order m d.0 p.1) in
      (d', omega (arith, e, length-delete k c m dm p.0)))
]

not_visited :
    (order m : Map StoredClip) (j : Bytes)
    → Present order m
    → lookup j m ≡ none
    → lookup j order ≡ none
unfolding lookup
not_visited [] m j p h = refl
not_visited ((k, c) ∷ order) m j p h = elim (Bool-cases (k == j)) [
  | inl same ↦ absurd (ground (arith, at_j (λ y. lookup y m ≡ some c) same p.0, h))
  | inr other ↦ rw other (not_visited order m j p.1 h)
]

-- After a sweep the map holds exactly the entries that had not expired at its clock reading.
pub lookup-delete_expired_clips :
    (order : Map StoredClip) (now : Time) (m : Map StoredClip) (j : Bytes)
    → Visits order m
    → lookup j (delete_expired_clips order now m).1 ≡ unless_expired now (lookup j m)
unfolding delete_expired_clips
lookup-delete_expired_clips order now m j v = elim (Option-cases (lookup j m)) [
  | inr (c, found) ↦
      rw (found, lookup-delete_loop order now m 0 j c v.once v.present (v.complete j c found)) refl
  | inl missing ↦
      rw (missing, delete_loop_absent order now m 0 j (not_visited order m j v.present missing))
        missing
]

-- A sweep reports how many entries it removed, and leaves no key twice.
pub delete_expired_clips_count :
    (order : Map StoredClip) (now : Time) (m : Map StoredClip)
    → Visits order m
    → Distinct m
    → Distinct (delete_expired_clips order now m).1
      × (n : ℕ) × ((delete_expired_clips order now m).0 ≡ ok n)
      × (n + length (delete_expired_clips order now m).1 ≡ length m)
unfolding delete_expired_clips
delete_expired_clips_count order now m v d =
    let (kept, counted) = length-delete_loop order now m 0 v.once d v.present in
    (kept, _, refl, omega (arith, counted))
