-- ===== src/Base/Map.antt =====
-- Go's `map[string]V` as an association list. A loop that ranges over a map takes the entries in
-- the order in which the runtime visits them as an argument, of which `Visits` says what Go
-- documents: every entry of the map, each once.
use Prim.Native.Nat.{◌+◌}
use mathlib.Core.Path.{◌≡◌, refl}
use mathlib.Core.Logic.{inl, inr, ◌≢◌}
use mathlib.Core.List.{List, [], ◌∷◌}
use mathlib.Core.Option.{Option, none, some}
use native.Mathlib.Omega.{arith}
use go_clipboard.Base.Tests.{if◌then◌else◌, Bool-cases}
use go_clipboard.Base.Lists.{length, All}
use go_clipboard.Base.Strings.{Bytes, ◌==◌, ==_iff, ==_refl}

abbrev pub Map {ℓ} : Type ℓ → Type ℓ
Map V = List (Bytes × V)

module _ {ℓ} {V : Type ℓ} where
  -- value, ok := entries[key]
  unfoldable pub lookup : Bytes → Map V → Option V
  lookup key [] = none
  lookup key ((name, value) ∷ entries) = if name == key then some value else lookup key entries

  -- entries[key] = value
  unfoldable pub insert : Bytes → V → Map V → Map V
  insert key value [] = (key, value) ∷ []
  insert key value ((name, other) ∷ entries) =
      if name == key then (key, value) ∷ entries else (name, other) ∷ insert key value entries

  -- delete(m, k).
  unfoldable pub delete : Bytes → Map V → Map V
  delete k [] = []
  delete k ((j, w) ∷ m) = let rest = delete k m in if j == k then rest else (j, w) ∷ rest

  -- No key stands twice.
  abbrev pub Distinct : Map V → Type ℓ
  Distinct [] = Unit
  Distinct ((k, v) ∷ m) = (lookup k m ≡ none) × Distinct m

  -- A `range` over `m` visits the entries `order`.
  pub record Visits (order m : Map V) : Type ℓ where
    pub present : All (λ e. lookup e.0 m ≡ some e.1) order
    pub complete : (k : Bytes) (v : V) → lookup k m ≡ some v → lookup k order ≡ some v
    pub once : Distinct order

  pub lookup-insert :
      (key name : Bytes) (value : V) (entries : Map V)
      → lookup name (insert key value entries)
        ≡ (if key == name then some value else lookup name entries)
  unfolding lookup insert
  lookup-insert key name value [] = refl
  lookup-insert key name value ((first, other) ∷ entries) = ground (
    arith,
    lookup-insert key name value entries,
    ==_iff first key,
    ==_iff first name,
    ==_iff key name,
  )

  pub lookup-delete :
      (k j : Bytes) (m : Map V) → lookup j (delete k m) ≡ (if k == j then none else lookup j m)
  unfolding lookup delete
  lookup-delete k j [] = ground arith
  lookup-delete k j ((i, w) ∷ m) =
      ground (arith, ==_iff k j, ==_iff i k, ==_iff i j, lookup-delete k j m)

  pub lookup-insert_self : (k : Bytes) (v : V) (m : Map V) → lookup k (insert k v m) ≡ some v
  lookup-insert_self k v m = rw (lookup-insert, ==_refl)

  pub lookup-insert_ne :
      (k j : Bytes) (v : V) (m : Map V) → k ≢ j → lookup j (insert k v m) ≡ lookup j m
  lookup-insert_ne k j v m h = ground (arith, lookup-insert k j v m, ==_iff k j)

  pub lookup-delete_self : (k : Bytes) (m : Map V) → lookup k (delete k m) ≡ none
  lookup-delete_self k m = rw (lookup-delete, ==_refl)

  pub lookup-delete_ne : (k j : Bytes) (m : Map V) → k ≢ j → lookup j (delete k m) ≡ lookup j m
  lookup-delete_ne k j m h = ground (arith, lookup-delete k j m, ==_iff k j)

module _ {ℓ} {V : Type ℓ} where
  pub length-insert_absent :
      (k : Bytes) (v : V) (m : Map V) → lookup k m ≡ none → length (insert k v m) ≡ length m + 1
  unfolding lookup insert
  length-insert_absent k v [] h = omega arith
  length-insert_absent k v ((i, w) ∷ m) h = ground (arith, length-insert_absent k v m)

  pub length-insert_present :
      (k : Bytes) (v w : V) (m : Map V) → lookup k m ≡ some w → length (insert k v m) ≡ length m
  unfolding lookup insert
  length-insert_present k v u [] h = cc
  length-insert_present k v u ((i, w) ∷ m) h = ground (arith, length-insert_present k v u m)

  pub delete_absent : (k : Bytes) (m : Map V) → lookup k m ≡ none → delete k m ≡ m
  unfolding lookup delete
  delete_absent k [] h = refl
  delete_absent k ((i, w) ∷ m) h = ground (arith, delete_absent k m)

  pub length-delete :
      (k : Bytes) (v : V) (m : Map V)
      → Distinct m
      → lookup k m ≡ some v
      → length (delete k m) + 1 ≡ length m
  unfolding lookup delete
  length-delete k v [] d h = cc
  length-delete k v ((i, w) ∷ m) d h =
      ground (arith, length-delete k v m d.1, ==_iff i k, delete_absent k m)

  pub delete-Distinct : (k : Bytes) (m : Map V) → Distinct m → Distinct (delete k m)
  unfolding delete
  delete-Distinct k [] d = tt
  delete-Distinct k ((i, w) ∷ m) d = elim (Bool-cases (i == k)) [
    | inl e ↦ rw e (delete-Distinct k m d.1)
    | inr e ↦ rw e (ground (arith, lookup-delete k i m, d.0), delete-Distinct k m d.1)
  ]

  pub insert-Distinct : (k : Bytes) (v : V) (m : Map V) → Distinct m → Distinct (insert k v m)
  unfolding insert lookup
  insert-Distinct k v [] d = (refl, tt)
  insert-Distinct k v ((i, w) ∷ m) d = elim (Bool-cases (i == k)) [
    | inl e ↦ rw e (rw (← (==_iff i k).0 e) d.0, d.1)
    | inr e ↦ rw e (
      ground (arith, lookup-insert k i v m, d.0, ==_iff i k, ==_iff k i),
      insert-Distinct k v m d.1,
    )
  ]

  -- Two maps with the same entries have the same number of them.
  pub length-eq_of_same :
      (m n : Map V)
      → Distinct m
      → Distinct n
      → ((k : Bytes) → lookup k m ≡ lookup k n)
      → length m ≡ length n
  unfolding lookup
  length-eq_of_same [] [] dm dn h = refl
  length-eq_of_same [] ((k, v) ∷ n) dm dn h = ground (arith, h k, ==_refl k)
  length-eq_of_same ((k, v) ∷ m) n dm dn h =
      let found : lookup k n ≡ some v = ground (arith, h k, ==_refl k) in
      let same : (j : Bytes) → lookup j m ≡ lookup j (delete k n) =
        λ j. ground (arith, h j, lookup-delete k j n, ==_iff k j, dm.0) in
      omega (
        arith,
        length-eq_of_same m (delete k n) dm.1 (delete-Distinct k n dn) same,
        length-delete k v n dn found,
      )

  present-cons :
      (k : Bytes) (v : V) (m order : Map V)
      → lookup k order ≡ none
      → All (λ e. lookup e.0 m ≡ some e.1) order
      → All (λ e. lookup e.0 ((k, v) ∷ m) ≡ some e.1) order
  unfolding lookup
  present-cons k v m [] absent p = tt
  present-cons k v m ((j, w) ∷ order) absent p =
      (ground (arith, ==_iff k j, ==_iff j k, p.0), present-cons k v m order (ground arith) p.1)

  present_self : (m : Map V) → Distinct m → All (λ e. lookup e.0 m ≡ some e.1) m
  unfolding lookup
  present_self [] d = tt
  present_self ((k, v) ∷ m) d = (rw (==_refl k), present-cons k v m m d.0 (present_self m d.1))

  -- One order in which a map can be visited: that of its representation.
  pub Visits-self : (m : Map V) → Distinct m → Visits m m
  Visits-self m d = record { present = present_self m d; complete = λ k v h. h; once = d }
