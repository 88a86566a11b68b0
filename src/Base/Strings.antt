-- ===== src/Base/Strings.antt =====
-- Go strings as lists of bytes, with their equality.
use Prim.Native.Nat.{ℕ}
use Prim.Native.Char.{code}
use Prim.Native.String.{String}
use mathlib.Core.Path.{◌≡◌, refl}
use mathlib.Core.Logic.{◌↔◌}
use mathlib.Core.Bool.{Bool, true, false, ◌&&◌}
use mathlib.Core.List.{List, [], ◌∷◌}
use native.Mathlib.Omega.{arith}
use go_clipboard.Base.Tests.{eqb}

abbrev pub Bytes : Type 0
Bytes = List ℕ

-- The bytes that an ASCII literal stands for, written out from the first character on.
abbrev pub ascii : String → Bytes
ascii String.[] = []
ascii (String.◌∷◌ c s) = code c ∷ ascii s

infix 50 ◌==◌
unfoldable pub ◌==◌ : Bytes → Bytes → Bool
[] == [] = true
[] == (b ∷ t) = false
(a ∷ s) == [] = false
(a ∷ s) == (b ∷ t) = eqb a b && s == t

pub ==→eq : (s t : Bytes) → (s == t) ≡ true → s ≡ t
unfolding ◌==◌
==→eq [] [] h = refl
==→eq [] (b ∷ t) h = cc
==→eq (a ∷ s) [] h = cc
==→eq (a ∷ s) (b ∷ t) h = ground (arith, ==→eq s t)

pub ==_refl : (s : Bytes) → (s == s) ≡ true
unfolding ◌==◌
==_refl [] = refl
==_refl (a ∷ s) = ground (arith, ==_refl s)

pub eq→== : (s t : Bytes) → s ≡ t → (s == t) ≡ true
eq→== s t h = rw h (==_refl t)

pub ==_iff : (s t : Bytes) → ((s == t) ≡ true) ↔ (s ≡ t)
==_iff s t = (==→eq s t, eq→== s t)
