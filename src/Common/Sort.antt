-- ===== src/Common/Sort.antt =====
-- `slices.Sort` and `slices.Sorted` on strings: equal strings cannot be told apart, so every sort
-- returns the same slice.
pub mod Sorted
use Prim.Native.String.{String, compare}
use mathlib.Core.Path.{◌≡◌, refl, ◌∙◌}
use mathlib.Core.Bool.{Bool, false, ◌||◌}
use mathlib.Core.Logic.{inl, inr}
use mathlib.Core.List.{List, [], ◌∷◌}
use native.Mathlib.Omega.{arith}
use text.Mathlib.Text.{is_le}
use ldap2pg.Common.Equality.{◌==◌, string_eq, if◌then◌else◌, contains, Bool-cases}

abbrev pub before : String → String → Bool
before s t = is_le (compare s t)

unfoldable pub sort_insert : String → List String → List String
sort_insert s [] = s ∷ []
sort_insert s (t ∷ ts) = if before s t then s ∷ t ∷ ts else t ∷ sort_insert s ts

unfoldable pub sort : List String → List String
unfolding sort_insert
sort [] = []
sort (s ∷ ss) = sort_insert s (sort ss)

contains-sort_insert :
    (s : String) (ts : List String) (y : String)
    → contains (sort_insert s ts) y ≡ (s == y || contains ts y)
unfolding sort_insert
contains-sort_insert s [] y = refl
contains-sort_insert s (t ∷ ts) y = ground (arith, contains-sort_insert s ts y)

pub contains-sort : (ss : List String) (y : String) → contains (sort ss) y ≡ contains ss y
unfolding sort
contains-sort [] y = refl
contains-sort (s ∷ ss) y = ground (arith, contains-sort_insert s (sort ss) y, contains-sort ss y)

-- No text is listed twice.
abbrev pub Nodup : List String → Type 0
Nodup [] = Unit
Nodup (s ∷ ss) = (contains ss s ≡ false) × Nodup ss

Nodup-sort_insert :
    (s : String) (ts : List String) → contains ts s ≡ false → Nodup ts → Nodup (sort_insert s ts)
unfolding sort_insert
Nodup-sort_insert s [] h u = (refl, tt)
Nodup-sort_insert s (t ∷ ts) h (fresh, u) = elim (Bool-cases (before s t)) [
  | inl first ↦ rw first (h, (fresh, u))
  | inr later ↦
      rw later
        (ground (arith, contains-sort_insert s ts t), Nodup-sort_insert s ts (ground arith) u)
]

pub Nodup-sort : (ss : List String) → Nodup ss → Nodup (sort ss)
unfolding sort
Nodup-sort [] u = tt
Nodup-sort (s ∷ ss) (fresh, u) =
    Nodup-sort_insert s (sort ss) (contains-sort ss s ∙ fresh) (Nodup-sort ss u)
