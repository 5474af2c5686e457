-- ===== src/Common/Sort/Sorted.antt =====
-- A sort leaves every text before all that follow it.
use Prim.Native.Char.{code}
use Prim.Native.Nat.{ℕ, zero, suc}
use Prim.Native.Nat.compare as compare_ℕ
use Prim.Native.Nat.{Ordering, compare as compare_ℕ}
use Prim.Native.String.{String, compare, then as and_then}
use Prim.Native.String
use Prim.Native.String.compare
use mathlib.Core.Path.{◌≡◌, refl, sym, ◌∙◌, ap}
use mathlib.Core.Bool.{Bool, true, false, ◌&&◌, ◌||◌}
use mathlib.Core.Logic.{inl, inr}
use mathlib.Core.List.{List, [], ◌∷◌}
use native.Mathlib.Omega.{arith}
use text.Mathlib.Text.{is_le}
use ldap2pg.Common.Equality.{◌==◌, nat_eq, Bool-cases, ltb}
use ldap2pg.Common.Seqs.{keep, All, All-keep, All-map}
use ldap2pg.Common.Sort.{before, sort_insert, sort}

-- The order by code points.
precedes : String → String → Bool
precedes String.String.[] t = true
precedes (String.String.◌∷◌ c s) String.String.[] = false
precedes (String.String.◌∷◌ c s) (String.String.◌∷◌ d t) =
    ltb (code c) (code d) || code c == code d && precedes s t

is_le-then :
    (m n : ℕ) (o : Ordering) → is_le (and_then (compare_ℕ m n) o) ≡ (ltb m n || m == n && is_le o)
is_le-then zero zero o = ap (λ r. is_le (and_then r o)) compare_ℕ.zero-zero ∙ ground arith
is_le-then zero (suc n) o = ap (λ r. is_le (and_then r o)) (compare_ℕ.zero-suc n) ∙ ground arith
is_le-then (suc m) zero o = ap (λ r. is_le (and_then r o)) (compare_ℕ.suc-zero m) ∙ ground arith
is_le-then (suc m) (suc n) o =
    ap (λ r. is_le (and_then r o)) (compare_ℕ.suc-suc m n) ∙ is_le-then m n o ∙ ground arith

before-eq : (s t : String) → before s t ≡ precedes s t
unfolding precedes
before-eq String.String.[] String.String.[] = ap is_le compare.nil-nil
before-eq String.String.[] (String.String.◌∷◌ d t) = ap is_le (compare.nil-cons d t)
before-eq (String.String.◌∷◌ c s) String.String.[] = ap is_le (compare.cons-nil c s)
before-eq (String.String.◌∷◌ c s) (String.String.◌∷◌ d t) =
    ap is_le (compare.cons-cons c d s t)
    ∙ is_le-then (code c) (code d) (compare s t)
    ∙ rw (before-eq s t) refl

precedes_trans : (s t u : String) → precedes s t ≡ true → precedes t u ≡ true → precedes s u ≡ true
unfolding precedes
precedes_trans String.String.[] t u h k = refl
precedes_trans (String.String.◌∷◌ c s) String.String.[] u h k = cc
precedes_trans (String.String.◌∷◌ c s) (String.String.◌∷◌ d t) String.String.[] h k = cc
precedes_trans (String.String.◌∷◌ c s) (String.String.◌∷◌ d t) (String.String.◌∷◌ e u) h k =
    ground (arith, precedes_trans s t u)

precedes_total : (s t : String) → precedes s t ≡ false → precedes t s ≡ true
unfolding precedes
precedes_total String.String.[] t h = cc
precedes_total (String.String.◌∷◌ c s) String.String.[] h = refl
precedes_total (String.String.◌∷◌ c s) (String.String.◌∷◌ d t) h =
    ground (arith, precedes_total s t)

before_trans : (s t u : String) → before s t ≡ true → before t u ≡ true → before s u ≡ true
before_trans s t u h k =
    before-eq s u ∙ precedes_trans s t u (sym (before-eq s t) ∙ h) (sym (before-eq t u) ∙ k)

before_total : (s t : String) → before s t ≡ false → before t s ≡ true
before_total s t h = before-eq t s ∙ precedes_total s t (sym (before-eq s t) ∙ h)

-- Every text is before all that follow it.
abbrev pub IsSorted : List String → Type 0
IsSorted [] = Unit
IsSorted (s ∷ ss) = All (λ t. before s t ≡ true) ss × IsSorted ss

pub IsSorted-keep :
    (test : String → Bool) (ss : List String) → IsSorted ss → IsSorted (keep test ss)
IsSorted-keep test [] h = tt
IsSorted-keep test (s ∷ ss) h = elim (Bool-cases (test s)) [
  | inl e ↦ rw e (All-keep (λ t. before s t ≡ true) test ss h.0, IsSorted-keep test ss h.1)
  | inr e ↦ rw e (IsSorted-keep test ss h.1)
]

All-sort_insert :
    (u s : String) (ts : List String)
    → before u s ≡ true
    → All (λ t. before u t ≡ true) ts
    → All (λ t. before u t ≡ true) (sort_insert s ts)
unfolding sort_insert
All-sort_insert u s [] h k = (h, tt)
All-sort_insert u s (t ∷ ts) h k = elim (Bool-cases (before s t)) [
  | inl e ↦ rw e (h, k)
  | inr e ↦ rw e (k.0, All-sort_insert u s ts h k.1)
]

IsSorted-sort_insert : (s : String) (ts : List String) → IsSorted ts → IsSorted (sort_insert s ts)
unfolding sort_insert
IsSorted-sort_insert s [] h = (tt, tt)
IsSorted-sort_insert s (t ∷ ts) h = elim (Bool-cases (before s t)) [
  | inl e ↦ rw e (
    (
      e,
      All-map (λ u. before t u ≡ true) (λ u. before s u ≡ true) ts (λ u k. before_trans s t u e k)
          h.0,
    ),
    h,
  )
  | inr e ↦ rw e (All-sort_insert t s ts (before_total s t e) h.0, IsSorted-sort_insert s ts h.1)
]

pub IsSorted-sort : (ss : List String) → IsSorted (sort ss)
unfolding sort
IsSorted-sort [] = tt
IsSorted-sort (s ∷ ss) = IsSorted-sort_insert s (sort ss) (IsSorted-sort ss)
