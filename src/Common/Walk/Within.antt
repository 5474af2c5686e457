-- ===== src/Common/Walk/Within.antt =====
-- A walk lists nothing outside of a set of nodes that has its roots and the children of its members.
use Prim.Native.Nat.{ℕ, zero, suc}
use Prim.Native.String.{String}
use mathlib.Core.Path.{◌≡◌, subst}
use mathlib.Core.Option.{some}
use mathlib.Core.List.{List, [], ◌∷◌, ◌++◌}
use mathlib.Core.Logic.{inl, inr}
use native.Mathlib.Omega.{arith}
use ldap2pg.Common.Equality.{Bool-cases}
use ldap2pg.Common.Seqs.{◌>>=◌, >>=-eq-some, All, All-append}
use ldap2pg.Common.Sets.{SetOps}
use ldap2pg.Common.Walk.{Visit, visit_all, walk}

module _ (S : SetOps String) (children : String → List String) (P : String → Type 0)
    (closed : (n : String) → P n → All P (children n)) where
  visit_all-All :
      (visit : Visit S)
      → ((n : String) (s : S.Carrier) (r : List String × S.Carrier)
          → visit n s ≡ some r
          → P n
          → All P r.0)
      → (cs : List String) (s : S.Carrier) (r : List String × S.Carrier)
      → visit_all S visit cs s ≡ some r
      → All P cs
      → All P r.0
  unfolding visit_all
  visit_all-All visit each [] s r e p = let same : [] ≡ r.0 = ground arith in subst (All P) same tt
  visit_all-All visit each (c ∷ cs) s r e p =
      let (a, ea, ka) = >>=-eq-some (visit c s) _ e in
      let (b, eb, kb) = >>=-eq-some (visit_all S visit cs a.1) _ ka in
      let same : a.0 ++ b.0 ≡ r.0 = ground arith in
      subst (All P) same
        (All-append P a.0 b.0 (each c s a ea p.0) (visit_all-All visit each cs a.1 b eb p.1))

  walk-All :
      (fuel : ℕ) (n : String) (s : S.Carrier) (r : List String × S.Carrier)
      → walk S children fuel n s ≡ some r
      → P n
      → All P r.0
  unfolding walk
  walk-All zero n s r e p = cc
  walk-All (suc fuel) n s r e p = elim (Bool-cases (S.has s n)) [
    | inl old ↦ let same : [] ≡ r.0 = ground arith in subst (All P) same tt
    | inr new ↦
        let taken : (visit_all S (walk S children fuel) (children n) s >>= λ (out, seen').
        some (out ++ n ∷ [], S.add seen' n))
            ≡ some r =
          rw new at e in
        let (a, ea, ka) = >>=-eq-some (visit_all S (walk S children fuel) (children n) s) _ taken in
        let same : a.0 ++ n ∷ [] ≡ r.0 = ground arith in
        subst (All P) same (
          All-append P a.0 (n ∷ [])
            (visit_all-All (walk S children fuel) (walk-All fuel) (children n) s a ea (closed n p))
            (p, tt))
  ]

  pub walks-All :
      (fuel : ℕ) (roots : List String) (s : S.Carrier) (r : List String × S.Carrier)
      → visit_all S (walk S children fuel) roots s ≡ some r
      → All P roots
      → All P r.0
  walks-All fuel = visit_all-All (walk S children fuel) (walk-All fuel)
