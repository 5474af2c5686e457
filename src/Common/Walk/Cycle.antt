-- ===== src/Common/Walk/Cycle.antt =====
-- The walks that never end: those that enter a cycle.
use Prim.Native.Nat.{ℕ, zero, suc}
use Prim.Native.String.{String}
use mathlib.Core.Path.{◌≡◌}
use mathlib.Core.Bool.{Bool, true, false, ◌||◌}
use mathlib.Core.Option.{none, some}
use mathlib.Core.List.{List, [], ◌∷◌, ◌++◌}
use mathlib.Core.Logic.{inl, inr}
use native.Mathlib.Omega.{arith}
use ldap2pg.Common.Equality.{◌==◌, string_eq, contains, Bool-cases, Option-cases}
use ldap2pg.Common.Seqs.{◌>>=◌, >>=-eq-some, All}
use ldap2pg.Common.Sets.{SetOps, IsLawful}
use ldap2pg.Common.Walk.{Visit, visit_all, walk}

-- Every node that satisfies the predicate has a child that does too.
abbrev pub IsEndless : (String → List String) → (String → Type 0) → Type 0
IsEndless children P = (n : String) → P n → (c : String) × (contains (children n) c ≡ true) × P c

not-All :
    (P : String → Type 0) (c : String) (cs : List String)
    → contains cs c ≡ true
    → P c
    → ¬ All (λ x. ¬ P x) cs
not-All P c [] h p all = cc
not-All P c (x ∷ cs) h p all = elim (string_eq.dec x c) [
  | yes e ↦ all.0 (rw e p)
  | no d ↦ not-All P c cs (ground arith) p all.1
]

module _ (S : SetOps String) (L : IsLawful S) (children : String → List String)
    (P : String → Type 0) (endless : IsEndless children P) where
  abbrev Unseen : S.Carrier → Type 0
  Unseen s = (p : String) → P p → S.has s p ≡ false

  visit_all_spares :
      (visit : Visit S)
      → ((n : String) (s : S.Carrier) (r : List String × S.Carrier)
          → visit n s ≡ some r
          → Unseen s
          → Unseen r.1 × (¬ P n))
      → (cs : List String) (s : S.Carrier) (r : List String × S.Carrier)
      → visit_all S visit cs s ≡ some r
      → Unseen s
      → Unseen r.1 × All (λ c. ¬ P c) cs
  unfolding visit_all
  visit_all_spares visit go [] s r e u =
      let same : s ≡ r.1 = ground arith in (λ p h. rw (← same) (u p h), tt)
  visit_all_spares visit go (c ∷ cs) s r e u =
      let (a, ea, ka) = >>=-eq-some (visit c s) _ e in
      let (b, eb, kb) = >>=-eq-some (visit_all S visit cs a.1) _ ka in
      let (ua, na) = go c s a ea u in
      let (ub, nb) = visit_all_spares visit go cs a.1 b eb ua in
      let same : b.1 ≡ r.1 = ground arith in (λ p h. rw (← same) (ub p h), (na, nb))

  walk_spares :
      (fuel : ℕ) (n : String) (s : S.Carrier) (r : List String × S.Carrier)
      → walk S children fuel n s ≡ some r
      → Unseen s
      → Unseen r.1 × (¬ P n)
  unfolding walk
  walk_spares zero n s r e u = cc
  walk_spares (suc fuel) n s r e u = elim (Bool-cases (S.has s n)) [
    | inl old ↦
        let same : s ≡ r.1 = ground arith in
        (λ p h. rw (← same) (u p h), λ h. absurd (true_false (u n h) old))
    | inr new ↦
        let taken : (visit_all S (walk S children fuel) (children n) s >>= λ (out, seen').
        some (out ++ n ∷ [], S.add seen' n))
            ≡ some r =
          rw new at e in
        let (a, ea, ka) = >>=-eq-some (visit_all S (walk S children fuel) (children n) s) _ taken in
        let (ua, na) =
          visit_all_spares (walk S children fuel) (walk_spares fuel) (children n) s a ea u in
        let acyclic : ¬ P n =
          λ h. let (c, m, hc) = endless n h in not-All P c (children n) m hc na in
        let same : S.add a.1 n ≡ r.1 = ground arith in
        (λ p h. rw (← same, L.has-add) (other n p acyclic h (ua p h)), acyclic)
  ]
    where
      true_false : {b : Bool} → b ≡ false → b ≡ true → ⊥
      true_false p q = cc

      other : (x p : String) {b : Bool} → ¬ P x → P p → b ≡ false → (x == p || b) ≡ false
      other x p no_x h e = elim (string_eq.dec x p) [
        | yes same ↦ absurd (no_x (rw same h))
        | no differ ↦ ground arith
      ]

  -- No fuel is enough to walk from such a root.
  pub walks_endless :
      (fuel : ℕ) (roots : List String) (n : String)
      → contains roots n ≡ true
      → P n
      → visit_all S (walk S children fuel) roots (S.new_set []) ≡ none
  walks_endless fuel roots n m h =
      elim (Option-cases (visit_all S (walk S children fuel) roots (S.new_set []))) [
        | inl e ↦ e
        | inr (r, e) ↦
            let none_seen : Unseen (S.new_set []) = λ p _. L.has-new_set [] p in
            let (_, clean) =
              visit_all_spares (walk S children fuel) (walk_spares fuel) roots (S.new_set []) r e
                none_seen in
            absurd (not-All P n roots m h clean)
      ]
