-- ===== src/Common/Walk/Listed.antt =====
-- The same order told by the list alone, and the walks that never end.
use Prim.Native.Nat.{ℕ, ◌<◌}
use Prim.Native.String.{String}
use mathlib.Core.Path.{◌≡◌, sym, ◌∙◌}
use mathlib.Core.Bool.{true, false}
use mathlib.Core.Option.{some}
use mathlib.Core.List.{List, [], ◌∷◌}
use native.Mathlib.Omega.{arith}
use ldap2pg.Common.Equality.{string_eq, contains}
use ldap2pg.Common.Seqs.{All, All-map}
use ldap2pg.Common.Sets.{SetOps, IsLawful}
use ldap2pg.Common.Walk.{visit_all, walk}
use ldap2pg.Common.Walk.Order.{
  adds, has-adds, IsOrdered, IsRanked, Walked, walk_total, visit_all_total,
}

-- Behind the names in `before`, the list has each name once and behind all its children.
abbrev pub Follows : (String → List String) → List String → List String → Type 0
Follows children before [] = Unit
Follows children before (y ∷ ys) =
    (contains before y ≡ false)
    × All (λ c. contains before c ≡ true) (children y)
    × Follows children (y ∷ before) ys

module _ (S : SetOps String) (L : IsLawful S) (children : String → List String) where
  IsOrdered-Follows :
      (s : S.Carrier) (before ys : List String)
      → ((y : String) → S.has s y ≡ contains before y)
      → IsOrdered S children s ys
      → Follows children before ys
  IsOrdered-Follows s before [] same h = tt
  IsOrdered-Follows s before (y ∷ ys) same h = (
    sym (same y) ∙ h.0,
    All-map (λ c. S.has s c ≡ true) (λ c. contains before c ≡ true) (children y)
        (λ c p. sym (same c) ∙ p) h.1,
    IsOrdered-Follows (S.add s y) (y ∷ before) ys (λ z. ground (arith, L.has-add s y z, same z))
        h.2,
  )

  -- A walk from each root in turn, begun with nothing seen.
  pub walks_total :
      (rank : String → ℕ)
      → IsRanked S children rank
      → (fuel : ℕ) (roots : List String) → All (λ n. rank n < fuel) roots
      → (r : List String × S.Carrier) × (visit_all S (walk S children fuel) roots (S.new_set [])
          ≡ some r)
        × Follows children [] r.0
        × All (λ n. contains r.0 n ≡ true) roots
  walks_total rank ranked fuel roots h =
      let (r, e, w) =
        visit_all_total S children L rank (walk S children fuel) fuel
          (λ n s lt. walk_total S children L rank ranked fuel n s lt) roots (S.new_set []) h in
      (
        r,
        e,
        IsOrdered-Follows (S.new_set []) [] r.0 (L.has-new_set []) w.ordered,
        All-map (λ c. S.has r.1 c ≡ true) (λ n. contains r.0 n ≡ true) roots (λ c p. listed r w c p)
            w.reached,
      )
    where
      listed :
          (r : List String × S.Carrier)
          → Walked S children rank fuel (S.new_set []) roots r
          → (c : String) → S.has r.1 c ≡ true
          → contains r.0 c ≡ true
      listed r w c p =
          let q : S.has (adds S (S.new_set []) r.0) c ≡ true = rw (← w.after) p in
          ground (arith, has-adds S L (S.new_set []) r.0 c, L.has-new_set [] c)
