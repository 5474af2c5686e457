-- ===== src/Tree/Order.antt =====
-- The order of the walk, and the maps on which it does not end.
use ldap2pg.Common.{ℕ, ◌<◌, String, ◌≡◌, ◌∙◌, List, [], ◌∷◌, none, some}
use ldap2pg.Common.{true, contains, string_eq, All, arith}
use ldap2pg.Common.Dict.{Dict, keys}
use ldap2pg.Common.Sets.{SetOps, IsLawful}
use ldap2pg.Common.Sort.{sort, contains-sort}
use ldap2pg.Common.Walk.Order.{IsRanked}
use ldap2pg.Common.Walk.Listed.{Follows, walks_total}
use ldap2pg.Common.Walk.Cycle.{IsEndless, walks_endless}
use ldap2pg.Tree.{parents, walk}

module _ (S : SetOps String) (L : IsLawful S) (heritance : Dict (List String)) where
  All-contains :
      (r ks : List String)
      → All (λ n. contains r n ≡ true) ks
      → (k : String) → contains ks k ≡ true
      → contains r k ≡ true
  All-contains r [] h k m = cc
  All-contains r (j ∷ ks) h k m = elim (string_eq.dec j k) [
    | yes e ↦ rw e at h.0
    | no d ↦ All-contains r ks h.1 k (ground arith)
  ]

  -- Where inclusion is acyclic (each parent ranks below its child, each key below the fuel) the
  -- walk ends; it lists each name once and behind all of its parents, and misses no key.
  pub walk_total :
      (rank : String → ℕ)
      → IsRanked S (parents S heritance) rank
      → (fuel : ℕ) → All (λ k. rank k < fuel) (sort (keys heritance))
      → (out : List String) × (walk S heritance fuel ≡ some out)
        × Follows (parents S heritance) [] out
        × ((k : String) → contains (keys heritance) k ≡ true → contains out k ≡ true)
  unfolding walk
  walk_total rank ranked fuel h =
      let (r, e, f, m) =
        walks_total S L (parents S heritance) rank ranked fuel (sort (keys heritance)) h in
      (
        r.0,
        rw e,
        f,
        λ k p. All-contains r.0 (sort (keys heritance)) m k (contains-sort (keys heritance) k ∙ p),
      )

  -- Whatever the fuel, the walk does not end on a map with a key from which inclusion can be
  -- followed for ever.
  pub walk_cyclic :
      (P : String → Type 0)
      → IsEndless (parents S heritance) P
      → (k : String) → contains (keys heritance) k ≡ true
      → P k
      → (fuel : ℕ) → walk S heritance fuel ≡ none
  unfolding walk
  walk_cyclic P endless k m p fuel = rw (
      walks_endless S L (parents S heritance) P endless fuel (sort (keys heritance)) k
        (contains-sort (keys heritance) k ∙ m) p)
