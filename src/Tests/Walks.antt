-- ===== src/Tests/Walks.antt =====
-- An inheritance map with an order, and one with a loop.
use ldap2pg.Common.{
  ℕ, ◌<◌, String, ◌≡◌, refl, ◌⊎◌, inl, inr, true, List, [], ◌∷◌, none, some, arith,
}
use ldap2pg.Common.{◌==◌, string_eq, if◌then◌else◌, contains, All}
use ldap2pg.Common.Dict.{Dict, keys}
use ldap2pg.Common.Sets.{list_set, list_set-IsLawful}
use ldap2pg.Common.Sort.{sort}
use ldap2pg.Common.Walk.Order.{IsRanked}
use ldap2pg.Common.Walk.Cycle.{IsEndless}
use ldap2pg.Common.Walk.Listed.{Follows}
use ldap2pg.Tree.{parents, walk}
use ldap2pg.Tree.Order.{walk_total, walk_cyclic}

abbrev profiles : Dict (List String)
profiles = ("rw", "ro" ∷ []) ∷ ("ro", []) ∷ []

abbrev rank : String → ℕ
rank n = if n == "rw" then 1 else 0

profiles-IsRanked : IsRanked list_set (parents list_set profiles) rank
unfolding sort string_eq
profiles-IsRanked n = elim (string_eq.dec n "rw") [
  | yes e ↦ rw e (ground arith)
  | no d ↦ elim (string_eq.dec n "ro") [ yes e ↦ rw e tt | no d' ↦ ground arith ]
]

profiles_low : All (λ k. rank k < 2) (sort (keys profiles))
unfolding sort string_eq
profiles_low = ground arith

walk_total_example :
    (out : List String) × (walk list_set profiles 2 ≡ some out)
    × Follows (parents list_set profiles) [] out
    × ((k : String) → contains (keys profiles) k ≡ true → contains out k ≡ true)
walk_total_example =
    walk_total list_set list_set-IsLawful profiles rank profiles-IsRanked 2 profiles_low

abbrev looping : Dict (List String)
looping = ("a", "b" ∷ []) ∷ ("b", "a" ∷ []) ∷ []

abbrev OnLoop : String → Type 0
OnLoop n = (n ≡ "a") ⊎ (n ≡ "b")

looping-IsEndless : IsEndless (parents list_set looping) OnLoop
unfolding sort string_eq
looping-IsEndless n (inl e) = ("b", rw e refl, inr refl)
looping-IsEndless n (inr e) = ("a", rw e refl, inl refl)

a_listed : contains (keys looping) "a" ≡ true
unfolding string_eq
a_listed = refl

walk_cyclic_example : walk list_set looping 100 ≡ none
walk_cyclic_example =
    walk_cyclic list_set list_set-IsLawful looping OnLoop looping-IsEndless "a" a_listed (inl refl)
      100
