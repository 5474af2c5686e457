-- ===== src/Tree.antt =====
-- internal/tree/walk.go: the names of an inheritance map in topological order.
pub mod Order
use ldap2pg.Common.{ℕ, zero, suc, String, ◌≡◌, List, [], ◌∷◌, ◌++◌, Option, some, ◌>>=◌}
use ldap2pg.Common.{if◌then◌else◌}
use ldap2pg.Common.Dict.{Dict, get_or, keys}
use ldap2pg.Common.Sets.{SetOps}
use ldap2pg.Common.Sort.{sort}
use ldap2pg.Common.Walk

module _ (S : SetOps String) (heritance : Dict (List String)) where
  -- `slices.Sort(parents)` sorts the slice that the map holds, so the loop runs over it sorted.
  abbrev pub parents : String → List String
  parents name = sort (get_or heritance name [])

  -- Recursion on fuel: a cyclic map has no bound on the calls.
  abbrev pub walk_one : ℕ → Walk.Visit S
  walk_one = Walk.walk S parents

  unfoldable pub walk : ℕ → Option (List String)
  walk fuel =
      Walk.visit_all S (walk_one fuel) (sort (keys heritance)) (S.new_set []) >>= λ (out, seen).
      some out
