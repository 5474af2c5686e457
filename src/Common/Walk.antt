-- ===== src/Common/Walk.antt =====
-- Depth-first walks that list each node behind its children, with a set of the nodes seen. The
-- walks of the program are instances of it, and take their theorems from here.
pub mod Order
pub mod Listed
pub mod Cycle
pub mod Height
pub mod Within
use Prim.Native.Nat.{ℕ, zero, suc}
use Prim.Native.String.{String}
use mathlib.Core.Option.{Option, none, some}
use mathlib.Core.List.{List, [], ◌∷◌, ◌++◌}
use ldap2pg.Common.Equality.{if◌then◌else◌}
use ldap2pg.Common.Seqs.{◌>>=◌}
use ldap2pg.Common.Sets.{SetOps}

module _ (S : SetOps String) where
  abbrev pub Visit : Type 0
  Visit = String → S.Carrier → Option (List String × S.Carrier)

  -- The loop over the children: visit each with the set that the last one left.
  unfoldable pub visit_all : Visit → List String → S.Carrier → Option (List String × S.Carrier)
  visit_all visit [] seen = some ([], seen)
  visit_all visit (c ∷ cs) seen = visit c seen >>= λ (out, seen').
      visit_all visit cs seen' >>= λ (more, seen''). some (out ++ more, seen'')

  module _ (children : String → List String) where
    unfoldable pub walk : ℕ → Visit
    unfolding visit_all
    walk zero n seen = none
    walk (suc fuel) n seen =
        if S.has seen n
        then some ([], seen)
        else (visit_all (walk fuel) (children n) seen >>= λ (out, seen').
            some (out ++ n ∷ [], S.add seen' n))
