-- ===== src/Role/Map.antt =====
-- internal/role/map.go, and `Role.Check`. Both recursions follow the parents: they take fuel.
pub mod Acyclic
pub mod Order
use ldap2pg.Common.{ℕ, zero, suc, String, ◌≡◌, List, [], ◌∷◌, ◌++◌, Option, none, some, ◌>>=◌}
use ldap2pg.Common.{◌==◌, string_eq, if◌then◌else◌, contains}
use ldap2pg.Common.Dict.{Dict, lookup}
use ldap2pg.Common.Sets.{SetOps}
use ldap2pg.Role.{Role, Membership}

abbrev pub RoleMap : Type 0
RoleMap = Dict Role

-- `membership loop: FIRST is member of NAME`, wrapped in the names of the roles on the way.
pub data LoopError : Type 0 where
  loop : String → String → LoopError
  wrap : String → LoopError → LoopError

-- What a call of `Check` returns: nil, or an error.
abbrev pub Verdict : Type 0
Verdict = Option LoopError

-- `if err != nil { return ... }`: wrap an error, or go on.
abbrev pub next : String → Verdict → Option Verdict → Option Verdict
next name none others = others
next name (some e) others = some (some (wrap name e))

-- The loop over the memberships, over the recursive call.
unfoldable pub check_parents :
    (Role → Option Verdict) → RoleMap → String → List Membership → Option Verdict
check_parents rec m name [] = some none
check_parents rec m name (ms ∷ rest) =
    let others = check_parents rec m name rest in
    elim (lookup ms.name m) [ none ↦ others | some p ↦ rec p >>= λ v. next name v others ]

abbrev pub head_or : List String → String → String
head_or [] d = d
head_or (x ∷ xs) d = x

unfoldable pub check_role : ℕ → RoleMap → List String → Role → Option Verdict
unfolding check_parents
check_role zero m genealogy r = none
check_role (suc fuel) m genealogy r =
    if contains genealogy r.name
    then some (some (loop (head_or genealogy "") r.name))
    else check_parents (check_role fuel m (r.name ∷ genealogy)) m r.name r.parents

abbrev pub first_error : Verdict → Option Verdict → Option Verdict
first_error none others = others
first_error (some e) others = some (some e)

-- `Map.Check`: the first error among the roles.
unfoldable pub check_loop : ℕ → RoleMap → RoleMap → Option Verdict
check_loop fuel m [] = some none
check_loop fuel m ((k, r) ∷ rest) =
    let others = check_loop fuel m rest in check_role fuel m [] r >>= λ v. first_error v others

unfoldable pub check : ℕ → RoleMap → Option Verdict
unfolding check_loop check_role
check fuel m = check_loop fuel m m

module _ (S : SetOps String) where
  abbrev pub Flattened : Type 0
  Flattened = Option (List String × S.Carrier)

  unfoldable pub flatten_parents :
      (Role → S.Carrier → Flattened) → RoleMap → List Membership → S.Carrier → Flattened
  flatten_parents rec m [] seen = some ([], seen)
  flatten_parents rec m (ms ∷ rest) seen = elim (lookup ms.name m) [
    | none ↦ flatten_parents rec m rest seen
    | some parent ↦ rec parent seen >>= λ (names, seen').
        flatten_parents rec m rest seen' >>= λ (more, seen''). some (names ++ more, seen'')
  ]

  unfoldable pub flatten_role : ℕ → RoleMap → Role → S.Carrier → Flattened
  unfolding flatten_parents
  flatten_role zero m r seen = none
  flatten_role (suc fuel) m r seen =
      if S.has seen r.name
      then some ([], seen)
      else (flatten_parents (flatten_role fuel m) m r.parents seen >>= λ (names, seen').
          some (names ++ r.name ∷ [], S.add seen' r.name))

  unfoldable pub flatten_loop : ℕ → RoleMap → RoleMap → S.Carrier → Flattened
  flatten_loop fuel m [] seen = some ([], seen)
  flatten_loop fuel m ((k, r) ∷ rest) seen = flatten_role fuel m r seen >>= λ (names, seen').
      flatten_loop fuel m rest seen' >>= λ (more, seen''). some (names ++ more, seen'')

  unfoldable pub flatten : ℕ → RoleMap → Option (List String)
  unfolding flatten_loop flatten_role
  flatten fuel m = flatten_loop fuel m m (S.new_set []) >>= λ (names, seen). some names
