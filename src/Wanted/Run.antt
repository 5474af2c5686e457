-- ===== src/Wanted/Run.antt =====
-- internal/wanted/map.go: the run of the rules. Merging copies settings, as if each role had a map
-- of its own.
pub mod Keyed
pub mod Accepted
use ldap2pg.Common.{
  ℕ, String, Bool, true, false, not, ◌&&◌, List, [], ◌∷◌, ◌++◌, Option, none, some, ◌>>=◌,
}
use ldap2pg.Common.{◌==◌, string_eq, if◌then◌else◌}
use ldap2pg.Common.Dict.{Dict, lookup, get_or, insert, is_some}
use ldap2pg.Common.Sets.{SetOps}
use ldap2pg.Ldap.{Strings}
use ldap2pg.Lists.Blacklist.{match_string}
use ldap2pg.Privileges.{Acls, Privilege, Grant}
use ldap2pg.Role.{Role}
use ldap2pg.Role.Create.{merge}
use ldap2pg.Role.Map.{RoleMap, LoopError, check}
use ldap2pg.Wanted.{
  Step, has_ldap_search, split_static_items, is_empty, generate_roles, generate_all_grants,
}
use ldap2pg.Wanted.Searches.{SearchResult, found, failed, Answer, search}

abbrev pub Rules : Type 0
Rules = List Step

unfoldable pub has_ldap_searches : Rules → Bool
has_ldap_searches [] = false
has_ldap_searches (item ∷ m) =
    let rest = has_ldap_searches m in if has_ldap_search item then true else rest

unfoldable pub split_static_rules : Rules → Rules
unfolding split_static_items
split_static_rules [] = []
split_static_rules (item ∷ m) = split_static_items item ++ split_static_rules m

unfoldable pub drop_grants : Rules → Rules
drop_grants [] = []
drop_grants (item ∷ m) =
    let rest = drop_grants m in
    if not (is_empty item.role_rules) then record item { grant_rules = [] } ∷ rest else rest

-- The errors that `Run` joins.
pub data RunError : Type 0 where
  not_connected : RunError
  search_error : String → RunError
  unknown_role : RunError
  membership_loop : LoopError → RunError

-- The variables of `Run`.
pub record Wants : Type 0 where
  pub roles : RoleMap
  pub grants : Dict (List Grant)
  pub errors : List RunError

-- What one search result yields: an error, or roles and grants.
pub data Yield : Type 0 where
  failure : String → Yield
  yields : List Role → List Grant → Yield

module _ (match : String → String → Option Bool) (blacklist : List String) where
  -- The body of the loop over the roles; `none` is the panic of `MatchString`.
  unfoldable pub add_role : RoleMap → Role → Option RoleMap
  unfolding match_string insert merge
  add_role roles r =
      if r.name == ""
      then some roles
      else (match_string match blacklist r.name >>= λ pattern.
          if not (pattern == "") then some roles else elim (lookup r.name roles) [
            | none ↦ some (insert r.name r roles)
            | some current ↦ some (insert (merge current r).name (merge current r) roles)
          ])

  unfoldable pub add_roles : RoleMap → List Role → Option RoleMap
  unfolding add_role
  add_roles roles [] = some roles
  add_roles roles (r ∷ rs) = add_role roles r >>= λ roles'. add_roles roles' rs

  -- The body of the loop over the grants.
  unfoldable pub add_grant : Wants → Grant → Option Wants
  unfolding match_string insert
  add_grant w g = match_string match blacklist g.grantee >>= λ pattern.
      if not (pattern == "")
      then some w
      else if not (is_some (lookup g.grantee w.roles))
      then some (record w { errors = w.errors ++ unknown_role ∷ [] })
      else some (record w { grants = insert g.acl (get_or w.grants g.acl [] ++ g ∷ []) w.grants })

  unfoldable pub add_grants : Wants → List Grant → Option Wants
  unfolding add_grant
  add_grants w [] = some w
  add_grants w (g ∷ gs) = add_grant w g >>= λ w'. add_grants w' gs

  -- The loops over the items and their results.
  unfoldable pub run_yields : Wants → List Yield → Option Wants
  unfolding add_roles add_grants
  run_yields w [] = some w
  run_yields w (failure e ∷ ys) =
      run_yields (record w { errors = w.errors ++ search_error e ∷ [] }) ys
  run_yields w (yields roles grants ∷ ys) = add_roles w.roles roles >>= λ roles'.
      add_grants (record w { roles = roles' }) grants >>= λ w'. run_yields w' ys

  -- `Run` on what the searches yield. No errors stand for a nil error.
  unfoldable pub run : ℕ → List Yield → Option Wants
  unfolding run_yields check
  run fuel ys = run_yields (record { roles = []; grants = []; errors = [] }) ys >>= λ w.
      check fuel w.roles >>= λ verdict. some (record w {
        errors = w.errors ++ elim verdict [ none ↦ [] | some e ↦ membership_loop e ∷ [] ];
      })

module _ (L : Strings) (S : SetOps String) (fuel : ℕ) (known_rdns : List String) (acls : Acls)
    (profiles : Dict (List Privilege)) (query : String → ℕ → String → List String → Answer) where
  unfoldable pub yield_results : Step → List SearchResult → Option (List Yield)
  unfolding generate_roles generate_all_grants
  yield_results s [] = some []
  yield_results s (failed e ∷ rs) = yield_results s rs >>= λ ys. some (failure e ∷ ys)
  yield_results s (found r ∷ rs) = generate_roles L S fuel known_rdns r s.role_rules >>= λ roles.
      generate_all_grants L S fuel known_rdns acls profiles r s.grant_rules >>= λ grants.
      yield_results s rs >>= λ ys. some (yields roles grants ∷ ys)

  unfoldable pub yield_rules : Rules → Option (List Yield)
  unfolding yield_results search
  yield_rules [] = some []
  yield_rules (s ∷ m) =
      yield_results s (search query s) >>= λ ys. yield_rules m >>= λ more. some (ys ++ more)

  -- `Run`. Without a connection that it needs, it returns the error and nothing else.
  unfoldable pub run_rules :
      (String → String → Option Bool) → List String → Bool → ℕ → Rules → Option Wants
  unfolding yield_rules run has_ldap_searches
  run_rules match blacklist connected check_fuel m =
      if has_ldap_searches m && not connected
      then some (record { roles = []; grants = []; errors = not_connected ∷ [] })
      else (yield_rules m >>= λ ys. run match blacklist check_fuel ys)
