-- ===== src/Wanted.antt =====
-- internal/wanted: the rules of the configuration and the roles that they yield (rules.go, step.go).
pub mod Infer
pub mod Searches
pub mod Run
pub mod Split
use ldap2pg.Common.{
  ℕ, String, ◌≡◌, Bool, true, false, not, ◌&&◌, ◌||◌, List, [], ◌∷◌, ◌++◌, Option, none, some,
  ◌>>=◌,
}
use ldap2pg.Common.{◌==◌, string_eq, if◌then◌else◌, map, keep}
use ldap2pg.Common.Dict.{Dict, get_or}
use ldap2pg.Common.Sets.{SetOps}
use ldap2pg.Lists
use ldap2pg.Ldap.{Strings, Search, Subsearch, Entry, Result, subsearch_attribute, generate_values}
use ldap2pg.Pyfmt.{Format, fields, no_fields, is_static, format}
use ldap2pg.Privileges.{Acls, Privilege, Grant}
use ldap2pg.Privileges.Rule.{GrantRule, rule_is_static, generate_grants}
use ldap2pg.Role.{Role, Membership, Config}
use ldap2pg.Role.RoleOptions.{Options}

pub record MembershipRule : Type 0 where
  pub name : Format

pub record RoleRule : Type 0 where
  pub name : Format
  pub options : Options
  pub comment : Format
  pub parents : List MembershipRule
  pub config : Option Config
  pub before_create : Format
  pub after_create : Format

abbrev parent_formats : List MembershipRule → List Format
parent_formats [] = []
parent_formats (m ∷ ms) = m.name ∷ parent_formats ms

abbrev pub formats : RoleRule → List Format
formats r = r.name ∷ r.comment ∷ r.before_create ∷ r.after_create ∷ parent_formats r.parents

unfoldable pub role_is_static : RoleRule → Bool
unfolding Lists.every
role_is_static r = Lists.every (formats r) is_static

pub record Step : Type 0 where
  pub description : String
  pub ldap_search : Search
  pub role_rules : List RoleRule
  pub grant_rules : List GrantRule

abbrev pub is_empty {ℓ} : {A : Type ℓ} → List A → Bool
is_empty [] = true
is_empty (x ∷ xs) = false

abbrev pub has_ldap_search : Step → Bool
has_ldap_search s = not (is_empty s.ldap_search.attributes)

-- `Step{}.LdapSearch`
abbrev pub zero_search : Search
zero_search = record { base = ""; scope = 0; filter = ""; attributes = []; subsearches = [] }

unfoldable pub split_static_items : Step → List Step
unfolding role_is_static rule_is_static
split_static_items s =
    let static_roles = keep role_is_static s.role_rules in
    let dynamic_roles = keep (λ r. not (role_is_static r)) s.role_rules in
    let static_grants = keep rule_is_static s.grant_rules in
    let dynamic_grants = keep (λ r. not (rule_is_static r)) s.grant_rules in
    if is_empty static_roles && is_empty static_grants
      || is_empty dynamic_roles && is_empty dynamic_grants
    then s ∷ []
    else record {
      description = s.description;
      ldap_search = s.ldap_search;
      role_rules = dynamic_roles;
      grant_rules = dynamic_grants;
    }
      ∷ record {
        description = "";
        ldap_search = zero_search;
        role_rules = static_roles;
        grant_rules = static_grants;
      }
      ∷ []

module _ (L : Strings) (S : SetOps String) (fuel : ℕ) (known_rdns : List String) where
  -- `MembershipRule.Generate`; `none` is the panic of `Format`.
  abbrev pub membership : MembershipRule → Option (Dict String) → Option Membership
  membership m values =
      format L.lower L.upper m.name values >>= λ name. some (record { grantor = ""; name = name })

  unfoldable pub memberships : MembershipRule → List (Dict String) → Option (List Membership)
  unfolding format
  memberships m [] = some []
  memberships m (values ∷ more) =
      membership m (some values) >>= λ p. memberships m more >>= λ ps. some (p ∷ ps)

  unfoldable pub generate_parent : Result → MembershipRule → Option (List Membership)
  unfolding memberships format generate_values
  generate_parent results m =
      let static = membership m none >>= λ p. some (p ∷ []) in
      let dynamic =
        generate_values L S fuel known_rdns results (m.name ∷ []) >>= λ all. memberships m all in
      elim results.entry [
        | none ↦ static
        | some _ ↦ if no_fields (fields m.name) then static else dynamic
      ]

  unfoldable pub generate_parents : Result → List MembershipRule → Option (List Membership)
  unfolding generate_parent
  generate_parents results [] = some []
  generate_parents results (m ∷ ms) =
      generate_parent results m >>= λ ps. generate_parents results ms >>= λ more. some (ps ++ more)

  abbrev pub static_role : RoleRule → List Membership → Role
  static_role r parents = record {
    name = r.name.input;
    comment = r.comment.input;
    parents = parents;
    options = r.options;
    config = r.config;
    before_create = r.before_create.input;
    after_create = r.after_create.input;
  }

  unfoldable pub dynamic_roles :
      RoleRule → List Membership → List (Dict String) → Option (List Role)
  unfolding format
  dynamic_roles r parents [] = some []
  dynamic_roles r parents (values ∷ more) = format L.lower L.upper r.name (some values) >>= λ name.
      format L.lower L.upper r.comment (some values) >>= λ comment.
      format L.lower L.upper r.before_create (some values) >>= λ before.
      format L.lower L.upper r.after_create (some values) >>= λ after.
      dynamic_roles r parents more >>= λ rest. some (
        record {
          name = name;
          comment = comment;
          parents = parents;
          options = r.options;
          config = r.config;
          before_create = before;
          after_create = after;
        }
        ∷ rest)

  -- `RoleRule.Generate`
  unfoldable pub generate_role : Result → RoleRule → Option (List Role)
  unfolding generate_parents dynamic_roles generate_values
  generate_role results r = generate_parents results r.parents >>= λ parents. elim results.entry [
    | none ↦ some (static_role r parents ∷ [])
    | some _ ↦
        generate_values L S fuel known_rdns results
          (r.name ∷ r.comment ∷ r.before_create ∷ r.after_create ∷ [])
        >>= λ all. dynamic_roles r parents all
  ]

  unfoldable pub generate_roles : Result → List RoleRule → Option (List Role)
  unfolding generate_role
  generate_roles results [] = some []
  generate_roles results (r ∷ rs) = generate_role results r >>= λ roles.
      generate_roles results rs >>= λ more. some (roles ++ more)

  unfoldable pub generate_all_grants :
      Acls → Dict (List Privilege) → Result → List GrantRule → Option (List Grant)
  unfolding generate_grants
  generate_all_grants acls profiles results [] = some []
  generate_all_grants acls profiles results (r ∷ rs) =
      generate_grants L S acls profiles fuel known_rdns r results >>= λ grants.
      generate_all_grants acls profiles results rs >>= λ more. some (grants ++ more)
