-- ===== src/Privileges.antt =====
-- internal/privileges: ACLs and the grants on them (acl.go, grant.go, privilege.go). The package's
-- registries `acls`, `managedACLs`, `profiles` and `postgres.Databases` are arguments.
pub mod Format
pub mod Sync
pub mod Rule
pub mod Loose
pub mod Registry
pub mod Inspection
pub mod Expand
use ldap2pg.Common.{
  ℕ, zero, suc, ◌-◌, String, ◌<>◌, ◌≡◌, refl, Bool, true, false, not, ◌&&◌, ◌||◌, List, [], ◌∷◌,
  ◌++◌,
}
use ldap2pg.Common.{
  Option, none, some, ◌>>=◌, ◌==◌, Eq, string_eq, if◌then◌else◌, contains, keep, collect, map,
}
use ldap2pg.Common.Dict.{Dict, lookup, get_or, keys}
use ldap2pg.Common.Sets.{SetOps}
use ldap2pg.Common.Sort.{sort}
use ldap2pg.Common.Text.{contains_text}
use ldap2pg.Postgres.{Schema, Database, DbMap}

-- `rowTo` is a function that reads a row: see `Privileges.Registry`.
pub record Acl : Type 0 where
  pub name : String
  pub scope : String
  pub inspect : String
  pub grant : String
  pub revoke : String

abbrev pub zero_acl : Acl
zero_acl = record { name = ""; scope = ""; inspect = ""; grant = ""; revoke = "" }

abbrev pub Acls : Type 0
Acls = Dict Acl

unfoldable pub uses : Acl → String → Bool
unfolding contains_text
uses a k = contains_text a.grant ("<" <> k <> ">")

pub record Privilege : Type 0 where
  pub type : String
  pub on : String
  pub object : String

pub record Grant : Type 0 where
  pub owner : String
  pub grantee : String
  pub acl : String
  pub type : String
  pub database : String
  pub schema : String
  pub object : String
  pub partial : Bool

string_dec : Discrete String
unfolding string_eq
string_dec = string_eq.dec

grant_dec : Discrete Grant
grant_dec = hlevel string_dec

-- Go compares the structs field by field.
instance unfoldable pub grant_eq : Eq Grant
unfolding grant_dec string_dec
grant_eq = record { dec = grant_dec }

abbrev pub is_wildcard : Grant → Bool
is_wildcard g = not (g.type == "")

abbrev pub instance_wide : Acls → Grant → Bool
instance_wide acls g = (get_or acls g.acl zero_acl).scope == "instance"

-- `if len(out) == 0 { panic(...) }`
abbrev pub nonempty : List Grant → Option (List Grant)
nonempty [] = none
nonempty (g ∷ gs) = some (g ∷ gs)

module _ (acls : Acls) (databases : DbMap) where
  -- The loop over the databases.
  abbrev pub each_database : Grant → String → List String → List Grant
  each_database g database [] = []
  each_database g database (name ∷ names) =
      let rest = each_database g database names in
      if not (name == database) && not (instance_wide acls g)
      then rest
      else record g { database = name } ∷ rest

  unfoldable pub expand_database : Grant → String → Option (List Grant)
  expand_database g database =
      if g.database == "__all__"
      then nonempty (each_database g database (keys databases))
      else if instance_wide acls g || g.database == database
      then some (g ∷ [])
      else some []

unfoldable pub expand_schemas : Grant → List String → List Grant
expand_schemas g schemas =
    if not (g.schema == "__all__")
    then g ∷ []
    else collect (λ name. record g { schema = name } ∷ []) schemas

abbrev pub zero_schema : Schema
zero_schema = record { name = ""; owner = ""; creators = [] }

abbrev pub values {ℓ} : {V : Type ℓ} → Dict V → List V
values [] = []
values ((k, v) ∷ m) = v ∷ values m

module _ (S : SetOps String) where
  -- The creators of the schemas that a default privilege is for, sorted.
  unfoldable pub creators : Database → String → List String
  creators database schema =
      let schemas =
        if schema == ""
        then values database.schemas
        else get_or database.schemas schema zero_schema ∷ [] in
      sort (S.iter (S.new_set (collect (λ s. s.creators) schemas)))

  unfoldable pub expand_owners : Grant → Database → List Grant
  unfolding creators
  expand_owners g database =
      if not (g.owner == "__auto__")
      then g ∷ []
      else if not (database.name == g.database)
      then []
      else collect (λ role. record g { owner = role } ∷ []) (creators database g.schema)

  unfoldable pub expand_databases : Acls → DbMap → String → List Grant → Option (List Grant)
  unfolding expand_database
  expand_databases acls databases name [] = some []
  expand_databases acls databases name (g ∷ gs) = expand_database acls databases g name >>= λ out.
      expand_databases acls databases name gs >>= λ more. some (out ++ more)

  -- `Expand`
  unfoldable pub expand : Acls → DbMap → List Grant → Database → Option (List Grant)
  unfolding expand_databases expand_schemas expand_owners
  expand acls databases grants database =
      expand_databases acls databases database.name grants >>= λ out.
      let schemas = keys database.schemas in
      some (collect (λ g. expand_owners g database) (collect (λ g. expand_schemas g schemas) out))
