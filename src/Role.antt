-- ===== src/Role.antt =====
-- internal/role: the roles of an instance and those wanted, and the queries that lead from the one
-- to the other (role.go, membership.go, config.go, map.go). Options are in `Role.RoleOptions`.
pub mod RoleOptions
pub mod Create
pub mod Alter
pub mod Map
pub mod Diff
use ldap2pg.Common.{String, ◌<>◌, ◌≡◌, Bool, true, false, not, ◌&&◌, List, [], ◌∷◌, ◌++◌}
use ldap2pg.Common.{Option, none, some, ◌==◌, string_eq, if◌then◌else◌, keep, collect}
use ldap2pg.Common.Dict.{Dict, lookup, insert, get_or, keys}
use ldap2pg.Common.Sets.{SetOps}
use ldap2pg.Postgres.{Args, nil, cons, identifier, text, items, SyncQuery, Database, DbMap}
use RoleOptions.{Options, Columns, diff}

pub record Membership : Type 0 where
  pub grantor : String
  pub name : String

-- A nil `Config` is `none`.
abbrev pub Config : Type 0
Config = Dict String

pub record Role : Type 0 where
  pub name : String
  pub comment : String
  pub parents : List Membership
  pub options : Options
  pub config : Option Config
  pub before_create : String
  pub after_create : String

-- `MemberOf`
abbrev pub is_member : List Membership → String → Bool
is_member [] p = false
is_member (m ∷ ms) p = if p == m.name then true else is_member ms p

abbrev pub member_of : Role → String → Bool
member_of r p = is_member r.parents p

unfoldable pub missing_parents : Role → List Membership → List Membership
missing_parents r o = keep (λ m. not (member_of r m.name)) o

abbrev pub pair : String → String → Args
pair a b = cons (identifier a) (cons (identifier b) nil)

abbrev pub query : String → String → Args → SyncQuery
query description sql args = record {
  description = description;
  database = "";
  query = sql;
  query_args = args;
}

abbrev pub identifiers : List Membership → Args
identifiers [] = nil
identifiers (m ∷ ms) = cons (identifier m.name) (identifiers ms)

abbrev pub alter_options : Columns → Role → Role → List SyncQuery
alter_options columns r wanted =
    let changes = diff columns r.options wanted.options in
    if changes == ""
    then []
    else query "Alter options." ("ALTER ROLE %s WITH " <> changes <> ";")
        (cons (identifier r.name) nil)
      ∷ []

abbrev pub alter_missing : Role → Role → List SyncQuery
alter_missing r wanted = elim (missing_parents r wanted.parents) [
  | [] ↦ []
  | m ∷ ms ↦
      query "Grant missing parents." "GRANT %s TO %s;"
        (cons (items (identifiers (m ∷ ms))) (cons (identifier r.name) nil))
      ∷ []
]

abbrev pub revoke_parent : Role → Membership → SyncQuery
revoke_parent r m =
    query "Revoke spurious parent." "REVOKE %s FROM %s GRANTED BY %s;"
      (cons (identifier m.name) (pair r.name m.grantor))

abbrev pub alter_spurious : Role → Role → List SyncQuery
alter_spurious r wanted = collect (λ m. revoke_parent r m ∷ []) (missing_parents wanted r.parents)

abbrev pub alter_comment : Role → Role → List SyncQuery
alter_comment r wanted =
    if wanted.comment == r.comment
    then []
    else query "Set role comment." "COMMENT ON ROLE %s IS %s;"
        (cons (identifier r.name) (cons (text wanted.comment) nil))
      ∷ []

abbrev pub set_config : Role → String → String → String → String → SyncQuery
set_config r description sql k v =
    query description sql (cons (identifier r.name) (cons (identifier k) (cons (text v) nil)))

module _ (S : SetOps String) (r : Role) (current wanted : Config) where
  -- The body of the loop over the current keys, without `missingKeys.Remove(k)`.
  abbrev pub alter_key : S.Carrier → String → List SyncQuery
  alter_key wanted_keys k =
      if not (S.has wanted_keys k)
      then query "Reset role config." "ALTER ROLE %s RESET %s;" (pair r.name k) ∷ []
      else if get_or wanted k "" == get_or current k ""
      then []
      else set_config r "Update role config." "ALTER ROLE %s SET %s TO %s;" k (get_or wanted k "")
        ∷ []

  -- What the loop leaves of `missingKeys`.
  abbrev pub alter_missing_keys : S.Carrier → List String → S.Carrier → S.Carrier
  alter_missing_keys wanted_keys [] missing = missing
  alter_missing_keys wanted_keys (k ∷ ks) missing =
      alter_missing_keys wanted_keys ks
        (if S.has wanted_keys k then S.remove missing k else missing)

  abbrev pub add_key : String → List SyncQuery
  add_key k =
      set_config r "Set role config." "ALTER ROLE %s SET %s TO %s;" k (get_or wanted k "") ∷ []

  unfoldable pub alter_config : List SyncQuery
  alter_config =
      let current_keys = S.iter (S.new_set (keys current)) in
      let wanted_keys = S.new_set (keys wanted) in
      collect (alter_key wanted_keys) current_keys
      ++ collect add_key (S.iter (alter_missing_keys wanted_keys current_keys wanted_keys))

unfoldable pub alter : SetOps String → Columns → Role → Role → List SyncQuery
unfolding alter_config missing_parents
alter S columns r wanted =
    alter_options columns r wanted
    ++ (alter_missing r wanted
        ++ (alter_spurious r wanted
            ++ (alter_comment r wanted ++ elim wanted.config [
              | none ↦ []
              | some w ↦ alter_config S r (elim r.config [ none ↦ [] | some c ↦ c ]) w
            ])))
