-- ===== src/Role/Diff/Queries.antt =====
-- The roles that a list of queries creates and drops.
use ldap2pg.Common.{String, ◌≡◌, refl, sym, ◌∙◌, List, [], ◌∷◌, ◌++◌}
use ldap2pg.Common.{Option, none, some, ◌==◌, string_eq, if◌then◌else◌, collect, arith}
use ldap2pg.Common.{append_assoc}
use ldap2pg.Common.Dict.{keys}
use ldap2pg.Common.Sets.{SetOps}
use ldap2pg.Postgres.{Args, cons, identifier, SyncQuery, DbMap}
use ldap2pg.Role.{
  Role, Membership, Config, alter, alter_options, alter_missing, alter_spurious, revoke_parent,
  alter_comment, alter_key, add_key, alter_config, missing_parents,
}
use ldap2pg.Role.RoleOptions.{Columns}
use ldap2pg.Role.Create.{
  create, create_role, create_config, hook, drop, drop_loop, reassign_database, terminate,
}

abbrev first_name : Args → List String
first_name (cons (identifier n) rest) = n ∷ []
first_name _ = []

-- The roles that the queries of a description are about.
abbrev pub named : String → SyncQuery → List String
named description q = if q.description == description then first_name q.query_args else []

abbrev pub created : List SyncQuery → List String
created = collect (named "Create role.")

abbrev pub dropped : List SyncQuery → List String
dropped = collect (named "Drop role.")

collect-append {ℓ κ} :
    {A : Type ℓ} {B : Type κ} (f : A → List B) (xs ys : List A)
    → collect f (xs ++ ys) ≡ collect f xs ++ collect f ys
collect-append f [] ys = refl
collect-append f (x ∷ xs) ys =
    rw (collect-append f xs ys) (sym (append_assoc (f x) (collect f xs) (collect f ys)))

-- The roles created and those dropped by the queries, in order.
pub record Plans (qs : List SyncQuery) (cs ds : List String) : Type 0 where
  pub creates : created qs ≡ cs
  pub drops : dropped qs ≡ ds

pub Plans-append :
    (qs ps : List SyncQuery) {us bs cs ds : List String}
    → Plans qs us bs
    → Plans ps cs ds
    → Plans (qs ++ ps) (us ++ cs) (bs ++ ds)
Plans-append qs ps a b = record {
  creates = collect-append (named "Create role.") qs ps ∙ rw (a.creates, b.creates);
  drops = collect-append (named "Drop role.") qs ps ∙ rw (a.drops, b.drops);
}

Plans-collect {ℓ} :
    {A : Type ℓ} (f : A → List SyncQuery) (xs : List A)
    → ((x : A) → Plans (f x) [] [])
    → Plans (collect f xs) [] []
Plans-collect f [] h = (record { creates = refl; drops = refl })
Plans-collect f (x ∷ xs) h = Plans-append (f x) (collect f xs) (h x) (Plans-collect f xs h)

module _ (S : SetOps String) (columns : Columns) where
  alter_config-Plans :
      (r : Role) (current wanted : Config) → Plans (alter_config S r current wanted) [] []
  unfolding alter_config string_eq
  alter_config-Plans r current wanted =
      Plans-append
        (collect (alter_key S r current wanted (S.new_set (keys wanted)))
          (S.iter (S.new_set (keys current))))
        _
        (Plans-collect (alter_key S r current wanted (S.new_set (keys wanted)))
          (S.iter (S.new_set (keys current))) (λ k. ground arith))
        (Plans-collect (add_key S r current wanted) _
          (λ k. (record { creates = refl; drops = refl })))

  -- `Alter` neither creates nor drops.
  pub alter-Plans : (r wanted : Role) → Plans (alter S columns r wanted) [] []
  unfolding alter string_eq
  alter-Plans r wanted =
      Plans-append (alter_options columns r wanted) _ {us = []} {bs = []} (ground arith) (
        Plans-append (alter_missing r wanted) _ {us = []} {bs = []} (ground arith) (
          Plans-append (alter_spurious r wanted) _
            (Plans-collect (λ m. revoke_parent r m ∷ []) (missing_parents wanted r.parents)
              (λ m. (record { creates = refl; drops = refl })))
            (Plans-append (alter_comment r wanted) _ {us = []} {bs = []} (ground arith)
              (settings wanted.config))))
    where
      settings :
          (w : Option Config)
          → Plans
              (elim w [
                | none ↦ []
                | some c ↦ alter_config S r (elim r.config [ none ↦ [] | some d ↦ d ]) c
              ])
              []
              []
      settings none = (record { creates = refl; drops = refl })
      settings (some c) = alter_config-Plans r _ c

  create_config-Plans : (r : Role) (c : Config) → Plans (create_config r c) [] []
  unfolding string_eq
  create_config-Plans r [] = (record { creates = refl; drops = refl })
  create_config-Plans r ((k, v) ∷ c) =
      Plans-append (_ ∷ []) (create_config r c) {us = []} {bs = []}
        (record { creates = refl; drops = refl }) (create_config-Plans r c)

  -- `Create` creates its role and no other.
  pub create-Plans : (r : Role) → Plans (create columns r) (r.name ∷ []) []
  unfolding create string_eq
  create-Plans r =
      Plans-append (hook "Run before create hook." r.before_create) _ {us = []} {bs = []}
        (ground arith)
        (Plans-append (create_role columns r r.parents ∷ []) _ (statement r.parents) (
          Plans-append (_ ∷ []) _ {us = []} {bs = []} (record { creates = refl; drops = refl })
            (Plans-append (elim r.config [ none ↦ [] | some c ↦ create_config r c ]) _
              (settings r.config) (after r.after_create))))
    where
      statement : (ms : List Membership) → Plans (create_role columns r ms ∷ []) (r.name ∷ []) []
      statement [] = (record { creates = refl; drops = refl })
      statement (m ∷ ms) = (record { creates = refl; drops = refl })

      after : (sql : String) → Plans (hook "Run after create hook." sql) [] []
      after sql = ground arith

      settings :
          (c : Option Config) → Plans (elim c [ none ↦ [] | some d ↦ create_config r d ]) [] []
      settings none = (record { creates = refl; drops = refl })
      settings (some c) = create_config-Plans r c

drop_loop-Plans : (r : Role) (owner : String) (m : DbMap) → Plans (drop_loop r owner m).0 [] []
unfolding drop_loop string_eq
drop_loop-Plans r owner [] = (record { creates = refl; drops = refl })
drop_loop-Plans r owner ((k, d) ∷ m) =
    Plans-append (reassign_database r owner d) _ {us = []} {bs = []} (ground arith) (
      Plans-append (_ ∷ []) (drop_loop r owner m).0 {us = []} {bs = []}
        (record { creates = refl; drops = refl }) (drop_loop-Plans r owner m))

-- `Drop` drops its role and no other.
pub drop-Plans : (r : Role) (owner : String) (m : DbMap) → Plans (drop r owner m).0 [] (r.name ∷ [])
unfolding drop string_eq
drop-Plans r owner m = Plans-append (terminate r) _ {us = []} {bs = []} (ground arith) (
    Plans-append (drop_loop r owner m).0 _ (drop_loop-Plans r owner m)
      (record { creates = refl; drops = refl }))
