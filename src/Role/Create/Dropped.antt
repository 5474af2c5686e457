-- ===== src/Role/Create/Dropped.antt =====
-- What `Drop` does to the databases of a role.
use ldap2pg.Common.{
  String, ◌≡◌, ◌≢◌, refl, sym, ◌∙◌, ap, Bool, List, [], ◌∷◌, ◌++◌, append-nil, append_assoc, All,
  map, if◌then◌else◌,
}
use ldap2pg.Common.{◌==◌, string_eq, keep, keep-append, arith, Bool-cases, inl, inr}
use ldap2pg.Common.Dict.{keys}
use ldap2pg.Postgres.{nil, cons, identifier, SyncQuery, Database, DbMap}
use ldap2pg.Role.{Role, query}
use ldap2pg.Role.Create.{drop_loop, terminate, drop_role, drop}

abbrev pub is_reassignment : SyncQuery → Bool
is_reassignment q = q.description == "Reassign objects and purge ACL."

-- What hands the objects of a role in a database over to the owner of the database, and takes its
-- privileges there away.
abbrev pub handover : String → Database → SyncQuery
handover role database = record {
  description = "Reassign objects and purge ACL.";
  database = database.name;
  query = "\n\t\t\tREASSIGN OWNED BY %s TO %s;\n\t\t\tDROP OWNED BY %s;";
  query_args =
      cons (identifier role) (cons (identifier database.owner) (cons (identifier role) nil));
}

abbrev pub owners : DbMap → List String
owners [] = []
owners ((_, database) ∷ m) = database.owner ∷ owners m

abbrev pub handovers : String → DbMap → List SyncQuery
handovers role [] = []
handovers role ((_, database) ∷ m) = handover role database ∷ handovers role m

keep-drop_loop :
    (r : Role) (fallback_owner : String) (m : DbMap)
    → keep is_reassignment (drop_loop r fallback_owner m).0
      ≡ handovers r.name (drop_loop r fallback_owner m).1
unfolding drop_loop string_eq
keep-drop_loop r fallback_owner [] = refl
keep-drop_loop r fallback_owner ((k, database) ∷ m) = elim (Bool-cases (database.owner == r.name)) [
  | inl own ↦ rw (own, keep-drop_loop r fallback_owner m) refl
  | inr foreign ↦ rw (foreign, keep-drop_loop r fallback_owner m) refl
]

keep-drop :
    (r : Role) (fallback_owner : String) (m : DbMap)
    → keep is_reassignment (drop r fallback_owner m).0
      ≡ handovers r.name (drop r fallback_owner m).1
unfolding drop string_eq
keep-drop r fallback_owner m = elim (Bool-cases r.options.can_login) [
  | inl login ↦
      rw
        (
          login,
          keep-append is_reassignment (drop_loop r fallback_owner m).0 _,
          keep-drop_loop r fallback_owner m,
        )
        (append-nil (handovers r.name (drop_loop r fallback_owner m).1))
  | inr locked ↦
      rw
        (
          locked,
          keep-append is_reassignment (drop_loop r fallback_owner m).0 _,
          keep-drop_loop r fallback_owner m,
        )
        (append-nil (handovers r.name (drop_loop r fallback_owner m).1))
]

owners-drop_loop :
    (r : Role) (fallback_owner : String) (m : DbMap)
    → owners (drop_loop r fallback_owner m).1
      ≡ map (λ owner. if owner == r.name then fallback_owner else owner) (owners m)
unfolding drop_loop
owners-drop_loop r fallback_owner [] = refl
owners-drop_loop r fallback_owner ((k, database) ∷ m) =
    elim (Bool-cases (database.owner == r.name)) [
      | inl own ↦ rw (own, owners-drop_loop r fallback_owner m) refl
      | inr foreign ↦ rw (foreign, owners-drop_loop r fallback_owner m) refl
    ]

-- What comes before the last query.
drop-last :
    (r : Role) (fallback_owner : String) (m : DbMap)
    → (before : List SyncQuery) × ((drop r fallback_owner m).0
        ≡ before ++ query "Drop role." "DROP ROLE %s;" (cons (identifier r.name) nil) ∷ [])
unfolding drop
drop-last r fallback_owner m =
    let queries = (drop_loop r fallback_owner m).0 in
    let locked = query "Drop LOGIN." "ALTER ROLE %s NOLOGIN;" (cons (identifier r.name) nil) in
    (
      terminate r ++ (queries ++ locked ∷ []),
      sym (
          append_assoc (terminate r) (queries ++ locked ∷ []) (drop_role r ∷ [])
          ∙ ap (λ qs. terminate r ++ qs) (append_assoc queries (locked ∷ []) (drop_role r ∷ []))),
    )

module _ (r : Role) (fallback_owner : String) (other : fallback_owner ≢ r.name) where
  disowned :
      (m : DbMap) → All (λ (_, database). database.owner ≢ r.name) (drop_loop r fallback_owner m).1
  unfolding drop_loop
  disowned [] = tt
  disowned ((k, database) ∷ m) = elim (Bool-cases (database.owner == r.name)) [
    | inl own ↦ rw own (other, disowned m)
    | inr foreign ↦ rw foreign (ground arith, disowned m)
  ]

  keys_kept : (m : DbMap) → keys (drop_loop r fallback_owner m).1 ≡ keys m
  unfolding drop_loop
  keys_kept [] = refl
  keys_kept ((k, database) ∷ m) = rw (keys_kept m) refl

  -- With another role as the fallback owner: the same databases are known once a role is dropped.
  -- Those that it owned have the fallback owner, the others the owner that they had, so none is owned
  -- by the role. In each database, in their order, what the role owns goes to the owner that the
  -- database has now, never to the role, and its privileges are taken away. The role is dropped by
  -- the last query.
  pub drop_disowns :
      (m : DbMap)
      → (let (queries, databases) = drop r fallback_owner m in
          All (λ (_, database). database.owner ≢ r.name) databases
          × (keys databases ≡ keys m)
          × (owners databases
              ≡ map (λ owner. if owner == r.name then fallback_owner else owner) (owners m))
          × (keep is_reassignment queries ≡ handovers r.name databases)
          × ((before : List SyncQuery) × (queries
                ≡ before
                  ++ query "Drop role." "DROP ROLE %s;" (cons (identifier r.name) nil) ∷ [])))
  unfolding drop
  drop_disowns m = (
    disowned m,
    keys_kept m,
    owners-drop_loop r fallback_owner m,
    keep-drop r fallback_owner m,
    drop-last r fallback_owner m,
  )
