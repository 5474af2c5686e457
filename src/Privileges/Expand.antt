-- ===== src/Privileges/Expand.antt =====
-- What `Expand` leaves of the placeholders in grants.
use ldap2pg.Common.{
  String, ◌≡◌, ◌≢◌, refl, ◌⊎◌, inl, inr, true, not, ◌&&◌, ◌||◌, List, [], ◌∷◌, ◌++◌,
}
use ldap2pg.Common.{some, >>=-eq-some, ◌==◌, string_eq, contains, collect}
use ldap2pg.Common.{All, All-append, All-collect, arith, subst, Bool-cases}
use ldap2pg.Common.Dict.{keys}
use ldap2pg.Common.Sets.{SetOps}
use ldap2pg.Postgres.{Database, DbMap}
use ldap2pg.Privileges.{
  Acls, Grant, instance_wide, nonempty, each_database, expand_database, expand_databases,
  expand_schemas, creators, expand_owners, expand,
}

nonempty_total : (gs : List Grant) → gs ≢ [] → (out : List Grant) × (nonempty gs ≡ some out)
nonempty_total [] h = absurd (h refl)
nonempty_total (g ∷ gs) h = (g ∷ gs, refl)

module _ (acls : Acls) (databases : DbMap) where
  each_database_nonempty :
      (g : Grant) (name : String) (names : List String)
      → contains names name ≡ true
      → each_database acls databases g name names ≢ []
  each_database_nonempty g name [] m = cc
  each_database_nonempty g name (n ∷ names) m = ground (arith, each_database_nonempty g name names)

  expand_database_total :
      (g : Grant) (name : String)
      → contains (keys databases) name ≡ true
      → (out : List Grant) × (expand_database acls databases g name ≡ some out)
  unfolding expand_database
  expand_database_total g name m = elim (Bool-cases (g.database == "__all__")) [
    | inl every ↦ rw every (
        nonempty_total (each_database acls databases g name (keys databases))
          (each_database_nonempty g name (keys databases) m))
    | inr one ↦ elim (Bool-cases (instance_wide acls g || g.database == name)) [
      | inl fits ↦ (g ∷ [], rw (one, fits))
      | inr other ↦ ([], rw (one, other))
    ]
  ]

  -- A grant for one database: the current one, or any of an ACL of the whole instance.
  abbrev pub ForDatabase : String → Grant → Type 0
  ForDatabase name g =
      (g.database ≢ "__all__") × ((instance_wide acls g ≡ true) ⊎ (g.database ≡ name))

  each_database-ForDatabase :
      (g : Grant) (name : String) (names : List String)
      → All (λ n. n ≢ "__all__") names
      → All (ForDatabase name) (each_database acls databases g name names)
  each_database-ForDatabase g name [] h = tt
  each_database-ForDatabase g name (n ∷ names) h =
      elim (Bool-cases (not (n == name) && not (instance_wide acls g))) [
        | inl skip ↦ rw skip (each_database-ForDatabase g name names h.1)
        | inr take ↦ rw take ((h.0, ground arith), each_database-ForDatabase g name names h.1)
      ]

  expand_database-ForDatabase :
      (g : Grant) (name : String) (out : List Grant)
      → All (λ n. n ≢ "__all__") (keys databases)
      → expand_database acls databases g name ≡ some out
      → All (ForDatabase name) out
  unfolding expand_database
  expand_database-ForDatabase g name out named h = elim (Bool-cases (g.database == "__all__")) [
    | inl every ↦
        let same : each_database acls databases g name (keys databases) ≡ out = ground arith in
        subst (All (ForDatabase name)) same
          (each_database-ForDatabase g name (keys databases) named)
    | inr one ↦ elim (Bool-cases (instance_wide acls g || g.database == name)) [
      | inl fits ↦
          let same : g ∷ [] ≡ out = ground arith in
          subst (All (ForDatabase name)) same ((ground arith, ground arith), tt)
      | inr other ↦ let same : [] ≡ out = ground arith in subst (All (ForDatabase name)) same tt
    ]
  ]

module _ (S : SetOps String) (acls : Acls) (databases : DbMap) (database : Database)
    (inspected : contains (keys databases) database.name ≡ true) where
  expand_databases_total :
      (gs : List Grant)
      → (out : List Grant) × (expand_databases S acls databases database.name gs ≡ some out)
  unfolding expand_databases
  expand_databases_total [] = ([], refl)
  expand_databases_total (g ∷ gs) =
      let (out, e) = expand_database_total acls databases g database.name inspected in
      let (more, f) = expand_databases_total gs in (out ++ more, rw (e, f))

  expand_databases-ForDatabase :
      All (λ n. n ≢ "__all__") (keys databases)
      → (gs out : List Grant) → expand_databases S acls databases database.name gs ≡ some out
      → All (ForDatabase acls databases database.name) out
  unfolding expand_databases
  expand_databases-ForDatabase named [] out h =
      let same : [] ≡ out = ground arith in
      subst (All (ForDatabase acls databases database.name)) same tt
  expand_databases-ForDatabase named (g ∷ gs) out h =
      let (a, ea, ka) = >>=-eq-some (expand_database acls databases g database.name) _ h in
      let (b, eb, kb) = >>=-eq-some (expand_databases S acls databases database.name gs) _ ka in
      let same : a ++ b ≡ out = ground arith in
      subst (All (ForDatabase acls databases database.name)) same (
        All-append (ForDatabase acls databases database.name) a b
          (expand_database-ForDatabase acls databases g database.name a named ea)
          (expand_databases-ForDatabase named gs b eb))

  -- No placeholder is left, and the grant is for the database that is being synchronised or of an
  -- ACL of the whole instance.
  pub record IsResolved (g : Grant) : Type 0 where
    pub for_database : ForDatabase acls databases database.name g
    pub schema : g.schema ≢ "__all__"
    pub owner : g.owner ≢ "__auto__"

  abbrev Located : Grant → Type 0
  Located g = ForDatabase acls databases database.name g × (g.schema ≢ "__all__")

  expand_schemas-Located :
      All (λ n. n ≢ "__all__") (keys database.schemas)
      → (g : Grant) → ForDatabase acls databases database.name g
      → All Located (expand_schemas g (keys database.schemas))
  unfolding expand_schemas
  expand_schemas-Located named g f = elim (Bool-cases (g.schema == "__all__")) [
    | inl every ↦ rw every (
        All-collect (λ n. n ≢ "__all__") Located (λ n. record g { schema = n } ∷ [])
          (keys database.schemas) (λ n h. ((f, h), tt)) named)
    | inr one ↦ rw one ((f, ground arith), tt)
  ]

  expand_owners-IsResolved :
      ((schema : String) → All (λ r. r ≢ "__auto__") (creators S database schema))
      → (g : Grant) → Located g
      → All IsResolved (expand_owners S g database)
  unfolding expand_owners
  expand_owners-IsResolved named g (f, s) = elim (Bool-cases (g.owner == "__auto__")) [
    | inr one ↦ rw one (record { for_database = f; schema = s; owner = ground arith }, tt)
    | inl auto ↦ elim (Bool-cases (database.name == g.database)) [
      | inr other ↦ rw (auto, other) tt
      | inl here ↦
          rw (auto, here)
            (All-collect (λ r. r ≢ "__auto__") IsResolved (λ r. record g { owner = r } ∷ [])
              (creators S database g.schema)
              (λ r h. (record { for_database = f; schema = s; owner = h }, tt)) (named g.schema))
    ]
  ]

  -- In an inspected database `Expand` does not panic, and leaves no placeholder: every grant that it
  -- returns is for that database or of an ACL of the whole instance, and names its database, its
  -- schema and its owner, if no database, schema or creator is itself spelled like a placeholder.
  pub expand_resolves :
      All (λ n. n ≢ "__all__") (keys databases)
      → All (λ n. n ≢ "__all__") (keys database.schemas)
      → ((schema : String) → All (λ r. r ≢ "__auto__") (creators S database schema))
      → (gs : List Grant)
      → (out : List Grant) × (expand S acls databases gs database ≡ some out) × All IsResolved out
  unfolding expand
  expand_resolves databases_named schemas_named creators_named gs =
      let (located, e) = expand_databases_total gs in
      let schemas = keys database.schemas in
      let with_schemas = collect (λ g. expand_schemas g schemas) located in
      (
        collect (λ g. expand_owners S g database) with_schemas,
        rw e,
        All-collect Located IsResolved (λ g. expand_owners S g database) with_schemas
            (expand_owners-IsResolved creators_named)
            (All-collect (ForDatabase acls databases database.name) Located
              (λ g. expand_schemas g schemas) located (expand_schemas-Located schemas_named)
              (expand_databases-ForDatabase databases_named gs located e)),
      )
