-- ===== src/Inspect/Stage1/Databases.antt =====
-- Which databases the inspection keeps.
use ldap2pg.Common.{ℕ, String, ◌≡◌, refl, inl, inr, true, false, ◌&&◌, ◌||◌, List, [], ◌∷◌, map}
use ldap2pg.Common.{
  none, ◌==◌, string_eq, if◌then◌else◌, contains, All, All-map, arith, Bool-cases, ==_eq,
}
use ldap2pg.Common.Dict.{
  insert, keys, keys-insert, NodupKeys, NodupKeys-insert, All-insert, contains-keys,
}
use ldap2pg.Common.Outcome.{Outcome, ok, error}
use ldap2pg.Common.Sets.{SetOps, IsLawful}
use ldap2pg.Postgres.{Database, DbMap}
use ldap2pg.Inspect.{Instance, Server, row_to_database}
use ldap2pg.Inspect.Rows.{Querier, sql_query, read}
use ldap2pg.Inspect.Stage1.{add_all, find_databases, inspect_managed_databases}

abbrev names : List Database → List String
names = map (λ (d : Database). d.name)

module _ (S : SetOps String) (L : IsLawful S) where
  has-add_all :
      (ns : List String) (s : S.Carrier) (k : String)
      → S.has (add_all S s ns) k ≡ (S.has s k || contains ns k)
  has-add_all [] s k = ground arith
  has-add_all (n ∷ ns) s k = ground (arith, has-add_all ns (S.add s n) k, L.has-add s n k)

  module _ (managed : S.Carrier) where
    -- Under its own name, which is managed.
    abbrev pub IsKept : String × Database → Type 0
    IsKept (k, d) = (d.name ≡ k) × (S.has managed k ≡ true)

    find_databases-IsKept :
        (dbs : List Database) (m : DbMap)
        → NodupKeys m
        → All IsKept m
        → NodupKeys (find_databases S managed dbs m) × All IsKept (find_databases S managed dbs m)
    unfolding find_databases
    find_databases-IsKept [] m u h = (u, h)
    find_databases-IsKept (d ∷ dbs) m u h = elim (Bool-cases (S.has managed d.name)) [
      | inl kept ↦ rw kept (
          find_databases-IsKept dbs (insert d.name d m) (NodupKeys-insert d.name d m u)
            (All-insert IsKept d.name d m (refl, kept) h))
      | inr other ↦ rw other (find_databases-IsKept dbs m u h)
    ]

    keys-find_databases :
        (dbs : List Database) (m : DbMap) (k : String)
        → contains (keys (find_databases S managed dbs m)) k
          ≡ (contains (keys m) k || (contains (names dbs) k && S.has managed k))
    unfolding find_databases
    keys-find_databases [] m k = ground arith
    keys-find_databases (d ∷ dbs) m k = elim (Bool-cases (S.has managed d.name)) [
      | inl kept ↦ rw kept (elim (Bool-cases (d.name == k)) [
        | inl same ↦
            let here : S.has managed k ≡ true = rw (← (==_eq d.name k same)) kept in
            ground (arith, keys-find_databases dbs (insert d.name d m) k, keys-insert d.name d m k)
        | inr differ ↦
            ground (arith, keys-find_databases dbs (insert d.name d m) k, keys-insert d.name d m k)
      ])
      | inr other ↦ rw other (elim (Bool-cases (d.name == k)) [
        | inl same ↦
            let here : S.has managed k ≡ false = rw (← (==_eq d.name k same)) other in
            ground (arith, keys-find_databases dbs m k)
        | inr differ ↦ ground (arith, keys-find_databases dbs m k)
      ])
    ]

  -- What stage 1 makes of the names that are to be managed and the databases there are: the map,
  -- or, where it lacks the database of the session, an error.
  abbrev pub Answers :
      Instance S → List String → List Database → Outcome (Instance S × DbMap) → Type 0
  Answers i ns dbs out =
      (m : DbMap) × NodupKeys m
      × All (λ (k, d). d.name ≡ k) m
      × ((k : String) → contains (keys m) k ≡ (contains (names dbs) k && contains ns k))
      × (out ≡ (
          if contains (keys m) i.default_database
          then ok (record i { managed_databases = add_all S i.managed_databases ns }, m)
          else error "connected to an unmanaged database"))

  pub inspect_managed_databases_lem :
      (fuel : ℕ) (server : Server) (i : Instance S) (q : Querier String) (ns : List String)
      (dbs : List Database)
      → ((k : String) → S.has i.managed_databases k ≡ false)
      → read q fuel ≡ ok (ns, none)
      → read (sql_query row_to_database server.databases) fuel ≡ ok (dbs, none)
      → Answers i ns dbs (inspect_managed_databases S fuel server i q)
  unfolding inspect_managed_databases
  inspect_managed_databases_lem fuel server i q ns dbs empty r r' =
      let managed = add_all S i.managed_databases ns in
      let m = find_databases S managed dbs [] in
      let (u, h) = find_databases-IsKept managed dbs [] tt tt in
      (
        m,
        u,
        All-map (IsKept managed) (λ (k, d). d.name ≡ k) m (λ e p. p.0) h,
        λ k. ground (
          arith,
          keys-find_databases managed dbs [] k,
          has-add_all ns i.managed_databases k,
          empty k,
        ),
        rw (r, r', contains-keys m i.default_database) refl,
      )
