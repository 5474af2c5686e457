-- ===== src/Inspect/Stage1/Roles.antt =====
-- Which roles the inspection finds, and which of them it manages.
use ldap2pg.Common.{
  ℕ, String, ◌≡◌, refl, ◌∙◌, inl, inr, Bool, true, false, ◌&&◌, ◌||◌, List, [], ◌∷◌, map,
}
use ldap2pg.Common.{
  Option, none, some, ◌==◌, string_eq, if◌then◌else◌, contains, All, arith, Bool-cases, ==_eq,
}
use ldap2pg.Common.Dict.{
  get_or, insert, keys, keys-insert, NodupKeys, NodupKeys-insert, All-insert, All-lookup,
}
use ldap2pg.Common.Outcome.{ok}
use ldap2pg.Common.Sets.{SetOps}
use ldap2pg.Lists.Blacklist.{IsStrict, check, match_string, match_string_total}
use ldap2pg.Role.{Role}
use ldap2pg.Role.Diff.{zero_role}
use ldap2pg.Role.Map.{RoleMap}
use ldap2pg.Role.Map.Acyclic.{IsRoleMap}
use ldap2pg.Role.RoleOptions.{Columns, process_columns}
use ldap2pg.Inspect.{Instance, Server}
use ldap2pg.Inspect.Rows.{Querier, sql_query, read}
use ldap2pg.Inspect.Stage1.{row_to_role, find_roles, manage_roles, select_managed, inspect_roles}

abbrev names : List Role → List String
names = map (λ (r : Role). r.name)

module _ (match : String → String → Option Bool) (blacklist : List String) where
  -- Whether `MatchString` returns the empty text.
  abbrev pub allowed : String → Bool
  allowed n = elim (match_string match blacklist n) [ none ↦ false | some p ↦ p == "" ]

  allowed_of : (n p : String) → match_string match blacklist n ≡ some p → allowed n ≡ (p == "")
  allowed_of n p e = rw (e, allowed) refl

  -- The entries of the map of all roles.
  abbrev pub IsFound : String × Role → Type 0
  IsFound (k, r) = (r.name ≡ k) × (allowed k ≡ true)

  -- The entries of the map of managed roles.
  abbrev pub IsManaged : RoleMap → String × Role → Type 0
  IsManaged all (k, r) = (r ≡ get_or all k zero_role) × (allowed k ≡ true)

  -- The keys are those there were and, of the names that came, the allowed ones.
  abbrev pub Adds : List String → RoleMap → RoleMap → Type 0
  Adds new m m' =
      (k : String) → contains (keys m') k ≡ (contains (keys m) k || (contains new k && allowed k))

  Adds-cons :
      (n : String) (r : Role) (new : List String) (m m' : RoleMap) (b : Bool)
      → allowed n ≡ b
      → Adds new (if b then insert n r m else m) m'
      → Adds (n ∷ new) m m'
  Adds-cons n r new m m' true a h k = elim (Bool-cases (n == k)) [
    | inl same ↦
        let here : allowed k ≡ true = rw (← (==_eq n k same)) a in
        ground (arith, h k, keys-insert n r m k, here, same)
    | inr other ↦ ground (arith, h k, keys-insert n r m k, other)
  ]
  Adds-cons n r new m m' false a h k = elim (Bool-cases (n == k)) [
    | inl same ↦
        let here : allowed k ≡ false = rw (← (==_eq n k same)) a in ground (arith, h k, here, same)
    | inr other ↦ ground (arith, h k, other)
  ]

  module _ (strict : IsStrict match) (valid : check match blacklist ≡ true) where
    find_roles_total :
        (rs : List Role) (m : RoleMap)
        → NodupKeys m
        → All IsFound m
        → (m' : RoleMap) × (find_roles match blacklist rs m ≡ ok m')
          × NodupKeys m'
          × All IsFound m'
          × Adds (names rs) m m'
    unfolding find_roles
    find_roles_total [] m u h = (m, refl, u, h, λ k. ground arith)
    find_roles_total (r ∷ rs) m u h =
        let (p, e, _) = match_string_total match strict blacklist valid r.name in
        elim (Bool-cases (p == "")) [
          | inl free ↦
              let a : allowed r.name ≡ true = allowed_of _ p e ∙ free in
              let (m', f, u', h', g) =
                find_roles_total rs (insert r.name r m) (NodupKeys-insert r.name r m u)
                  (All-insert IsFound r.name r m (refl, a) h) in
              (m', rw (e, free) f, u', h', Adds-cons r.name r (names rs) m m' true a g)
          | inr hit ↦
              let a : allowed r.name ≡ false = allowed_of _ p e ∙ hit in
              let (m', f, u', h', g) = find_roles_total rs m u h in
              (m', rw (e, hit) f, u', h', Adds-cons r.name r (names rs) m m' false a g)
        ]

    manage_roles_total :
        (all : RoleMap) (ns : List String) (m : RoleMap)
        → NodupKeys m
        → All (IsManaged all) m
        → (m' : RoleMap) × (manage_roles match blacklist all ns m ≡ ok m')
          × NodupKeys m'
          × All (IsManaged all) m'
          × Adds ns m m'
    unfolding manage_roles
    manage_roles_total all [] m u h = (m, refl, u, h, λ k. ground arith)
    manage_roles_total all (n ∷ ns) m u h =
        let (p, e, _) = match_string_total match strict blacklist valid n in
        let r = get_or all n zero_role in
        elim (Bool-cases (p == "")) [
          | inl free ↦
              let a : allowed n ≡ true = allowed_of _ p e ∙ free in
              let (m', f, u', h', g) =
                manage_roles_total all ns (insert n r m) (NodupKeys-insert n r m u)
                  (All-insert (IsManaged all) n r m (refl, a) h) in
              (m', rw (e, free) f, u', h', Adds-cons n r ns m m' true a g)
          | inr hit ↦
              let a : allowed n ≡ false = allowed_of _ p e ∙ hit in
              let (m', f, u', h', g) = manage_roles_total all ns m u h in
              (m', rw (e, hit) f, u', h', Adds-cons n r ns m m' false a g)
        ]

-- The names that the query of managed roles yields; none of them where there is no such query.
abbrev pub Yields : ℕ → Option (Querier String) → List String → Type 0
Yields fuel none ns = Unit
Yields fuel (some q) ns = read q fuel ≡ ok (ns, none)

-- The managed roles are all of them, or the allowed names of the query.
abbrev pub Manages :
    (String → String → Option Bool)
    → List String
    → Option (Querier String)
    → List String
    → RoleMap
    → RoleMap
    → Type 0
Manages match blacklist none ns all managed = managed ≡ all
Manages match blacklist (some q) ns all managed =
    NodupKeys managed
    × All (IsManaged match blacklist all) managed
    × Adds match blacklist ns [] managed

module _ (S : SetOps String) (match : String → String → Option Bool) (strict : IsStrict match) where
  abbrev pub Finds :
      List String → Option (Querier String) → List Role → List String → RoleMap → RoleMap → Type 0
  Finds bl q rs ns all managed =
      IsRoleMap all
      × All (IsFound match bl) all
      × Adds match bl (names rs) [] all
      × Manages match bl q ns all managed

  select_managed_total :
      (fuel : ℕ) (bl : List String) (q : Option (Querier String)) (ns : List String) (all : RoleMap)
      → check match bl ≡ true
      → Yields fuel q ns
      → (managed : RoleMap) × (select_managed match fuel bl all q ≡ ok managed)
        × Manages match bl q ns all managed
  unfolding select_managed
  select_managed_total fuel bl none ns all valid y = (all, refl, refl)
  select_managed_total fuel bl (some q) ns all valid y =
      let (managed, e, u, h, g) = manage_roles_total match bl strict valid all ns [] tt tt in
      (managed, rw (y, e) refl, (u, h, g))

  -- Where no error of `filepath.Match` depends on the name that is matched, `Check` has accepted the
  -- blacklist, and the queries for the columns, the roles and the managed roles, if any, are read
  -- to their end without an error, `InspectRoles` returns. All roles are listed once and each under
  -- its own name, and their names are those of the rows that match no pattern of the blacklist. The
  -- managed roles are the same, where no query names them; else they are the names of that query
  -- that match no pattern, each once and with the role found under it, or the zero role. Nothing
  -- else of the instance changes.
  pub inspect_roles_lem :
      (fuel : ℕ) (global : Columns) (server : Server) (i : Instance S) (q : Option (Querier String))
      (columns : List String) (rs : List Role) (ns : List String)
      → check match i.roles_blacklist ≡ true
      → read (sql_query (λ row. row) server.role_columns) fuel ≡ ok (columns, none)
      → (let processed = process_columns global columns i.me.options.super in
          read (sql_query (row_to_role processed) (server.roles processed.order)) fuel
          ≡ ok (rs, none))
      → Yields fuel q ns
      → (all : RoleMap) × (managed : RoleMap) × (inspect_roles match fuel global server i q
          ≡ ok (
            record i { all_roles = all; managed_roles = managed },
            process_columns global columns i.me.options.super,
          ))
        × Finds i.roles_blacklist q rs ns all managed
  unfolding inspect_roles
  inspect_roles_lem fuel global server i q columns rs ns valid c r y =
      let (all, e, u, h, g) = find_roles_total match i.roles_blacklist strict valid rs [] tt tt in
      let (managed, f, m) = select_managed_total fuel i.roles_blacklist q ns all valid y in
      (
        all,
        managed,
        rw (c, r, e, f) refl,
        (
          record {
            nodup = u;
            keyed = λ k r e. (All-lookup (IsFound match i.roles_blacklist) k r all h e).0;
          },
          h,
          g,
          m,
        ),
      )
