-- ===== src/Role/Diff/Plan.antt =====
-- Which roles the plan creates and drops, and in which order.
use ldap2pg.Common.{
  ℕ, String, ◌≡◌, refl, ◌∙◌, subst, Bool, true, false, not, ◌&&◌, List, [], ◌∷◌, ◌++◌,
}
use ldap2pg.Common.{none, some, ◌==◌, string_eq, if◌then◌else◌, contains, keep, collect, All}
use ldap2pg.Common.{Bool-cases, Option-cases, inl, inr, append-nil}
use ldap2pg.Common.Dict.{lookup, get_or, keys, is_some}
use ldap2pg.Common.Sets.{SetOps, IsLawful}
use ldap2pg.Common.Walk.Listed.{Follows}
use ldap2pg.Postgres.{SyncQuery, DbMap}
use ldap2pg.Role.RoleOptions.{Columns}
use ldap2pg.Role.Create.{create, drop}
use ldap2pg.Role.Map.{RoleMap, check}
use ldap2pg.Role.Map.Acyclic.{IsRoleMap}
use ldap2pg.Role.Map.Acyclic.Height.{children}
use ldap2pg.Role.Map.Order.{flatten_total, InMap}
use ldap2pg.Role.Diff.{zero_role, want_role, drop_spurious, diff}
use ldap2pg.Role.Diff.Queries.{
  created, dropped, Plans, Plans-append, alter-Plans, create-Plans, drop-Plans,
}

-- A name that is managed, not wanted, not `public`, and of a role of the instance.
abbrev pub spurious : RoleMap → RoleMap → String → Bool
spurious all wanted n =
    not (is_some (lookup n wanted)) && not (n == "public") && is_some (lookup n all)

-- A name that the instance lacks.
abbrev pub missing : RoleMap → String → Bool
missing all n = not (is_some (lookup n all))

module _ (S : SetOps String) (columns : Columns) (all wanted : RoleMap) (owner : String)
    (ok_all : IsRoleMap all) (ok_wanted : IsRoleMap wanted) where
  -- One round of the first loop.
  want_role-Plans :
      (n : String)
      → InMap wanted n
      → Plans (want_role S columns all wanted owner n) (if missing all n then n ∷ [] else []) []
  unfolding want_role
  want_role-Plans n h = elim (Option-cases (lookup n wanted)) [
    | inl absent ↦ absurd (unknown (rw absent at h))
    | inr (r, found) ↦ elim (Option-cases (lookup n all)) [
      | inl new ↦
          let same : get_or wanted n zero_role ≡ r = rw (found, get_or) in
          rw (new, want_role, same)
            (subst (λ k. Plans (create columns r) (k ∷ []) []) (ok_wanted.keyed n r found)
              (create-Plans S columns r))
      | inr (other, old) ↦
          rw (old, want_role) (alter-Plans S columns other (get_or wanted n zero_role))
    ]
  ]
    where
      unknown : false ≡ true → ⊥
      unknown e = cc

  want_roles-Plans :
      (names : List String)
      → All (InMap wanted) names
      → Plans (collect (want_role S columns all wanted owner) names) (keep (missing all) names) []
  want_roles-Plans [] h = record { creates = refl; drops = refl }
  want_roles-Plans (n ∷ names) h =
      let p =
        Plans-append (want_role S columns all wanted owner n)
          (collect (want_role S columns all wanted owner) names) (want_role-Plans n h.0)
          (want_roles-Plans names h.1) in
      elim (Bool-cases (missing all n)) [
        | inl new ↦ rw new (rw new at p)
        | inr old ↦ rw old (rw old at p)
      ]

  drop_spurious-Plans :
      (rest : RoleMap) (databases : DbMap)
      → Plans
          (drop_spurious S columns all wanted owner rest databases).0
          []
          (keep (spurious all wanted) (keys rest))
  unfolding drop_spurious
  drop_spurious-Plans [] databases = record { creates = refl; drops = refl }
  drop_spurious-Plans ((n, _) ∷ rest) databases = elim (Option-cases (lookup n wanted)) [
    | inr (r, keeps) ↦ rw (keeps, drop_spurious) (drop_spurious-Plans rest databases)
    | inl gone ↦ elim (Bool-cases (n == "public")) [
      | inl public ↦ rw (gone, public, drop_spurious) (drop_spurious-Plans rest databases)
      | inr private ↦ elim (Option-cases (lookup n all)) [
        | inl absent ↦
            rw (gone, private, absent, drop_spurious) (drop_spurious-Plans rest databases)
        | inr (r, found) ↦
            rw (gone, private, found, drop_spurious)
              (Plans-append (drop r owner databases).0
                (drop_spurious S columns all wanted owner rest (drop r owner databases).1).0
                (subst (λ k. Plans (drop r owner databases).0 [] (k ∷ [])) (ok_all.keyed n r found)
                  (drop-Plans r owner databases))
                (drop_spurious-Plans rest (drop r owner databases).1))
      ]
    ]
  ]

  -- For role maps that list no key twice and each role under its own name: if `Check` accepts the
  -- wanted roles, the plan exists; it creates exactly the wanted roles that the instance lacks,
  -- each once and behind its wanted parents, and drops exactly the managed roles of the instance
  -- that are not wanted, never `public`.
  pub diff_plan :
      IsLawful S
      → (fuel : ℕ) (managed : RoleMap) (databases : DbMap) → check fuel wanted ≡ some none
      → (names : List String) × (queries : List SyncQuery) × (databases' : DbMap) × (diff S columns
            all wanted owner fuel managed databases
          ≡ some (queries, databases'))
        × Follows (children wanted) [] names
        × All (λ n. contains names n ≡ true) (keys wanted)
        × All (InMap wanted) names
        × (created queries ≡ keep (missing all) names)
        × (dropped queries ≡ keep (spurious all wanted) (keys managed))
  unfolding diff
  diff_plan L fuel managed databases accepted =
      let (names, e, follows, listed, within) = flatten_total S wanted ok_wanted L fuel accepted in
      let spare = drop_spurious S columns all wanted owner managed databases in
      let p =
        Plans-append (collect (want_role S columns all wanted owner) names) spare.0
          (want_roles-Plans names within) (drop_spurious-Plans managed databases) in
      (
        names,
        collect (want_role S columns all wanted owner) names ++ spare.0,
        spare.1,
        rw e,
        follows,
        listed,
        within,
        p.creates ∙ append-nil _,
        p.drops,
      )
