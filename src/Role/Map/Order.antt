-- ===== src/Role/Map/Order.antt =====
-- The order in which `Flatten` lists the roles.
use ldap2pg.Common.{ℕ, zero, suc, ◌<◌, String, ◌≡◌, refl, true, List, [], ◌∷◌, ◌++◌, ap, subst}
use ldap2pg.Common.{none, some, ◌>>=◌, >>=-cong, string_eq, if◌then◌else◌, contains, All}
use ldap2pg.Common.{Option-cases, inl, inr}
use ldap2pg.Common.Dict.{lookup, keys, lookup_entries, is_some}
use ldap2pg.Common.Sets.{SetOps, IsLawful}
use ldap2pg.Common.Walk.{walk, visit_all}
use ldap2pg.Common.Walk.Listed.{Follows, walks_total}
use ldap2pg.Common.Walk.Within.{walks-All}
use ldap2pg.Role.{Role, Membership}
use ldap2pg.Role.Map.{RoleMap, flatten_parents, flatten_role, flatten_loop, flatten, check}
use ldap2pg.Role.Map.Acyclic.{IsRoleMap}
use ldap2pg.Role.Map.Acyclic.Height.{known, children, own_name, check-Ranks}

-- The name of a role of the map.
abbrev pub InMap : RoleMap → String → Type 0
InMap m n = is_some (lookup n m) ≡ true

module _ (S : SetOps String) (m : RoleMap) (ok : IsRoleMap m) where
  flatten_parents-visit_all :
      (fuel : ℕ) (ms : List Membership) (seen : S.Carrier)
      → ((k : String) (p : Role) (s : S.Carrier)
          → lookup k m ≡ some p
          → flatten_role S fuel m p s ≡ walk S (children m) fuel k s)
      → flatten_parents S (flatten_role S fuel m) m ms seen
        ≡ visit_all S (walk S (children m) fuel) (known m ms) seen
  unfolding flatten_parents visit_all
  flatten_parents-visit_all fuel [] seen same = refl
  flatten_parents-visit_all fuel (x ∷ ms) seen same = elim (Option-cases (lookup x.name m)) [
    | inl absent ↦ rw (absent, known, flatten_parents) (flatten_parents-visit_all fuel ms seen same)
    | inr (p, found) ↦
        rw (found, known, flatten_parents)
          (>>=-cong (same x.name p seen found)
            (λ r. >>=-cong (flatten_parents-visit_all fuel ms r.1 same) (λ _. refl)))
  ]

  flatten_role-walk :
      (fuel : ℕ) (k : String) (r : Role) (seen : S.Carrier)
      → lookup k m ≡ some r
      → flatten_role S fuel m r seen ≡ walk S (children m) fuel k seen
  unfolding flatten_role walk
  flatten_role-walk zero k r seen found = refl
  flatten_role-walk (suc fuel) k r seen found =
      subst (λ j. flatten_role S (suc fuel) m r seen ≡ walk S (children m) (suc fuel) j seen)
        (ok.keyed k r found)
        (rw (own_name m ok k r found, children)
          (ap
            (λ out.
              if S.has seen r.name
              then some ([], seen)
              else (out >>= λ (names, seen'). some (names ++ r.name ∷ [], S.add seen' r.name)))
            (flatten_parents-visit_all fuel r.parents seen
              (λ j p s here. flatten_role-walk fuel j p s here))))

  flatten_loop-visit_all :
      (fuel : ℕ) (rest : RoleMap) (seen : S.Carrier)
      → All (λ (k, r). (contains (keys m) k ≡ true) × (lookup k m ≡ some r)) rest
      → flatten_loop S fuel m rest seen ≡ visit_all S (walk S (children m) fuel) (keys rest) seen
  unfolding flatten_loop visit_all
  flatten_loop-visit_all fuel [] seen listed = refl
  flatten_loop-visit_all fuel ((k, r) ∷ rest) seen ((_, here), listed) =
      >>=-cong (flatten_role-walk fuel k r seen here)
        (λ t. >>=-cong (flatten_loop-visit_all fuel rest t.1 listed) (λ _. refl))

  known-InMap : (ms : List Membership) → All (InMap m) (known m ms)
  known-InMap [] = tt
  known-InMap (x ∷ ms) = elim (Option-cases (lookup x.name m)) [
    | inl absent ↦ rw (absent, known) (known-InMap ms)
    | inr (p, found) ↦ rw (found, known) (rw found, known-InMap ms)
  ]

  children-InMap : (n : String) → InMap m n → All (InMap m) (children m n)
  children-InMap n h = elim (Option-cases (lookup n m)) [
    | inl absent ↦ rw (absent, All) tt
    | inr (r, found) ↦ rw (found, All) (known-InMap r.parents)
  ]

  keys-InMap :
      (rest : RoleMap)
      → All (λ (k, r). (contains (keys m) k ≡ true) × (lookup k m ≡ some r)) rest
      → All (InMap m) (keys rest)
  keys-InMap [] listed = tt
  keys-InMap ((k, r) ∷ rest) ((_, here), listed) = (rw here, keys-InMap rest listed)

  -- Of a map that lists no key twice and each role under its own name, and that `Check` accepts,
  -- `Flatten` lists every role once and behind those of its parents that are roles of the map, and
  -- lists nothing else, with the fuel of the check.
  pub flatten_total :
      IsLawful S
      → (fuel : ℕ) → check fuel m ≡ some none
      → (names : List String) × (flatten S fuel m ≡ some names)
        × Follows (children m) [] names
        × All (λ k. contains names k ≡ true) (keys m)
        × All (InMap m) names
  unfolding flatten
  flatten_total L fuel h =
      let (rank, ranked, low) = check-Ranks m ok fuel h in
      let (t, e, follows, listed) =
        walks_total S L (children m) rank ranked fuel (keys m)
          (lows rank low m (lookup_entries m ok.nodup)) in
      (
        t.0,
        rw (flatten_loop-visit_all fuel m (S.new_set []) (lookup_entries m ok.nodup), e),
        follows,
        listed,
        walks-All S (children m) (InMap m) children-InMap fuel (keys m) (S.new_set []) t e
            (keys-InMap m (lookup_entries m ok.nodup)),
      )
    where
      lows :
          (rank : String → ℕ)
          → ((n : String) (r : Role) → lookup n m ≡ some r → rank n < fuel)
          → (rest : RoleMap)
          → All (λ (k, r). (contains (keys m) k ≡ true) × (lookup k m ≡ some r)) rest
          → All (λ k. rank k < fuel) (keys rest)
      lows rank low [] all = tt
      lows rank low ((k, r) ∷ rest) ((_, here), all) = (low k r here, lows rank low rest all)
