-- ===== src/Role/Map/Acyclic/Height.antt =====
-- What `Check` says of a map whose roles can be ranked.
use ldap2pg.Common.{ℕ, zero, suc, ◌<◌, String, ◌≡◌, refl, sym, subst, true, false, List, [], ◌∷◌}
use ldap2pg.Common.{Option, none, some, >>=-eq-some, string_eq, contains, All, All-map, arith}
use ldap2pg.Common.{Bool-cases, Option-cases, inl, inr, length, ◌↔◌}
use ldap2pg.Common.Dict.{lookup, keys, lookup_entries}
use ldap2pg.Common.Walk.Height.{Tall, height, height-lt, height_ranks}
use ldap2pg.Role.{Role, Membership}
use ldap2pg.Role.Map.{
  RoleMap, LoopError, Verdict, next, first_error, check_parents, check_role, check_loop, check,
}
use ldap2pg.Role.Map.Acyclic.{IsRoleMap, check_total}

-- The parents of a role that are roles of the map, in order.
abbrev pub known : RoleMap → List Membership → List String
known m [] = []
known m (x ∷ ms) =
    let rest = known m ms in elim (lookup x.name m) [ none ↦ rest | some _ ↦ x.name ∷ rest ]

abbrev pub children : RoleMap → String → List String
children m n = elim (lookup n m) [ none ↦ [] | some r ↦ known m r.parents ]

-- Each role of the map ranks above those of its parents that are in the map.
abbrev pub Ranks : RoleMap → (String → ℕ) → Type 0
Ranks m rank = (n : String) → All (λ c. rank c < rank n) (children m n)

module _ (m : RoleMap) (ok : IsRoleMap m) where
  check_parents-Tall :
      (rec : Role → Option Verdict) (P : String → Type 0) (name : String) (ms : List Membership)
      → ((k : String) (p : Role) → lookup k m ≡ some p → rec p ≡ some none → P k)
      → check_parents rec m name ms ≡ some none
      → All P (known m ms)
  unfolding check_parents
  check_parents-Tall rec P name [] each h = tt
  check_parents-Tall rec P name (x ∷ ms) each h = elim (Option-cases (lookup x.name m)) [
    | inl absent ↦ rw (absent, known) (check_parents-Tall rec P name ms each (ground arith))
    | inr (p, found) ↦
        rw (found, known)
          (
            each x.name p found (accepted p found),
            check_parents-Tall rec P name ms each (others p found),
          )
  ]
    where
      accepted : (p : Role) → lookup x.name m ≡ some p → rec p ≡ some none
      accepted p found = ground arith

      others : (p : Role) → lookup x.name m ≡ some p → check_parents rec m name ms ≡ some none
      others p found = ground arith

  pub own_name : (k : String) (r : Role) → lookup k m ≡ some r → lookup r.name m ≡ some r
  own_name k r found = subst (λ n. lookup n m ≡ some r) (sym (ok.keyed k r found)) found

  check_role-Tall :
      (fuel : ℕ) (g : List String) (r : Role)
      → lookup r.name m ≡ some r
      → check_role fuel m g r ≡ some none
      → Tall (children m) fuel r.name
  unfolding check_role
  check_role-Tall zero g r found h = cc
  check_role-Tall (suc fuel) g r found h = elim (Bool-cases (contains g r.name)) [
    | inl old ↦ absurd (refused (rw old at h))
    | inr new ↦
        rw (found, All)
          (check_parents-Tall (check_role fuel m (r.name ∷ g)) (Tall (children m) fuel) r.name
            r.parents
            (λ k p here e.
              let named : p.name ≡ k = ok.keyed k p here in
              rw named at (check_role-Tall fuel (r.name ∷ g) p (own_name k p here) e))
            (rw new at h))
  ]
    where
      refused : {e : LoopError} → some (some e) ≡ some none → ⊥
      refused e = cc

  check_loop-Tall :
      (fuel : ℕ) (rest : RoleMap)
      → All (λ (k, r). (contains (keys m) k ≡ true) × (lookup k m ≡ some r)) rest
      → check_loop fuel m rest ≡ some none
      → (n : String) (r : Role) → lookup n rest ≡ some r
      → Tall (children m) fuel n
  unfolding check_loop
  check_loop-Tall fuel [] listed h n r found = cc
  check_loop-Tall fuel ((k, q) ∷ rest) ((_, here), listed) h n r found = elim (string_eq.dec k n) [
    | yes e ↦
        let named : q.name ≡ k = ok.keyed k q here in
        rw (← e, ← named) (check_role-Tall fuel [] q (own_name k q here) (ground arith))
    | no d ↦ check_loop-Tall fuel rest listed (ground arith) n r (ground arith)
  ]

  check-Tall :
      (fuel : ℕ)
      → check fuel m ≡ some none
      → (n : String) (r : Role) → lookup n m ≡ some r
      → Tall (children m) fuel n
  unfolding check
  check-Tall fuel h = check_loop-Tall fuel m (lookup_entries m ok.nodup) h

  -- A map that `Check` accepts has no membership loop: each role can be ranked above its parents,
  -- with the fuel of the check above all ranks.
  pub check-Ranks :
      (fuel : ℕ)
      → check fuel m ≡ some none
      → (rank : String → ℕ) × Ranks m rank
        × ((n : String) (r : Role) → lookup n m ≡ some r → rank n < fuel)
  check-Ranks fuel h = (
    height (children m) fuel,
    λ n. elim (Option-cases (lookup n m)) [
      | inl absent ↦ rw (absent, All) tt
      | inr (r, found) ↦ height_ranks (children m) fuel n (check-Tall fuel h n r found)
    ],
    λ n r found. height-lt (children m) fuel n (check-Tall fuel h n r found),
  )

above-new :
    (rank : String → ℕ) (n : String) (g : List String)
    → All (λ y. rank n < rank y) g
    → contains g n ≡ false
above-new rank n [] h = refl
above-new rank n (x ∷ g) h = elim (string_eq.dec x n) [
  | yes e ↦ let higher : rank n < rank x = h.0 in absurd (omega (arith, rw e at higher))
  | no d ↦ ground (arith, above-new rank n g h.1)
]

module _ (m : RoleMap) (ok : IsRoleMap m) (rank : String → ℕ) (ranked : Ranks m rank) where
  check_parents-accepts :
      (rec : Role → Option Verdict) (n name : String) (ms : List Membership) (v : Verdict)
      → ((k : String) (p : Role)
          → lookup k m ≡ some p
          → rank k < rank n
          → (w : Verdict) → rec p ≡ some w
          → w ≡ none)
      → All (λ c. rank c < rank n) (known m ms)
      → check_parents rec m name ms ≡ some v
      → v ≡ none
  unfolding check_parents
  check_parents-accepts rec n name [] v each low h = ground arith
  check_parents-accepts rec n name (x ∷ ms) v each low h = elim (Option-cases (lookup x.name m)) [
    | inl absent ↦
        check_parents-accepts rec n name ms v each (rw (absent, All) at low) (ground arith)
    | inr (p, found) ↦
        let low' : (rank x.name < rank n) × All (λ c. rank c < rank n) (known m ms) =
          rw (found, All, known) at low in
        let (w, e, k) =
          >>=-eq-some (rec p) (λ u. next name u (check_parents rec m name ms))
            (rw (found, check_parents) at h) in
        let clean : w ≡ none = each x.name p found low'.0 w e in
        check_parents-accepts rec n name ms v each low'.1 (rw clean at k)
  ]

  check_role-accepts :
      (fuel : ℕ) (g : List String) (r : Role) (v : Verdict)
      → lookup r.name m ≡ some r
      → All (λ y. rank r.name < rank y) g
      → check_role fuel m g r ≡ some v
      → v ≡ none
  unfolding check_role
  check_role-accepts zero g r v found above h = cc
  check_role-accepts (suc fuel) g r v found above h =
      check_parents-accepts (check_role fuel m (r.name ∷ g)) r.name r.name r.parents v
        (λ k p here lt w e.
          let named : p.name ≡ k = ok.keyed k p here in
          let lower : rank p.name < rank r.name = rw named lt in
          check_role-accepts fuel (r.name ∷ g) p w (own_name m ok k p here)
            (
              lower,
              All-map (λ y. rank r.name < rank y) (λ y. rank p.name < rank y) g (λ y q. omega arith)
                  above,
            )
            e)
        (rw (found, children) at (ranked r.name)) (rw (above-new rank r.name g above) at h)

  check_loop-accepts :
      (fuel : ℕ) (rest : RoleMap) (v : Verdict)
      → All (λ (k, r). (contains (keys m) k ≡ true) × (lookup k m ≡ some r)) rest
      → check_loop fuel m rest ≡ some v
      → v ≡ none
  unfolding check_loop
  check_loop-accepts fuel [] v listed h = ground arith
  check_loop-accepts fuel ((k, r) ∷ rest) v ((_, here), listed) h =
      let (w, e, f) =
        >>=-eq-some (check_role fuel m [] r) (λ u. first_error u (check_loop fuel m rest)) h in
      let clean : w ≡ none = check_role-accepts fuel [] r w (own_name m ok k r here) tt e in
      check_loop-accepts fuel rest v listed (rw clean at f)

  -- A map whose roles rank above their parents is accepted.
  pub check-accepts : (fuel : ℕ) → length (keys m) < fuel → check fuel m ≡ some none
  unfolding check
  check-accepts fuel h =
      let (v, e) = check_total m ok fuel h in
      let clean : v ≡ none = check_loop-accepts fuel m v (lookup_entries m ok.nodup) e in
      rw clean at e

-- With one more unit of fuel than there are roles, `Check` returns nil exactly for the maps in
-- which all roles can be ranked above their parents: those with no membership loop, where the map
-- lists no key twice and each role under its own name.
pub check_iff :
    (m : RoleMap)
    → IsRoleMap m
    → (fuel : ℕ) → length (keys m) < fuel
    → (check fuel m ≡ some none) ↔ ((rank : String → ℕ) × Ranks m rank)
check_iff m ok fuel h = (
  λ e. let (rank, ranked, _) = check-Ranks m ok fuel e in (rank, ranked),
  λ (rank, ranked). check-accepts m ok rank ranked fuel h,
)
