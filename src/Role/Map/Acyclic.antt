-- ===== src/Role/Map/Acyclic.antt =====
-- When `Check` ends.
pub mod Height
use ldap2pg.Common.{
  ℕ, zero, suc, ◌<◌, ◌≤◌, String, ◌≡◌, ◌≢◌, refl, sym, ◌∙◌, Bool, true, false, not, List, [], ◌∷◌,
}
use ldap2pg.Common.{
  Option, none, some, ◌>>=◌, ◌==◌, string_eq, if◌then◌else◌, contains, length, keep, All, arith,
}
use ldap2pg.Common.{Bool-cases, Option-cases, inl, inr}
use ldap2pg.Common.Dict.{Dict, lookup, keys, NodupKeys, contains-keys, lookup_entries, is_some}
use ldap2pg.Role.{Role, Membership}
use ldap2pg.Role.Map.{
  RoleMap, LoopError, loop, wrap, Verdict, next, first_error, head_or, check_parents, check_role,
  check_loop, check,
}

-- No key twice, and each role under its own name, as `Run` and the inspection build them.
pub record IsRoleMap (m : RoleMap) : Type 0 where
  pub nodup : NodupKeys m
  pub keyed : (k : String) (r : Role) → lookup k m ≡ some r → r.name ≡ k

-- How many of the names are not in the genealogy.
abbrev fresh : List String → List String → ℕ
fresh genealogy names = length (keep (λ k. not (contains genealogy k)) names)

fresh-cons_le :
    (g : List String) (k : String) (names : List String) → fresh (k ∷ g) names ≤ fresh g names
fresh-cons_le g k [] = omega arith
fresh-cons_le g k (n ∷ names) = ground (arith, fresh-cons_le g k names)

fresh-cons_lt :
    (g : List String) (k : String) (names : List String)
    → contains g k ≡ false
    → contains names k ≡ true
    → fresh (k ∷ g) names < fresh g names
fresh-cons_lt g k [] h m = cc
fresh-cons_lt g k (n ∷ names) h m = elim (string_eq.dec n k) [
  | yes e ↦ ground (arith, fresh-cons_le g k names)
  | no d ↦ ground (arith, fresh-cons_lt g k names)
]

fresh-le-length : (g names : List String) → fresh g names ≤ length names
fresh-le-length g [] = omega arith
fresh-le-length g (n ∷ names) = ground (arith, fresh-le-length g names)

abbrev Answers : Option Verdict → Type 0
Answers o = (v : Verdict) × (o ≡ some v)

next_total :
    (name : String) (v : Verdict) {o : Option Verdict} → Answers o → Answers (next name v o)
next_total name none a = a
next_total name (some e) a = (some (wrap name e), refl)

check_parents_total :
    (rec : Role → Option Verdict) (m : RoleMap) (name : String) (ms : List Membership)
    → ((k : String) (p : Role) → lookup k m ≡ some p → Answers (rec p))
    → Answers (check_parents rec m name ms)
unfolding check_parents
check_parents_total rec m name [] total = (none, refl)
check_parents_total rec m name (x ∷ ms) total =
    let rest = check_parents_total rec m name ms total in
    elim (Option-cases (lookup x.name m)) [
      | inl absent ↦ (rest.0, ground (arith, rest.1))
      | inr (p, found) ↦
          let (v, e) = total x.name p found in
          let (w, f) = next_total name v rest in (w, ground arith)
    ]

-- With more fuel than names outside of the genealogy, `Role.Check` ends.
check_role_total :
    (m : RoleMap)
    → IsRoleMap m
    → (fuel : ℕ) (g : List String) (r : Role) → contains (keys m) r.name ≡ true
    → fresh g (keys m) < fuel
    → Answers (check_role fuel m g r)
unfolding check_role
check_role_total m ok zero g r listed h = absurd (omega arith)
check_role_total m ok (suc fuel) g r listed h = elim (Bool-cases (contains g r.name)) [
  | inl old ↦ (some (loop (head_or g "") r.name), rw old)
  | inr new ↦
      let (v, e) =
        check_parents_total (check_role fuel m (r.name ∷ g)) m r.name r.parents (λ k p found.
          check_role_total m ok fuel (r.name ∷ g) p
            (rw (ok.keyed k p found) (contains-keys m k ∙ rw found))
            (omega (arith, fresh-cons_lt g r.name (keys m) new listed))) in
      (v, rw new e)
]

first_error_total : (v : Verdict) {o : Option Verdict} → Answers o → Answers (first_error v o)
first_error_total none a = a
first_error_total (some e) a = (some e, refl)

check_loop_total :
    (m : RoleMap)
    → IsRoleMap m
    → (fuel : ℕ) (rest : RoleMap) → length (keys m) < fuel
    → All (λ (k, r). (contains (keys m) k ≡ true) × (lookup k m ≡ some r)) rest
    → Answers (check_loop fuel m rest)
unfolding check_loop
check_loop_total m ok fuel [] h listed = (none, refl)
check_loop_total m ok fuel ((k, r) ∷ rest) h ((c, found), listed) =
    let (v, e) =
      check_role_total m ok fuel [] r (rw (ok.keyed k r found) c)
        (omega (arith, fresh-le-length [] (keys m), h)) in
    let (w, f) = first_error_total v (check_loop_total m ok fuel rest h listed) in (w, rw e f)

-- One more unit of fuel than there are roles is enough for `Map.Check` to end, where the map lists
-- no key twice and each role under its own name.
pub check_total :
    (m : RoleMap)
    → IsRoleMap m
    → (fuel : ℕ) → length (keys m) < fuel
    → (v : Verdict) × (check fuel m ≡ some v)
unfolding check
check_total m ok fuel h = check_loop_total m ok fuel m h (lookup_entries m ok.nodup)
