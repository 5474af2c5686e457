-- ===== src/Role/Alter.antt =====
-- When `Alter` has nothing to send.
pub mod InSync
use ldap2pg.Common.{
  String, ◌≡◌, ◌≢◌, ◌↔◌, refl, sym, ◌∙◌, Bool, true, false, not, ◌&&◌, List, [], ◌∷◌, ◌++◌,
}
use ldap2pg.Common.{
  Option, none, some, ◌==◌, string_eq, if◌then◌else◌, contains, keep, collect, inl, inr, arith,
}
use ldap2pg.Common.{Bool-cases}
use ldap2pg.Common.Dict.{Dict, lookup, get_or, keys, is_some, contains-keys}
use ldap2pg.Common.Sets.{SetOps, IsLawful}
use ldap2pg.Postgres.{SyncQuery}
use ldap2pg.Role.{
  Membership, Config, Role, is_member, member_of, missing_parents, alter_options, alter_missing,
  alter_spurious, alter_comment, alter_key, add_key, alter_missing_keys, alter_config, alter,
}
use ldap2pg.Role.RoleOptions.{Columns, visible_fields, diff}
use ldap2pg.Role.RoleOptions.Changes.{Agree, diff-eq-nil_iff}

pub append-eq-nil {ℓ} : {A : Type ℓ} (xs ys : List A) → xs ++ ys ≡ [] → (xs ≡ []) × (ys ≡ [])
append-eq-nil [] ys h = (refl, h)
append-eq-nil (x ∷ xs) ys h = cc

-- Every membership of the second list names a parent in the first.
abbrev pub Covers : List Membership → List Membership → Type 0
Covers ms os = (p : String) → is_member os p ≡ true → is_member ms p ≡ true

pub keep-Covers :
    (ms os : List Membership) → keep (λ m. not (is_member ms m.name)) os ≡ [] → Covers ms os
keep-Covers ms [] h p e = cc
keep-Covers ms (o ∷ os) h p e = ground (arith, keep-Covers ms os _ p)

is_member_head : (o : Membership) (os : List Membership) → is_member (o ∷ os) o.name ≡ true
is_member_head o os = ground arith

is_member_tail :
    (o : Membership) (os : List Membership) (p : String)
    → is_member os p ≡ true
    → is_member (o ∷ os) p ≡ true
is_member_tail o os p h = ground arith

pub Covers-keep :
    (ms os : List Membership) → Covers ms os → keep (λ m. not (is_member ms m.name)) os ≡ []
Covers-keep ms [] h = refl
Covers-keep ms (o ∷ os) h =
    rw (h o.name (is_member_head o os)) (Covers-keep ms os (λ p e. h p (is_member_tail o os p e)))

collect-eq-nil {ℓ} :
    {B : Type ℓ} (f : String → List B) (xs : List String)
    → collect f xs ≡ []
    → (x : String) → contains xs x ≡ true
    → f x ≡ []
collect-eq-nil f [] h x m = cc
collect-eq-nil f (y ∷ xs) h x m =
    let (here, rest) = append-eq-nil (f y) (collect f xs) h in
    elim (string_eq.dec y x) [
      | yes e ↦ rw e at here
      | no d ↦ collect-eq-nil f xs rest x (ground arith)
    ]

contains_head : (x : String) (xs : List String) → contains (x ∷ xs) x ≡ true
contains_head x xs = ground arith

collect_nil {ℓ} :
    {B : Type ℓ} (f : String → List B) (xs : List String)
    → ((x : String) → contains xs x ≡ true → f x ≡ [])
    → collect f xs ≡ []
collect_nil f [] h = refl
collect_nil f (y ∷ xs) h =
    rw (h y (contains_head y xs)) (collect_nil f xs (λ x m. h x (ground arith)))

nil_of_contains : (xs : List String) → ((x : String) → contains xs x ≡ false) → xs ≡ []
nil_of_contains [] h = refl
nil_of_contains (x ∷ xs) h = cc (h x, contains_head x xs)

module _ (S : SetOps String) (L : IsLawful S) (r : Role) (current wanted : Config) where
  has-alter_missing_keys :
      (wanted_keys : S.Carrier) (ks : List String) (missing : S.Carrier) (k : String)
      → S.has (alter_missing_keys S r current wanted wanted_keys ks missing) k
        ≡ (not (contains ks k && S.has wanted_keys k) && S.has missing k)
  has-alter_missing_keys W [] missing k = refl
  has-alter_missing_keys W (j ∷ ks) missing k = elim (Bool-cases (S.has W j)) [
    | inl on ↦ rw on (
        ground
          (arith, has-alter_missing_keys W ks (S.remove missing j) k, L.has-remove missing j k))
    | inr off ↦ rw off (ground (arith, has-alter_missing_keys W ks missing k))
  ]

  abbrev wanted_keys : S.Carrier
  wanted_keys = S.new_set (keys wanted)

  abbrev current_keys : List String
  current_keys = S.iter (S.new_set (keys current))

  abbrev missing_keys : List String
  missing_keys = S.iter (alter_missing_keys S r current wanted wanted_keys current_keys wanted_keys)

  in_current : (k : String) → contains current_keys k ≡ is_some (lookup k current)
  in_current k = L.contains-iter _ k ∙ L.has-new_set (keys current) k ∙ contains-keys current k

  in_wanted : (k : String) → S.has wanted_keys k ≡ is_some (lookup k wanted)
  in_wanted k = L.has-new_set (keys wanted) k ∙ contains-keys wanted k

  in_missing :
      (k : String)
      → contains missing_keys k ≡ (not (is_some (lookup k current)) && is_some (lookup k wanted))
  in_missing k =
      L.contains-iter _ k
      ∙ has-alter_missing_keys wanted_keys current_keys wanted_keys k
      ∙ rw (in_current k, in_wanted k) (ground arith)

  none_missing :
      (f : String → SyncQuery)
      → collect (λ k. f k ∷ []) missing_keys ≡ []
      → (k : String) → contains missing_keys k ≡ false
  none_missing f h k = elim (Bool-cases (contains missing_keys k)) [
    | inl e ↦ cc (collect-eq-nil (λ j. f j ∷ []) missing_keys h k e)
    | inr e ↦ e
  ]

  -- The queries on the settings are none exactly when both maps have the same entries.
  pub alter_config-eq-nil :
      alter_config S r current wanted ≡ [] → (k : String) → lookup k current ≡ lookup k wanted
  unfolding alter_config
  alter_config-eq-nil h k =
      let (kept, added) =
        append-eq-nil (collect (alter_key S r current wanted wanted_keys) current_keys)
          (collect (add_key S r current wanted) missing_keys) h in
      elim (Bool-cases (contains current_keys k)) [
        | inl on ↦ ground (
          arith,
          in_current k,
          in_wanted k,
          collect-eq-nil (alter_key S r current wanted wanted_keys) current_keys kept k on,
        )
        | inr off ↦ ground (arith, in_current k, in_missing k, none_missing _ added k)
      ]

  pub alter_config_nil :
      ((k : String) → lookup k current ≡ lookup k wanted) → alter_config S r current wanted ≡ []
  unfolding alter_config
  alter_config_nil h = rw (
    collect_nil (alter_key S r current wanted wanted_keys) current_keys
        (λ k m. ground (arith, in_current k, in_wanted k, h k)),
    nil_of_contains missing_keys (λ k. ground (arith, in_missing k, h k)),
  )
