-- ===== src/Wanted/Split.antt =====
-- What `SplitStaticItems` makes of the rules of a step.
use ldap2pg.Common.{
  ◌≡◌, refl, ◌∙◌, ◌⊎◌, inl, inr, Bool, true, not, ◌&&◌, List, [], ◌∷◌, ◌++◌, append-nil,
}
use ldap2pg.Common.{keep, keep-append, collect, All, arith, Bool-cases}
use ldap2pg.Privileges.Rule.{GrantRule, rule_is_static}
use ldap2pg.Wanted.{RoleRule, Step, role_is_static, is_empty, split_static_items}

module _ {ℓ} {A : Type ℓ} (test : A → Bool) where
  keep_same : (xs : List A) → keep test (keep test xs) ≡ keep test xs
  keep_same [] = refl
  keep_same (x ∷ xs) = ground (arith, keep_same xs)

  keep_none : (xs : List A) → keep test (keep (λ x. not (test x)) xs) ≡ []
  keep_none [] = refl
  keep_none (x ∷ xs) = ground (arith, keep_none xs)

  keep_other : (xs : List A) → keep (λ x. not (test x)) (keep test xs) ≡ []
  keep_other [] = refl
  keep_other (x ∷ xs) = ground (arith, keep_other xs)

  keep_rest :
      (xs : List A)
      → keep (λ x. not (test x)) (keep (λ x. not (test x)) xs) ≡ keep (λ x. not (test x)) xs
  keep_rest [] = refl
  keep_rest (x ∷ xs) = ground (arith, keep_rest xs)

  -- What two steps with the parts of a list hold together.
  keep_parts :
      (xs : List A) → keep test (keep (λ x. not (test x)) xs ++ (keep test xs ++ [])) ≡ keep test xs
  keep_parts xs =
      keep-append test (keep (λ x. not (test x)) xs) (keep test xs ++ [])
      ∙ rw (keep_none xs, append-nil (keep test xs)) (keep_same xs)

  keep_other_parts :
      (xs : List A)
      → keep (λ x. not (test x)) (keep (λ x. not (test x)) xs ++ (keep test xs ++ []))
        ≡ keep (λ x. not (test x)) xs
  keep_other_parts xs =
      keep-append (λ x. not (test x)) (keep (λ x. not (test x)) xs) (keep test xs ++ [])
      ∙ rw (append-nil (keep test xs), keep_other xs, keep_rest xs) (append-nil _)

abbrev static_roles : List RoleRule → List RoleRule
static_roles = keep role_is_static

abbrev other_roles : List RoleRule → List RoleRule
other_roles = keep (λ r. not (role_is_static r))

abbrev static_grants : List GrantRule → List GrantRule
static_grants = keep rule_is_static

abbrev other_grants : List GrantRule → List GrantRule
other_grants = keep (λ r. not (rule_is_static r))

-- A step without static rules, or without others.
abbrev pub IsUniform : Step → Type 0
IsUniform s =
    ((static_roles s.role_rules ≡ []) × (static_grants s.grant_rules ≡ []))
    ⊎ ((other_roles s.role_rules ≡ []) × (other_grants s.grant_rules ≡ []))

empty : {A : Type 0} (xs : List A) → is_empty xs ≡ true → xs ≡ []
empty [] h = refl
empty (x ∷ xs) h = cc

both :
    {A B : Type 0} (xs : List A) (ys : List B)
    → (is_empty xs && is_empty ys) ≡ true
    → (xs ≡ []) × (ys ≡ [])
both xs ys h = (empty xs (ground arith), empty ys (ground arith))

abbrev all_roles : List Step → List RoleRule
all_roles = collect (λ i. i.role_rules)

abbrev all_grants : List Step → List GrantRule
all_grants = collect (λ i. i.grant_rules)

-- No step that `SplitStaticItems` returns has static rules and others. Together they have the static
-- rules of the step, of either kind and in their order, and likewise the others.
pub split_static_items_lem :
    (s : Step)
    → All IsUniform (split_static_items s)
      × (static_roles (all_roles (split_static_items s)) ≡ static_roles s.role_rules)
      × (other_roles (all_roles (split_static_items s)) ≡ other_roles s.role_rules)
      × (static_grants (all_grants (split_static_items s)) ≡ static_grants s.grant_rules)
      × (other_grants (all_grants (split_static_items s)) ≡ other_grants s.grant_rules)
unfolding split_static_items
split_static_items_lem s =
    let roles = s.role_rules in
    let grants = s.grant_rules in
    elim (Bool-cases (is_empty (static_roles roles) && is_empty (static_grants grants))) [
      | inl no_static ↦
          rw (no_static, append-nil roles, append-nil grants)
            ((inl (both _ _ no_static), tt), refl, refl, refl, refl)
      | inr static ↦
          elim (Bool-cases (is_empty (other_roles roles) && is_empty (other_grants grants))) [
            | inl no_other ↦
                rw (static, no_other, append-nil roles, append-nil grants)
                  ((inr (both _ _ no_other), tt), refl, refl, refl, refl)
            | inr other ↦
                rw (static, other)
                  (
                    (
                      inl (keep_none role_is_static roles, keep_none rule_is_static grants),
                      (inr (keep_other role_is_static roles, keep_other rule_is_static grants), tt),
                    ),
                    keep_parts role_is_static roles,
                    keep_other_parts role_is_static roles,
                    keep_parts rule_is_static grants,
                    keep_other_parts rule_is_static grants,
                  )
          ]
    ]
