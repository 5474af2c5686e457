-- ===== src/Config/Roles/Defaults.antt =====
-- How the sanitising of a role rule ends, and the options that it leaves.
use ldap2pg.Common.{ℕ, suc, String, ◌<>◌, ◌≡◌, refl, ◌∙◌, true, List, [], ◌∷◌}
use ldap2pg.Common.{Option, none, some, string_eq, nat_eq, contains, All, map}
use ldap2pg.Common.Dict.{Dict, lookup, get_or, insert, keys, lookup-insert}
use ldap2pg.Common.Int.{pos, decimal}
use ldap2pg.Common.Outcome.{Outcome, ok, error, ◌>>=◌, ◌>>◌, wrap, each}
use ldap2pg.Normalize.{
  Yaml, null, text, bool, int, seq, mapping, texts, mappings, other, of_dict, to_dict, aliases,
  copy, copy_without, list, spurious_keys, string_list,
}
use ldap2pg.Normalize.Keys.{
  Ends, Ends-bind, Ends-map, Ends-wrap, checked_ends, string_list_ends, aliases_ends,
}
use ldap2pg.Config.Roles.{
  option_defaults, rule_defaults, rule_keys, rule_aliases, set_options, membership_value,
  normalize_role_options, normalize_membership, normalize_memberships, normalize_role_map,
  role_rule, normalize_role_rule, duplicate_role_rules,
}

abbrev Fine : {A : Type 0} → Outcome A → Type 0
Fine o = Ends o (λ _. Unit {0})

each_ends :
    {A B : Type 0} (f : ℕ → A → Outcome B) (i : ℕ) (xs : List A)
    → ((i : ℕ) (x : A) → Fine (f i x))
    → Fine (each f i xs)
unfolding each
each_ends f i [] h = tt
each_ends f i (x ∷ xs) h =
    Ends-bind (λ _. Unit {0}) (λ _. Unit {0}) (f i x) _ (h i x)
      (λ y _.
        Ends-bind (λ _. Unit {0}) (λ _. Unit {0}) (each f (suc i) xs) _ (each_ends f (suc i) xs h)
          (λ ys _. tt))

checked-Fine :
    (known : List String) (o : Outcome (Dict Yaml))
    → Fine o
    → Fine (o >>= λ m. spurious_keys known m >> ok m)
checked-Fine known o h =
    Ends-bind (λ _. Unit {0}) (λ _. Unit {0}) o (λ m. spurious_keys known m >> ok m) h
      (λ m _.
        Ends-map _ (λ _. Unit {0}) (spurious_keys known m >> ok m) (λ _ _. tt)
          (checked_ends (λ _. Unit {0}) known m tt))

membership_value_ends : (y : Yaml) → Fine (membership_value y)
membership_value_ends (text s) = tt
membership_value_ends (mapping fs) = tt
membership_value_ends null = tt
membership_value_ends (bool b) = tt
membership_value_ends (int i) = tt
membership_value_ends (seq ys) = tt
membership_value_ends (texts ss) = tt
membership_value_ends (mappings ys) = tt
membership_value_ends (other t) = tt

normalize_membership_ends : (y : Yaml) → Fine (normalize_membership y)
unfolding normalize_membership
normalize_membership_ends y =
    Ends-bind (λ _. Unit {0}) (λ _. Unit {0}) (membership_value y)
      (λ m.
        named (lookup "name" m)
        >> (spurious_keys ("name" ∷ "inherit" ∷ "set" ∷ "admin" ∷ []) m >> ok m))
      (membership_value_ends y)
      (λ m _.
        Ends-bind (λ _. Unit {0}) (λ _. Unit {0}) (named (lookup "name" m))
          (λ _. spurious_keys ("name" ∷ "inherit" ∷ "set" ∷ "admin" ∷ []) m >> ok m)
          (named_ends (lookup "name" m))
          (λ _ _. checked-Fine ("name" ∷ "inherit" ∷ "set" ∷ "admin" ∷ []) (ok m) tt))
  where
    named : Option Yaml → Outcome (Unit {0})
    named o = elim o [ none ↦ error "missing name" | some _ ↦ ok tt ]

    named_ends : (o : Option Yaml) → Ends (named o) (λ _. Unit {0})
    named_ends none = tt
    named_ends (some y) = tt

normalize_memberships_ends : (y : Yaml) → Fine (normalize_memberships y)
unfolding normalize_memberships
normalize_memberships_ends y =
    Ends-bind (λ _. Unit {0}) (λ _. Unit {0}) (each parent 0 (list y)) _
      (each_ends parent 0 (list y)
        (λ i z. Ends-wrap (λ _. Unit {0}) _ (normalize_membership z) (normalize_membership_ends z)))
      (λ ms _. tt)
  where
    parent : ℕ → Yaml → Outcome (Dict Yaml)
    parent i z = wrap ("parents[" <> decimal (pos i) <> "]: ") (normalize_membership z)

normalize_role_options_ends : (y : Yaml) → Fine (normalize_role_options y)
unfolding normalize_role_options
normalize_role_options_ends null = tt
normalize_role_options_ends (text s) =
    checked-Fine (keys option_defaults) (set_options option_defaults (text s)) tt
normalize_role_options_ends (mapping fs) =
    checked-Fine (keys option_defaults) (set_options option_defaults (mapping fs)) tt
normalize_role_options_ends (bool b) = tt
normalize_role_options_ends (int i) = tt
normalize_role_options_ends (seq ys) = tt
normalize_role_options_ends (texts ss) = tt
normalize_role_options_ends (mappings ys) = tt
normalize_role_options_ends (other t) = tt

-- A rule with a list of texts for its names.
abbrev pub HasNames : Dict Yaml → Type 0
HasNames rule = (names : List String) × (lookup "names" rule ≡ some (texts names))

abbrev names_of : Option Yaml → Outcome (List String)
names_of o = elim o [ none ↦ error "missing name" | some y ↦ string_list y ]

names_of-Fine : (o : Option Yaml) → Fine (names_of o)
names_of-Fine none = tt
names_of-Fine (some y) = string_list_ends y

normalize_role_map_ends : (m : Dict Yaml) → Ends (normalize_role_map m) HasNames
unfolding normalize_role_map string_eq
normalize_role_map_ends m =
    Ends-bind (λ _. Unit {0}) HasNames (aliases rule_aliases m) _ (aliases_ends rule_aliases m)
      (λ renamed _.
        Ends-bind (λ _. Unit {0}) HasNames (names_of (lookup "names" (copy rule_defaults renamed)))
          _ (names_of-Fine (lookup "names" (copy rule_defaults renamed)))
          (λ names _.
            let named = insert "names" (texts names) (copy rule_defaults renamed) in
            Ends-bind (λ _. Unit {0}) HasNames (normalize_memberships (get_or named "parents" null))
              _ (normalize_memberships_ends (get_or named "parents" null))
              (λ parents _.
                let parented = insert "parents" parents named in
                Ends-bind (λ _. Unit {0}) HasNames
                  (wrap "options: " (normalize_role_options (get_or parented "options" null)))
                  (λ options. ok (insert "options" (mapping (of_dict options)) parented))
                  (Ends-wrap (λ _. Unit {0}) _ _
                    (normalize_role_options_ends (get_or parented "options" null)))
                  (λ options _. (
                    names,
                    lookup-insert "options" "names" (mapping (of_dict options)) parented
                        ∙ (lookup-insert "parents" "names" parents named
                            ∙ lookup-insert "names" "names" (texts names)
                                (copy rule_defaults renamed)),
                  )))))

role_rule_ends : (y : Yaml) → Ends (role_rule y) HasNames
unfolding string_eq
role_rule_ends (text s) = (s ∷ [], refl)
role_rule_ends (mapping fs) = normalize_role_map_ends (to_dict fs)
role_rule_ends null = tt
role_rule_ends (bool b) = tt
role_rule_ends (int i) = tt
role_rule_ends (seq ys) = tt
role_rule_ends (texts ss) = tt
role_rule_ends (mappings ys) = tt
role_rule_ends (other t) = tt

-- One rule for each name, under `name`, with the other keys as they were.
abbrev pub Singles : Dict Yaml → Type 0
Singles rule =
    (names : List String) × (lookup "names" rule ≡ some (texts names))
    × (duplicate_role_rules rule
        ≡ ok (map (λ name. copy_without "names" (("name", text name) ∷ []) rule) names))

Singles-of : (rule : Dict Yaml) → HasNames rule → Singles rule
unfolding duplicate_role_rules
Singles-of rule (names, e) =
    let e' : get_or rule "names" null ≡ texts names = rw (e, get_or) refl in
    (names, e, rw (e', duplicate_role_rules) refl)

-- Whatever YAML value stands for a role rule, `NormalizeRoleRule` ends with an error, or with a map
-- of known keys only that has a list of texts under `names`; `DuplicateRoleRules` then never
-- panics, and makes one rule of each name.
pub role_rules_total :
    (yaml : Yaml)
    → Ends
        (normalize_role_rule yaml)
        (λ rule. Singles rule × All (λ k. contains rule_keys k ≡ true) (keys rule))
unfolding normalize_role_rule
role_rules_total yaml =
    Ends-bind HasNames _ (role_rule yaml) (λ rule. spurious_keys rule_keys rule >> ok rule)
      (role_rule_ends yaml) (λ rule h. checked_ends Singles rule_keys rule (Singles-of rule h))
