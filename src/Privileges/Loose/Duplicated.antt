-- ===== src/Privileges/Loose/Duplicated.antt =====
-- What a grant rule becomes: its lists, and the single rules made of them.
use ldap2pg.Common.{
  ℕ, ◌≤◌, String, ◌<>◌, ◌≡◌, refl, ◌∙◌, sym, ap, inl, inr, true, not, List, [], ◌∷◌,
}
use ldap2pg.Common.{
  Option, none, some, ◌==◌, string_eq, contains, All, All-map, Bool-cases, ==_refl, length, keep,
  map,
}
use ldap2pg.Common.Dict.{Dict, lookup, get_or, insert, keys, lookup-insert}
use ldap2pg.Common.Outcome.{ok, wrap}
use ldap2pg.Lists.Product.{product}
use ldap2pg.Lists.Product.Cartesian.{cartesian, product-cartesian}
use ldap2pg.Normalize.{Yaml, null, texts, as_mapping, aliases, copy, spurious_keys, string_list}
use ldap2pg.Normalize.Keys.{
  Ends, Ends-bind, Ends-map, Ends-wrap, string_list_ends, spurious_keys_ends, aliases_ends,
}
use ldap2pg.Privileges.Loose.{
  rule_keys, rule_aliases, rule_defaults, plural_keys, is_empty, or_bad_type, as_texts,
  normalize_lists, normalize_grant_rule, filled_fields, single_rule, duplicate_grant_rules,
}

-- The list under a key, and none for a value that is no list of texts.
abbrev pub texts_of : Dict Yaml → String → List String
texts_of rule k = elim (get_or rule k null) [ texts ss ↦ ss | _ ↦ [] ]

abbrev pub HasTexts : Dict Yaml → String → Type 0
HasTexts rule k = lookup k rule ≡ some (texts (texts_of rule k))

HasTexts-of :
    (rule : Dict Yaml) (k : String) (ss : List String)
    → lookup k rule ≡ some (texts ss)
    → HasTexts rule k
HasTexts-of rule k ss e = e ∙ ap (λ l. some (texts l)) (sym (rw (e, texts_of) refl))

-- The keys with lists that hold something, and one choice of a value from each of these.
abbrev pub fields : Dict Yaml → List (String × List String)
fields rule = keep (λ f. not (is_empty f.1)) (map (λ k. (k, texts_of rule k)) plural_keys)

abbrev pub choices : List (List String) → List (List String)
choices [] = []
choices (l ∷ ls) = cartesian (l ∷ ls)

HasTexts-insert :
    (k : String) (ss : List String) (rule : Dict Yaml) (j : String)
    → HasTexts rule j
    → HasTexts (insert k (texts ss) rule) j
HasTexts-insert k ss rule j h = elim (Bool-cases (k == j)) [
  | inl same ↦ HasTexts-of _ j ss (lookup-insert k j (texts ss) rule ∙ rw same refl)
  | inr differ ↦ HasTexts-of _ j (texts_of rule j) (lookup-insert k j (texts ss) rule ∙ rw differ h)
]

-- Behind the loop over the keys, those that it has gone through have their lists.
normalize_lists_ends :
    (seen ks : List String) (rule : Dict Yaml)
    → All (HasTexts rule) seen
    → Ends (normalize_lists ks rule) (λ rule'. All (HasTexts rule') seen × All (HasTexts rule') ks)
unfolding normalize_lists
normalize_lists_ends seen [] rule h = (h, tt)
normalize_lists_ends seen (k ∷ ks) rule h =
    Ends-bind (λ _. Unit {0}) _ (wrap (k <> ": ") (string_list (get_or rule k null))) _
      (Ends-wrap (λ _. Unit {0}) (k <> ": ") _ (string_list_ends (get_or rule k null)))
      (λ ss _.
        let rule' = insert k (texts ss) rule in
        let here : HasTexts rule' k =
          HasTexts-of rule' k ss (lookup-insert k k (texts ss) rule ∙ rw (==_refl k) refl) in
        Ends-map (λ r. All (HasTexts r) (k ∷ seen) × All (HasTexts r) ks) _
          (normalize_lists ks rule') (λ r p. (p.0.1, (p.0.0, p.1)))
          (normalize_lists_ends (k ∷ seen) ks rule'
            (here, All-map (HasTexts rule) (HasTexts rule') seen (HasTexts-insert k ss rule) h)))

filled_fields_total :
    (ks : List String) (rule : Dict Yaml)
    → All (HasTexts rule) ks
    → filled_fields ks rule
      ≡ ok (keep (λ f. not (is_empty f.1)) (map (λ k. (k, texts_of rule k)) ks))
unfolding filled_fields
filled_fields_total [] rule h = refl
filled_fields_total (k ∷ ks) rule h =
    let here : get_or rule k null ≡ texts (texts_of rule k) = rw (h.0, get_or) refl in
    let here' : as_texts (get_or rule k null) ≡ ok (texts_of rule k) = rw here refl in
    elim (Bool-cases (is_empty (texts_of rule k))) [
      | inl none_there ↦ rw (here', filled_fields_total ks rule h.1, none_there) refl
      | inr some_there ↦ rw (here', filled_fields_total ks rule h.1, some_there) refl
    ]

-- The single rules of a sanitised rule: one for each choice of a value from every list that holds
-- something.
abbrev pub Duplicates : Dict Yaml → Type 0
Duplicates rule =
    (fuel : ℕ)
    → length (choices (map (λ f. f.1) (fields rule))) ≤ fuel
    → duplicate_grant_rules fuel rule
      ≡ ok (map (λ c. single_rule (fields rule) c []) (choices (map (λ f. f.1) (fields rule))))

duplicate_grant_rules_total : (rule : Dict Yaml) → All (HasTexts rule) plural_keys → Duplicates rule
unfolding duplicate_grant_rules product
duplicate_grant_rules_total rule h fuel enough =
    rw (filled_fields_total plural_keys rule h, total (map (λ f. f.1) (fields rule)) enough) refl
  where
    total :
        (ls : List (List String)) → length (choices ls) ≤ fuel → product fuel ls ≡ some (choices ls)
    total [] e = refl
    total (l ∷ ls) e = product-cartesian fuel (l ∷ ls) e

-- Whatever YAML value stands for a grant rule, `NormalizeGrantRule` ends with an error, or with a
-- map that has a list of texts under each of its five keys and no other key. `DuplicateGrantRules`
-- then never panics: with as much fuel as there are choices it ends, and makes one rule for each
-- choice of a value from every list that is not empty.
pub grant_rules_total :
    (yaml : Yaml)
    → Ends (normalize_grant_rule yaml) (λ rule.
      All (HasTexts rule) rule_keys
      × All (λ k. contains rule_keys k ≡ true) (keys rule)
      × Duplicates rule)
unfolding normalize_grant_rule
grant_rules_total yaml =
    Ends-bind (λ _. Unit {0}) _ (or_bad_type (as_mapping yaml)) _ (bad_type (as_mapping yaml))
      (λ m _.
        Ends-bind (λ _. Unit {0}) _ (aliases rule_aliases m) _ (aliases_ends rule_aliases m)
          (λ renamed _.
            Ends-bind (λ r. Unit {0} × All (HasTexts r) rule_keys) _
              (normalize_lists rule_keys (copy rule_defaults renamed)) _
              (normalize_lists_ends [] rule_keys (copy rule_defaults renamed) tt)
              (λ rule h.
                Ends-bind (λ _. All (λ k. contains rule_keys k ≡ true) (keys rule)) _
                  (spurious_keys rule_keys rule) _ (spurious_keys_ends rule_keys rule)
                  (λ _ known. (h.1, known, duplicate_grant_rules_total rule (reorder rule h.1))))))
  where
    bad_type : (o : Option (Dict Yaml)) → Ends (or_bad_type o) (λ _. Unit {0})
    bad_type none = tt
    bad_type (some m) = tt

    reorder : (rule : Dict Yaml) → All (HasTexts rule) rule_keys → All (HasTexts rule) plural_keys
    reorder rule (o, (p, (d, (s, (r, u))))) = (o, (d, (s, (r, (p, tt)))))
