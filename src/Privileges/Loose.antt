-- ===== src/Privileges/Loose.antt =====
-- The sanitising of the YAML of grant rules, privileges, profiles and ACLs: the functions of
-- internal/privileges (rule.go, privilege.go, profile.go, acl.go) that the configuration calls.
pub mod Duplicated
pub mod Flat
use ldap2pg.Common.{
  ℕ, String, ◌<>◌, Bool, true, false, not, List, [], ◌∷◌, ◌++◌, Option, none, some,
}
use ldap2pg.Common.{◌==◌, string_eq, if◌then◌else◌, contains, keep, map}
use ldap2pg.Common.Dict.{Dict, lookup, get_or, insert, erase}
use ldap2pg.Common.Outcome.{Outcome, ok, error, panic, spent, ◌>>=◌, ◌>>◌, or_panic, or_spent, wrap}
use ldap2pg.Common.Text.{trim_suffix}
use ldap2pg.Lists.Product.{product}
use ldap2pg.Normalize.{
  Yaml, null, text, seq, mapping, texts, Items, nil, item, Fields, end, field, to_list, of_list,
  to_dict, of_dict, as_mapping, aliases, spurious_keys, copy, copy_without, list, string_list,
}

abbrev pub or_bad_type : Option (Dict Yaml) → Outcome (Dict Yaml)
or_bad_type none = error "bad type"
or_bad_type (some m) = ok m

abbrev pub rule_defaults : Dict Yaml
rule_defaults =
    ("owners", text "__auto__") ∷ ("schemas", text "__all__") ∷ ("databases", text "__all__") ∷ []

abbrev pub rule_aliases : List (String × String)
rule_aliases =
    ("owners", "owner")
    ∷ ("privileges", "privilege")
    ∷ ("databases", "database")
    ∷ ("schemas", "schema")
    ∷ ("roles", "to")
    ∷ ("roles", "grantee")
    ∷ ("roles", "role")
    ∷ []

abbrev pub rule_keys : List String
rule_keys = "owners" ∷ "privileges" ∷ "databases" ∷ "schemas" ∷ "roles" ∷ []

-- The loop over the keys.
unfoldable pub normalize_lists : List String → Dict Yaml → Outcome (Dict Yaml)
unfolding string_list insert
normalize_lists [] rule = ok rule
normalize_lists (k ∷ ks) rule = wrap (k <> ": ") (string_list (get_or rule k null)) >>= λ ss.
    normalize_lists ks (insert k (texts ss) rule)

-- `NormalizeGrantRule`
unfoldable pub normalize_grant_rule : Yaml → Outcome (Dict Yaml)
unfolding aliases copy normalize_lists spurious_keys
normalize_grant_rule yaml = do
  yaml_map ← or_bad_type (as_mapping yaml)
  renamed ← aliases rule_aliases yaml_map
  rule ← normalize_lists rule_keys (copy rule_defaults renamed)
  spurious_keys rule_keys rule
  ok rule

-- `yaml[s].([]string)`
abbrev pub as_texts : Yaml → Outcome (List String)
as_texts (texts ss) = ok ss
as_texts _ = panic

abbrev pub plural_keys : List String
plural_keys = "owners" ∷ "databases" ∷ "schemas" ∷ "roles" ∷ "privileges" ∷ []

abbrev pub is_empty : List String → Bool
is_empty [] = true
is_empty (_ ∷ _) = false

-- The keys whose lists hold something, with these lists.
unfoldable pub filled_fields : List String → Dict Yaml → Outcome (List (String × List String))
filled_fields [] yaml = ok []
filled_fields (k ∷ ks) yaml = as_texts (get_or yaml k null) >>= λ ss.
    filled_fields ks yaml >>= λ rest. ok (if is_empty ss then rest else (k, ss) ∷ rest)

-- `rule[strings.TrimSuffix(k, "s")] = combination[i]`
unfoldable pub single_rule : List (String × List String) → List String → Dict Yaml → Dict Yaml
unfolding insert trim_suffix
single_rule ((k, _) ∷ fields) (v ∷ combination) rule =
    single_rule fields combination (insert (trim_suffix k "s") (text v) rule)
single_rule _ _ rule = rule

-- `DuplicateGrantRules`
unfoldable pub duplicate_grant_rules : ℕ → Dict Yaml → Outcome (List (Dict Yaml))
unfolding filled_fields product single_rule
duplicate_grant_rules fuel yaml = do
  fields ← filled_fields plural_keys yaml
  combinations ← or_spent (product fuel (map (λ (f : String × List String). f.1) fields))
  ok (map (λ c. single_rule fields c []) combinations)

-- `NormalizeACLs`
unfoldable pub check_acls : Dict Yaml → Outcome (Unit {0})
unfolding spurious_keys
check_acls [] = ok tt
check_acls ((k, v) ∷ m) = elim (as_mapping v) [
  | none ↦ error (k <> ": must be a map")
  | some acl ↦
      wrap (k <> ": ") (spurious_keys ("scope" ∷ "inspect" ∷ "grant" ∷ "revoke" ∷ []) acl)
      >> check_acls m
]

unfoldable pub normalize_acls : Yaml → Outcome Yaml
unfolding check_acls
normalize_acls yaml = elim (as_mapping yaml) [
  | none ↦ error "must be a map"
  | some m ↦ check_acls m >> ok yaml
]

-- `m["default"].(string)`, and the empty text for anything else.
abbrev text_or_empty : Yaml → String
text_or_empty (text s) = s
text_or_empty _ = ""

-- `strings.ToUpper` is a parameter.
module _ (upper : String → String) where
  unfoldable pub rename_default : Dict Yaml → Dict Yaml
  unfolding insert erase
  rename_default m =
      let def = text_or_empty (get_or m "default" null) in
      if def == ""
      then m
      else erase "default"
          (insert "on" (text (upper def <> " DEFAULT")) (insert "object" (get_or m "type" null) m))

  -- `NormalizePrivilege`
  unfoldable pub normalize_privilege : Yaml → Outcome (Dict Yaml)
  unfolding rename_default aliases list spurious_keys
  normalize_privilege raw = do
    m ← or_bad_type (as_mapping raw)
    renamed ← aliases (("types", "type") ∷ []) (rename_default m)
    let listed = insert "types" (seq (of_list (list (get_or renamed "types" null)))) renamed
    spurious_keys ("types" ∷ "on" ∷ "object" ∷ []) listed
    ok listed

abbrev as_seq : Yaml → Outcome (List Yaml)
as_seq (seq ys) = ok (to_list ys)
as_seq _ = panic

-- `DuplicatePrivilege`
unfoldable pub duplicate_privilege : Dict Yaml → Outcome (List Yaml)
unfolding copy_without
duplicate_privilege yaml = as_seq (get_or yaml "types" null) >>= λ types.
    ok (map (λ t. mapping (of_dict (copy_without "types" (("type", t) ∷ []) yaml))) types)
