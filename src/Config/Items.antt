-- ===== src/Config/Items.antt =====
-- internal/config/normalizers.go: searches, the items of the rules, and the root of the file.
pub mod Filters
use ldap2pg.Common.{ℕ, String, ◌<>◌, Bool, true, false, List, [], ◌∷◌, ◌++◌, Option, none, some}
use ldap2pg.Common.{◌==◌, string_eq, if◌then◌else◌, map}
use ldap2pg.Common.Dict.{Dict, lookup, get_or, insert, erase}
use ldap2pg.Common.Int.{pos, decimal}
use ldap2pg.Common.Outcome.{Outcome, ok, error, panic, spent, ◌>>=◌, ◌>>◌, wrap, each}
use ldap2pg.Common.Sets.{SetOps}
use ldap2pg.Config.Roles.{normalize_role_rule, duplicate_role_rules}
use ldap2pg.Ldap.Filter.{clean_filter}
use ldap2pg.Normalize.{
  Yaml, null, text, bool, int, seq, mapping, texts, mappings, other, Items, nil, Fields, end,
  to_list, of_list, to_dict, of_dict, as_mapping, type_name, alias, aliases, spurious_keys, copy,
  list,
}
use ldap2pg.Privileges.Loose.{normalize_grant_rule, duplicate_grant_rules, normalize_acls}
use ldap2pg.Privileges.Loose.Flat.{normalize_profiles}

abbrev pub search_defaults : Dict Yaml
search_defaults = ("filter", text "(objectClass=*)") ∷ ("scope", text "sub") ∷ []

-- A filter that is null is removed.
abbrev pub remove_null_filter : Dict Yaml → Dict Yaml
remove_null_filter m = elim (lookup "filter" m) [ some null ↦ erase "filter" m | _ ↦ m ]

-- `search["filter"].(string)`: the assertion panics.
abbrev pub filter_text : Yaml → Outcome String
filter_text (text s) = ok s
filter_text _ = panic

-- `NormalizeCommonLdapSearch`
unfoldable pub normalize_common_search : Yaml → Outcome (Dict Yaml)
unfolding copy erase insert clean_filter
normalize_common_search yaml = elim (as_mapping yaml) [
  | none ↦ error ("bad type: " <> type_name yaml)
  | some m ↦
      let search = copy search_defaults (remove_null_filter m) in
      filter_text (get_or search "filter" null) >>= λ filter.
      ok (insert "filter" (text (clean_filter filter)) search)
]

-- The loop over the subsearches.
unfoldable pub normalize_subsearches : Dict Yaml → Outcome (Dict Yaml)
unfolding normalize_common_search spurious_keys
normalize_subsearches [] = ok []
normalize_subsearches ((attr, y) ∷ rest) = do
  subsearch ← normalize_common_search y
  spurious_keys ("filter" ∷ "scope" ∷ []) subsearch
  others ← normalize_subsearches rest
  ok ((attr, mapping (of_dict subsearch)) ∷ others)

-- `NormalizeLdapSearch`
unfoldable pub normalize_ldap_search : Yaml → Outcome (Dict Yaml)
unfolding normalize_common_search alias spurious_keys normalize_subsearches insert
normalize_ldap_search yaml = do
  common ← normalize_common_search yaml
  search ← alias "subsearches" "joins" common
  spurious_keys ("base" ∷ "filter" ∷ "scope" ∷ "subsearches" ∷ "on_unexpected_dn" ∷ []) search
  elim (as_mapping (get_or search "subsearches" null)) [
    | none ↦ ok search
    | some m ↦ normalize_subsearches m >>= λ subsearches.
        ok (insert "subsearches" (mapping (of_dict subsearches)) search)
  ]

abbrev pub item_defaults : Dict Yaml
item_defaults =
    ("description", text "")
    ∷ ("ldapsearch", mapping end)
    ∷ ("roles", seq nil)
    ∷ ("grants", seq nil)
    ∷ []

abbrev pub item_aliases : List (String × String)
item_aliases = ("ldapsearch", "ldap") ∷ ("roles", "role") ∷ ("grants", "grant") ∷ []

abbrev mapping_of : Dict Yaml → Yaml
mapping_of m = mapping (of_dict m)

abbrev flatten : List (List (Dict Yaml)) → List Yaml
flatten [] = []
flatten (rules ∷ rest) = map mapping_of rules ++ flatten rest

module _ (fuel : ℕ) where
  -- The bodies of the loops over the rules.
  abbrev pub role_rules : ℕ → Yaml → Outcome (List (Dict Yaml))
  role_rules i raw =
      wrap ("roles[" <> decimal (pos i) <> "]: ") (normalize_role_rule raw) >>= duplicate_role_rules

  abbrev pub grant_rules : ℕ → Yaml → Outcome (List (Dict Yaml))
  grant_rules i raw =
      wrap ("grants[" <> decimal (pos i) <> "]: ") (normalize_grant_rule raw)
      >>= duplicate_grant_rules fuel

  -- `NormalizeWantRule`
  unfoldable pub normalize_want_rule : Yaml → Outcome (Dict Yaml)
  unfolding aliases copy normalize_ldap_search normalize_role_rule duplicate_role_rules
      normalize_grant_rule duplicate_grant_rules spurious_keys each insert list decimal
  normalize_want_rule yaml = elim (as_mapping yaml) [
    | none ↦ error ("bad type: " <> type_name yaml <> ", must be a map")
    | some yaml_map ↦ do
      renamed ← aliases item_aliases yaml_map
      let rule = copy item_defaults renamed
      search ← wrap "ldapsearch: " (normalize_ldap_search (get_or rule "ldapsearch" null))
      let searching = insert "ldapsearch" (mapping_of search) rule
      roles ← each role_rules 0 (list (get_or searching "roles" null))
      let with_roles = insert "roles" (seq (of_list (flatten roles))) searching
      grants ← each grant_rules 0 (list (get_or with_roles "grants" null))
      let whole = insert "grants" (seq (of_list (flatten grants))) with_roles
      spurious_keys ("description" ∷ "ldapsearch" ∷ "roles" ∷ "grants" ∷ []) whole
      ok whole
  ]

  -- `NormalizeRules`
  unfoldable pub normalize_rules : Yaml → Outcome (List (Dict Yaml))
  unfolding normalize_want_rule each decimal
  normalize_rules (seq raw_rules) =
      each (λ i raw. wrap ("item[" <> decimal (pos i) <> "]: ") (normalize_want_rule raw)) 0
        (to_list raw_rules)
  normalize_rules yaml = error ("bad type: " <> type_name yaml <> ", must be a list")

  -- A section of the root, which may be missing.
  abbrev section : String → (Yaml → Outcome Yaml) → Dict Yaml → Outcome (Dict Yaml)
  section key f config = elim (lookup key config) [
    | none ↦ ok config
    | some y ↦ wrap (key <> ": ") (f y) >>= λ v. ok (insert key v config)
  ]

  -- `NormalizePostgres`
  abbrev pub normalize_postgres : Yaml → Outcome Yaml
  normalize_postgres yaml = elim (as_mapping yaml) [
    | none ↦ error ("bad type: " <> type_name yaml <> ", must be a map")
    | some _ ↦ ok yaml
  ]

  -- `NormalizeConfigRoot`, over what the walk of the profiles is bounded by, the builtin profiles
  -- and `strings.ToUpper`.
  unfoldable pub normalize_config_root :
      (String → String) → SetOps String → Dict (List Yaml) → Yaml → Outcome (Dict Yaml)
  unfolding alias insert normalize_acls normalize_profiles normalize_rules
  normalize_config_root upper S builtins yaml = elim (as_mapping yaml) [
    | none ↦ error ("bad type: " <> type_name yaml)
    | some root ↦ do
      checked ← section "postgres" normalize_postgres root
      with_acls ← section "acls" normalize_acls checked
      with_profiles ← section "privileges" (normalize_profiles upper S fuel builtins) with_acls
      config ← alias "rules" "sync_map" with_profiles
      elim (lookup "rules" config) [
        | none ↦ error "missing rules"
        | some y ↦ wrap "rules: " (normalize_rules y) >>= λ rules.
            ok (insert "rules" (seq (of_list (map mapping_of rules))) config)
      ]
  ]
