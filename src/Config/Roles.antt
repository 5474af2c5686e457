-- ===== src/Config/Roles.antt =====
-- internal/config/role.go: role rules.
pub mod Defaults
use ldap2pg.Common.{
  ℕ, String, ◌<>◌, Bool, true, false, not, List, [], ◌∷◌, ◌++◌, Option, none, some,
}
use ldap2pg.Common.{◌==◌, string_eq, nat_eq, if◌then◌else◌, contains, map}
use ldap2pg.Common.Dict.{Dict, lookup, get_or, insert, keys}
use ldap2pg.Common.Int.{pos, negsuc, decimal}
use ldap2pg.Common.Outcome.{Outcome, ok, error, panic, spent, ◌>>=◌, ◌>>◌, wrap, each}
use ldap2pg.Common.Text.{has_prefix, skip_chars, split_char}
use Prim.Native.Char.{code}
use Prim.Native.String
use ldap2pg.Normalize.{
  Yaml, null, text, bool, int, seq, mapping, texts, mappings, Items, nil, item, Fields, end, field,
  to_list, of_list, to_dict, of_dict, as_mapping, type_name, aliases, spurious_keys, copy,
  copy_without, boolean, list, string_list,
}

abbrev pub option_defaults : Dict Yaml
option_defaults =
    ("SUPERUSER", bool false)
    ∷ ("INHERIT", bool true)
    ∷ ("CREATEROLE", bool false)
    ∷ ("CREATEDB", bool false)
    ∷ ("LOGIN", bool false)
    ∷ ("REPLICATION", bool false)
    ∷ ("BYPASSRLS", bool false)
    ∷ ("CONNECTION LIMIT", int (negsuc 0))
    ∷ []

-- `strings.TrimPrefix(token, "NO")`
abbrev trim_no : String → String
trim_no token = if has_prefix token "NO" then skip_chars 2 token else token

-- The loop over the tokens.
unfoldable pub set_tokens : List String → Dict Yaml → Dict Yaml
unfolding insert
set_tokens [] value = value
set_tokens (token ∷ tokens) value = set_tokens tokens (
    if token == ""
    then value
    else insert (trim_no token) (bool (not (has_prefix token "NO"))) value)

abbrev map_values : (Yaml → Yaml) → Dict Yaml → Dict Yaml
map_values f [] = []
map_values f ((k, v) ∷ m) = (k, f v) ∷ map_values f m

abbrev pub set_options : Dict Yaml → Yaml → Outcome (Dict Yaml)
set_options value (text tokens) = ok (set_tokens (split_char b' ' tokens) value)
set_options value (mapping fs) = ok (copy value (map_values boolean (to_dict fs)))
set_options value y = error ("bad type: " <> type_name y)

-- `NormalizeRoleOptions`. Null returns at once.
unfoldable pub normalize_role_options : Yaml → Outcome (Dict Yaml)
unfolding set_tokens split_char copy boolean spurious_keys
normalize_role_options null = ok option_defaults
normalize_role_options yaml = do
  value ← set_options option_defaults yaml
  spurious_keys (keys option_defaults) value
  ok value

-- The range of `NormalizeMembership` copies into a new map.
abbrev pub membership_value : Yaml → Outcome (Dict Yaml)
membership_value (text name) = ok (("name", text name) ∷ [])
membership_value (mapping fs) = ok (copy [] (map_values boolean (to_dict fs)))
membership_value y = error ("bad type: " <> type_name y)

-- `NormalizeMembership`
unfoldable pub normalize_membership : Yaml → Outcome (Dict Yaml)
unfolding copy boolean spurious_keys
normalize_membership raw = do
  value ← membership_value raw
  elim (lookup "name" value) [ none ↦ error "missing name" | some _ ↦ ok tt ]
  spurious_keys ("name" ∷ "inherit" ∷ "set" ∷ "admin" ∷ []) value
  ok value

-- `NormalizeMemberships`
unfoldable pub normalize_memberships : Yaml → Outcome Yaml
unfolding list each normalize_membership decimal
normalize_memberships raw = do
  memberships ←
      each (λ i y. wrap ("parents[" <> decimal (pos i) <> "]: ") (normalize_membership y)) 0
        (list raw)
  ok (mappings (of_list (map (λ m. mapping (of_dict m)) memberships)))

abbrev pub rule_defaults : Dict Yaml
rule_defaults =
    ("comment", text "Managed by ldap2pg") ∷ ("options", mapping end) ∷ ("parents", texts []) ∷ []

abbrev pub rule_keys : List String
rule_keys =
    "names" ∷ "comment" ∷ "parents" ∷ "options" ∷ "config" ∷ "before_create" ∷ "after_create" ∷ []

abbrev pub rule_aliases : List (String × String)
rule_aliases = ("names", "name") ∷ ("parents", "parent") ∷ []

-- The case of a map.
unfoldable pub normalize_role_map : Dict Yaml → Outcome (Dict Yaml)
unfolding aliases copy string_list normalize_memberships normalize_role_options insert
normalize_role_map yaml = do
  renamed ← aliases rule_aliases yaml
  let rule = copy rule_defaults renamed
  names ← elim (lookup "names" rule) [ none ↦ error "missing name" | some y ↦ string_list y ]
  let named = insert "names" (texts names) rule
  parents ← normalize_memberships (get_or named "parents" null)
  let parented = insert "parents" parents named
  options ← wrap "options: " (normalize_role_options (get_or parented "options" null))
  ok (insert "options" (mapping (of_dict options)) parented)

abbrev pub role_rule : Yaml → Outcome (Dict Yaml)
role_rule (text name) = ok (rule_defaults ++ ("names", texts (name ∷ [])) ∷ [])
role_rule (mapping fs) = normalize_role_map (to_dict fs)
role_rule y = error ("bad type: " <> type_name y)

-- `NormalizeRoleRule`
unfoldable pub normalize_role_rule : Yaml → Outcome (Dict Yaml)
unfolding normalize_role_map spurious_keys
normalize_role_rule yaml = do rule ← role_rule yaml; spurious_keys rule_keys rule; ok rule

-- `DuplicateRoleRules`. The assertion panics.
unfoldable pub duplicate_role_rules : Dict Yaml → Outcome (List (Dict Yaml))
unfolding copy_without
duplicate_role_rules yaml = elim (get_or yaml "names" null) [
  | texts names ↦ ok (map (λ name. copy_without "names" (("name", text name) ∷ []) yaml) names)
  | _ ↦ panic
]
