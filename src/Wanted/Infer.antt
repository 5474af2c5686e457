-- ===== src/Wanted/Infer.antt =====
-- internal/wanted/step.go: `InferAttributes`, which finds the attributes to search from the fields
-- of the formats, and `ReplaceAttributeAsSubentryField`; the loop over the rules that calls them
-- (internal/config/yaml.go).
pub mod Requested
use ldap2pg.Common.{String, ◌<>◌, Bool, not, ◌||◌, ◌&&◌, List, [], ◌∷◌, ◌++◌}
use ldap2pg.Common.{◌==◌, string_eq, if◌then◌else◌, contains, collect, map, ltb, length}
use ldap2pg.Common.Outcome.{Outcome, ok, error, ◌>>=◌}
use ldap2pg.Common.Dict.{Dict, get_or, insert}
use ldap2pg.Common.Sets.{SetOps}
use ldap2pg.Common.Text.{cut}
use ldap2pg.Ldap.{Subsearch, subsearch_attribute}
use ldap2pg.Privileges
use ldap2pg.Privileges.Rule.{GrantRule}
use ldap2pg.Pyfmt.{Field, Format, Section, literal, field, fields}
use ldap2pg.Wanted.{Step, RoleRule, MembershipRule, formats, is_empty}

-- `IterFields`
abbrev pub iter_fields : Step → List Field
iter_fields s =
    collect (λ r. collect fields (formats r)) s.role_rules
    ++ collect (λ r. collect fields (Privileges.Rule.formats r)) s.grant_rules

-- The subsearch that a search without one gets; 2 is `ldap3.ScopeWholeSubtree`.
abbrev pub default_subsearch : Subsearch
default_subsearch = record { filter = "(objectClass=*)"; scope = 2; attributes = [] }

module _ (S : SetOps String) (known_rdns : List String) where
  -- The sets of attributes, and for each attribute of those of its subsearch.
  abbrev pub Attributes : Type 0
  Attributes = S.Carrier × Dict S.Carrier

  -- The body of the loop over the fields.
  unfoldable pub add_field : Field → Attributes → Attributes
  unfolding cut insert
  add_field f (attributes, subsearches) =
      let (attribute, name, found) = cut f.field_name b'.' in
      let sub = S.add (get_or subsearches attribute (S.new_set [])) name in
      if attribute == "dn"
      then (attributes, subsearches)
      else if not found || contains known_rdns name
      then (S.add attributes attribute, subsearches)
      else (S.add attributes attribute, insert attribute sub subsearches)

  unfoldable pub add_fields : List Field → Attributes → Attributes
  unfolding add_field
  add_fields [] a = a
  add_fields (f ∷ fs) a = add_fields fs (add_field f a)

  -- The loop over the subsearches.
  unfoldable pub set_subsearches : Dict S.Carrier → Dict Subsearch → Dict Subsearch
  unfolding insert
  set_subsearches [] m = m
  set_subsearches ((attribute, set) ∷ rest) m =
      let subsearch = get_or m attribute default_subsearch in
      set_subsearches rest (insert attribute (record subsearch { attributes = S.iter set }) m)

  -- `InferAttributes`
  unfoldable pub infer_attributes : Step → Step
  unfolding add_fields set_subsearches
  infer_attributes s =
      let (attributes, subsearches) = add_fields (iter_fields s) (S.new_set [], []) in
      let search = record s.ldap_search {
        attributes = S.iter attributes;
        subsearches = set_subsearches subsearches s.ldap_search.subsearches;
      } in
      if is_empty (S.iter attributes) then s else record s { ldap_search = search }

-- The body of the loop of `ReplaceAttributeAsSubentryField`. A format's fields are those of its
-- sections.
unfoldable pub replace_field : String → Field → Field
unfolding cut
replace_field subsearch f =
    let (attribute, _, found) = cut f.field_name b'.' in
    if attribute == subsearch && not found then record f { field_name = attribute <> ".dn" } else f

abbrev pub replace_section : String → Section → Section
replace_section subsearch (literal s) = literal s
replace_section subsearch (field f) = field (replace_field subsearch f)

abbrev pub replace_format : String → Format → Format
replace_format subsearch f = record f { sections = map (replace_section subsearch) f.sections }

abbrev pub replace_role_rule : String → RoleRule → RoleRule
replace_role_rule subsearch r = record r {
  name = replace_format subsearch r.name;
  comment = replace_format subsearch r.comment;
  parents =
      map (λ (m : MembershipRule). record m { name = replace_format subsearch m.name }) r.parents;
  before_create = replace_format subsearch r.before_create;
  after_create = replace_format subsearch r.after_create;
}

abbrev pub replace_grant_rule : String → GrantRule → GrantRule
replace_grant_rule subsearch r = record r {
  owner = replace_format subsearch r.owner;
  privilege = replace_format subsearch r.privilege;
  database = replace_format subsearch r.database;
  schema = replace_format subsearch r.schema;
  to = replace_format subsearch r.to;
}

-- `ReplaceAttributeAsSubentryField`
unfoldable pub replace_attribute : Step → Step
unfolding replace_field
replace_attribute s =
    let subsearch = subsearch_attribute s.ldap_search in
    record s {
      role_rules = map (replace_role_rule subsearch) s.role_rules;
      grant_rules = map (replace_grant_rule subsearch) s.grant_rules;
    }

-- The loop of `LoadYaml` over the rules, once these are decoded.
unfoldable pub load_rules : SetOps String → List String → List Step → Outcome (List Step)
unfolding infer_attributes replace_attribute
load_rules S known_rdns [] = ok []
load_rules S known_rdns (item ∷ items) =
    let inferred = infer_attributes S known_rdns item in
    let rest = load_rules S known_rdns items in
    if ltb 1 (length inferred.ldap_search.subsearches)
    then error "multiple sub-search unsupported"
    else rest >>= λ loaded. ok (replace_attribute inferred ∷ loaded)
