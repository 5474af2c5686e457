-- ===== src/Tests/Attributes.antt =====
-- The attributes that a search requests for a few formats.
use ldap2pg.Common.{String, ◌<>◌, ◌≡◌, refl, false, List, [], ◌∷◌}
use ldap2pg.Common.{string_eq, if◌then◌else◌, contains}
use ldap2pg.Common.Text.{cut}
use ldap2pg.Common.Outcome.{ok, error}
use ldap2pg.Common.Sets.{list_set, list_set-IsLawful}
use ldap2pg.Pyfmt.{Format, field}
use ldap2pg.Tests.Rules.{rule}
use ldap2pg.Wanted.{Step, zero_search, has_ldap_search}
use ldap2pg.Wanted.Infer.{iter_fields, infer_attributes, load_rules}
use ldap2pg.Wanted.Infer.Requested.{asks, asks_nested, is_joined, requested, infer_attributes_lem}

abbrev reading : String → Format
reading name = record {
  input = "{" <> name <> "}";
  sections =
      field (record { field_name = name; format_spec = ""; conversion = ""; method = "" }) ∷ [];
}

abbrev step : String → String → Step
step name comment = record {
  description = "";
  ldap_search = record zero_search { base = "cn=toto" };
  role_rules = record (rule (reading name)) { comment = reading comment } ∷ [];
  grant_rules = [];
}

abbrev known : List String
known = "cn" ∷ "uid" ∷ []

infer_attributes_lem_example :
    (let fs = iter_fields (step "member.mail" "member.cn") in
      let search = (infer_attributes list_set known (step "member.mail" "member.cn")).ldap_search in
      ((a : String) → contains search.attributes a ≡ asks fs a)
      × ((a c : String)
          → contains (requested search.subsearches a) c ≡ (
              if is_joined known fs a
              then asks_nested known fs a c
              else contains (requested zero_search.subsearches a) c)))
unfolding string_eq cut
infer_attributes_lem_example =
    infer_attributes_lem list_set list_set-IsLawful known (step "member.mail" "member.cn") "member"
      refl

-- A rule whose formats read only the name of the entry has no search.
unsearched : has_ldap_search (infer_attributes list_set known (step "dn" "dn")) ≡ false
unfolding infer_attributes string_eq
unsearched = refl

replaced :
    load_rules list_set known (step "member.mail" "member" ∷ [])
    ≡ ok (
        record (step "member.mail" "member.dn") {
          ldap_search = (infer_attributes list_set known (step "member.mail" "member")).ldap_search;
          role_rules =
              record (rule (reading "member.mail")) {
                comment = record (reading "member.dn") { input = "{member}" };
              }
              ∷ [];
        }
        ∷ [])
unfolding load_rules string_eq
replaced = refl

two_joins :
    load_rules list_set known (step "member.mail" "manager.mail" ∷ [])
    ≡ error "multiple sub-search unsupported"
unfolding load_rules string_eq
two_joins = refl
