-- ===== src/Tests/Rules.antt =====
-- A run of rules that yields a role twice, a blacklisted role and a grant to a stranger.
use ldap2pg.Common.{
  ℕ, ◌<◌, String, ◌≡◌, refl, Bool, true, false, not, List, [], ◌∷◌, Option, none, some,
}
use ldap2pg.Common.{◌==◌, string_eq, keep, collect, length, All}
use ldap2pg.Common.Dict.{keys}
use ldap2pg.Common.Int.{negsuc}
use ldap2pg.Lists.Blacklist.{IsStrict, Verdict, match_string, match_string_total}
use ldap2pg.Lists.Blacklist
use ldap2pg.Privileges.{Grant}
use ldap2pg.Privileges.Rule.{rule_is_static}
use ldap2pg.Pyfmt.{Format, literal, field}
use ldap2pg.Role.{Role, Membership}
use ldap2pg.Role.RoleOptions.{zero_options}
use ldap2pg.Role.Map
use ldap2pg.Role.Map.Acyclic.{IsRoleMap}
use ldap2pg.Wanted.{RoleRule, Step, zero_search, role_is_static, split_static_items}
use ldap2pg.Wanted.Run.{Wants, Yield, failure, yields, run}
use ldap2pg.Wanted.Run.Keyed.{IsWanted, Granted, run_sound}
use ldap2pg.Wanted.Split.{IsUniform, split_static_items_lem}

abbrev pub equals : String → String → Option Bool
equals pattern name = some (pattern == name)

pub equals-IsStrict : IsStrict equals
equals-IsStrict pattern name other = refl

abbrev blacklist : List String
blacklist = "postgres" ∷ "pg_*" ∷ []

blacklist_valid : Blacklist.check equals blacklist ≡ true
unfolding Blacklist.check
blacklist_valid = refl

match_string_total_example :
    (out : String) × (match_string equals blacklist "postgres" ≡ some out)
    × Verdict equals equals-IsStrict blacklist "postgres" out
match_string_total_example =
    match_string_total equals equals-IsStrict blacklist blacklist_valid "postgres"

abbrev pub role : String → List Membership → Role
role name parents = record {
  name = name;
  comment = "";
  parents = parents;
  options = record zero_options { conn_limit = negsuc 0 };
  config = none;
  before_create = "";
  after_create = "";
}

abbrev pub grant : String → Grant
grant grantee = record {
  owner = "";
  grantee = grantee;
  acl = "DATABASE";
  type = "CONNECT";
  database = "app";
  schema = "";
  object = "";
  partial = false;
}

abbrev pub found : List Yield
found =
    yields
      (role "alice" []
        ∷ role "postgres" []
        ∷ role "alice" (record { grantor = ""; name = "staff" } ∷ [])
        ∷ role "" []
        ∷ [])
      (grant "alice" ∷ grant "stranger" ∷ [])
    ∷ failure "timeout"
    ∷ yields (role "staff" [] ∷ []) []
    ∷ []

run_sound_example :
    (w : Wants) × IsRoleMap w.roles
    × All (IsWanted equals blacklist) w.roles
    × Granted equals blacklist w
    × ((fuel : ℕ)
        → length (keys w.roles) < fuel
        → (w' : Wants) × (run equals blacklist fuel found ≡ some w')
          × (w'.roles ≡ w.roles)
          × (w'.grants ≡ w.grants)
          × (w'.errors ≡ [] → Map.check fuel w.roles ≡ some none))
run_sound_example = run_sound equals blacklist equals-IsStrict blacklist_valid found

abbrev fixed : String → Format
fixed s = record { input = s; sections = literal s ∷ [] }

abbrev dynamic : Format
dynamic = record {
  input = "{cn}";
  sections =
      field (record { field_name = "cn"; format_spec = ""; conversion = ""; method = "" }) ∷ [];
}

abbrev pub rule : Format → RoleRule
rule name = record {
  name = name;
  options = zero_options;
  comment = fixed "";
  parents = [];
  config = none;
  before_create = fixed "";
  after_create = fixed "";
}

abbrev mixed : Step
mixed = record {
  description = "people";
  ldap_search = record zero_search { attributes = "cn" ∷ [] };
  role_rules = rule (fixed "staff") ∷ rule dynamic ∷ [];
  grant_rules = [];
}

split_static_items_lem_example :
    All IsUniform (split_static_items mixed)
    × (keep role_is_static (collect (λ i. i.role_rules) (split_static_items mixed))
        ≡ keep role_is_static mixed.role_rules)
    × (keep (λ r. not (role_is_static r)) (collect (λ i. i.role_rules) (split_static_items mixed))
        ≡ keep (λ r. not (role_is_static r)) mixed.role_rules)
    × (keep rule_is_static (collect (λ i. i.grant_rules) (split_static_items mixed))
        ≡ keep rule_is_static mixed.grant_rules)
    × (keep (λ r. not (rule_is_static r)) (collect (λ i. i.grant_rules) (split_static_items mixed))
        ≡ keep (λ r. not (rule_is_static r)) mixed.grant_rules)
split_static_items_lem_example = split_static_items_lem mixed
