-- ===== src/Tests/Loose.antt =====
-- The sanitising of YAML, and the quoting of commands, at concrete values.
use ldap2pg.Common.{◌≡◌, refl, true, false, [], ◌∷◌, ◌++◌, none, some, if◌then◌else◌}
use ldap2pg.Common.Text.{split_char}
use ldap2pg.Common.{All, contains, string_eq, nat_eq}
use ldap2pg.Common.Dict.{keys}
use ldap2pg.Common.Int.{pos}
use ldap2pg.Common.Outcome.{ok}
use ldap2pg.Config.Items.{normalize_common_search, normalize_want_rule}
use ldap2pg.Config.Items.Filters.{Searches, normalize_common_search_lem}
use ldap2pg.Config.Roles
use ldap2pg.Config.Roles.{
  normalize_role_rule, normalize_role_options, role_rule, rule_defaults, option_defaults,
}
use ldap2pg.Config.Roles.Defaults.{Singles, role_rules_total}
use ldap2pg.Ldap.Command.{shell_quote}
use ldap2pg.Ldap.Command.Quoted.{is_covered, word-shell_quote}
use ldap2pg.Ldap.Command.Shell.{word, bare}
use ldap2pg.Ldap.Filter.{clean_filter}
use ldap2pg.Ldap.Filter.Tight.{TightBefore, TightAfter, clean_filter-Tight}
use ldap2pg.Normalize.{Yaml, null, text, int, seq, mapping, texts, nil, item, Fields, end, field}
use ldap2pg.Normalize.Keys.{Ends}
use ldap2pg.Privileges.Loose.{rule_keys, normalize_grant_rule}
use ldap2pg.Privileges.Loose.Duplicated.{HasTexts, Duplicates, grant_rules_total}

abbrev grant_yaml : Yaml
grant_yaml = mapping (
    field "privilege" (text "reader")
      (field "to" (seq (item (text "alice") (item (text "bob") nil))) end))

grant_rules_total_example : Ends (normalize_grant_rule grant_yaml) (λ rule.
    All (HasTexts rule) rule_keys
    × All (λ k. contains rule_keys k ≡ true) (keys rule)
    × Duplicates rule)
grant_rules_total_example = grant_rules_total grant_yaml

abbrev role_yaml : Yaml
role_yaml = mapping (
    field "names" (seq (item (text "alice") (item (text "bob") nil)))
      (field "options" (text "LOGIN NOINHERIT") end))

role_rules_total_example :
    Ends
      (normalize_role_rule role_yaml)
      (λ rule. Singles rule × All (λ k. contains Roles.rule_keys k ≡ true) (keys rule))
role_rules_total_example = role_rules_total role_yaml

-- The same name as a plain text and in a map: no options at all, and those by default.
plain_form : role_rule (text "alice") ≡ ok (rule_defaults ++ ("names", texts ("alice" ∷ [])) ∷ [])
unfolding string_eq
plain_form = refl

default_form : normalize_role_options null ≡ ok option_defaults
unfolding normalize_role_options
default_form = refl

clean_filter-Tight_example :
    TightBefore (clean_filter "(& (cn=a)  (cn=b) )")
    × TightAfter false (clean_filter "(& (cn=a)  (cn=b) )")
clean_filter-Tight_example = clean_filter-Tight "(& (cn=a)  (cn=b) )"

cleaned : clean_filter "(& (cn=a)  (cn=b) )" ≡ "(&(cn=a)(cn=b))"
unfolding clean_filter
cleaned = refl

word-shell_quote_example :
    word bare (shell_quote "it's (all)")
    ≡ (if is_covered "it's (all)" then some "it's (all)" else none)
word-shell_quote_example = word-shell_quote "it's (all)"

covered : is_covered "it's (all)" ≡ true
unfolding split_char
covered = refl

-- A semicolon is not quoted.
uncovered : is_covered "a;b" ≡ false
unfolding split_char
uncovered = refl

unquoted : shell_quote "a;b" ≡ "a;b"
unfolding shell_quote
unquoted = refl

quoted : shell_quote "it's (all)" ≡ "it\"'\"'s (all)'"
unfolding shell_quote
quoted = refl

abbrev bad_search : Fields
bad_search = field "filter" (int (pos 42)) end

normalize_common_search_lem_example :
    Searches (some (int (pos 42))) (normalize_common_search (mapping bad_search))
unfolding string_eq
normalize_common_search_lem_example = normalize_common_search_lem bad_search (refl, tt)

-- A rule with no search, one role and no grant.
step_yaml :
    normalize_want_rule 9 (mapping (field "role" (text "alice") end))
    ≡ ok (
        ("description", text "")
        ∷ (
          "ldapsearch",
          mapping (field "filter" (text "(objectClass=*)") (field "scope" (text "sub") end)),
        )
        ∷ (
          "roles",
          seq (
              item
                (mapping (
                  field "name" (text "alice") (
                    field "comment"
                      (text "Managed by ldap2pg")
                      (field "options" (mapping end) (field "parents" (texts []) end)))))
                nil),
        )
        ∷ ("grants", seq nil)
        ∷ [])
unfolding normalize_want_rule string_eq nat_eq
step_yaml = refl
