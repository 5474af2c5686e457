-- ===== src/Config.antt =====
-- internal/config: the sanitising of the YAML of a configuration, before mapstructure decodes it.
-- `Config.Roles` is role.go, `Config.Items` is normalizers.go, and this file has checkVersion of
-- yaml.go and the querier that a configured query becomes (query.go).
pub mod Roles
pub mod Items
use ldap2pg.Common.{ℕ, String, ◌<>◌, Bool, true, false, List, [], ◌∷◌, Option, none, some}
use ldap2pg.Common.{◌==◌, string_eq, if◌then◌else◌}
use ldap2pg.Common.Dict.{lookup}
use ldap2pg.Common.Int.{ℤ, pos, int_eq}
use ldap2pg.Common.Outcome.{Outcome, ok, error, panic, ◌>>=◌, wrap, each}
use ldap2pg.Inspect.Rows.{Querier, Answer, sql_query, yaml_query}
use ldap2pg.Normalize.{Yaml, text, int, seq, to_list, as_mapping}

-- `checkVersion`, and the version that it sets.
unfoldable pub check_version : Yaml → Outcome ℤ
unfolding int_eq
check_version yaml = elim (as_mapping yaml) [
  | none ↦ error "YAML is not a map"
  | some m ↦ elim (lookup "version" m) [
    | none ↦ error "configuration version must be 6"
    | some (int v) ↦ if v == pos 6 then ok v else error "configuration version must be 6"
    | some _ ↦ error "configuration version must be integer"
  ]
]

-- `QueryConfig.Instantiate`. What the server answers to a text of SQL, trimmed, is a parameter.
module _ {R T : Type 0} (row_to : R → Outcome T) (yaml_to : Yaml → Outcome T)
    (trim_space : String → String) (answer : String → Answer R) where
  unfoldable pub instantiate : Yaml → Outcome (Querier T)
  unfolding each
  instantiate (text sql) = ok (sql_query row_to (answer (trim_space sql)))
  instantiate (seq raw_rows) =
      wrap "bad value: " (each (λ i y. yaml_to y) 0 (to_list raw_rows)) >>= λ rows.
      ok (yaml_query rows)
  instantiate _ = error "bad query"

-- `YamlTo[string]`: the assertion panics.
abbrev pub yaml_to_text : Yaml → Outcome String
yaml_to_text (text s) = ok s
yaml_to_text _ = panic
