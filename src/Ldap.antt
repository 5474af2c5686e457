-- ===== src/Ldap.antt =====
-- internal/ldap: searches and the values that an entry yields for formats (search.go and
-- generate.go). What go-ldap and `strings` do is a record of operations.
pub mod Filter
pub mod Command
use Prim.Native.String.{count}
use ldap2pg.Common.{ℕ, suc, String, ◌<>◌, Bool, not, List, [], ◌∷◌, Option, none, some, ◌>>=◌}
use ldap2pg.Common.{◌==◌, string_eq, if◌then◌else◌, contains, map}
use ldap2pg.Common.Dict.{Dict, get_or, insert, keys}
use ldap2pg.Common.Int.{pos, decimal}
use ldap2pg.Common.Sets.{SetOps}
use ldap2pg.Common.Text.{cut, has_prefix, skip_chars}
use ldap2pg.Lists.Product.{product}
use ldap2pg.Pyfmt.{Format, list_expressions, list_variables}

pub record Subsearch : Type 0 where
  pub filter : String
  pub scope : ℕ
  pub attributes : List String

pub record Search : Type 0 where
  pub base : String
  pub scope : ℕ
  pub filter : String
  pub attributes : List String
  pub subsearches : Dict Subsearch

-- The first key of a `range`: the order is left open.
abbrev pub subsearch_attribute : Search → String
subsearch_attribute s = elim s.subsearches [ [] ↦ "" | (k, _) ∷ _ ↦ k ]

-- `ldap3.Entry`: its name, and `GetEqualFoldAttributeValues`.
pub record Entry : Type 0 where
  pub dn : String
  pub attribute_values : String → List String

pub record Result : Type 0 where
  pub entry : Option Entry
  pub subsearch_attribute : String
  pub subsearch_entries : List Entry

-- `strings.ToLower`, `strings.ToUpper`, `strings.EqualFold`, and `ldap3.ParseDN`: the first
-- attribute of each RDN with its type.
pub record Strings : Type 0 where
  pub lower : String → String
  pub upper : String → String
  pub equal_fold : String → String → Bool
  pub parse_dn : String → Option (List (String × String))

module _ (L : Strings) where
  find_rdn : String → List (String × String) → Option String
  find_rdn field [] = none
  find_rdn field ((type, value) ∷ rdns) =
      let rest = find_rdn field rdns in if L.equal_fold field type then some value else rest

  -- `ResolveFirstRDN`; `none` is an error.
  unfoldable pub resolve_first_rdn : String → String → Option String
  unfolding find_rdn
  resolve_first_rdn raw_dn field = L.parse_dn raw_dn >>= λ rdns. find_rdn field rdns

  -- The values of one attribute. An error leaves the empty text.
  unfoldable pub attribute_values :
      List String → Result → List String → Entry → String → List String
  unfolding resolve_first_rdn
  attribute_values known_rdns r sub_keys e attr =
      let lower_attr = L.lower attr in
      if lower_attr == "dn"
      then e.dn ∷ []
      else if contains known_rdns lower_attr
      then elim (resolve_first_rdn e.dn attr) [ none ↦ "" | some v ↦ v ] ∷ []
      else if L.equal_fold r.subsearch_attribute attr
      then sub_keys
      else e.attribute_values attr

  -- The first loop of `GenerateCombinations`; `none` is the panic on a nil entry.
  unfoldable pub values_list :
      List String → Result → List String → List String → Option (List (List String))
  unfolding attribute_values
  values_list known_rdns r sub_keys [] = some []
  values_list known_rdns r sub_keys (attr ∷ attributes) = r.entry >>= λ e.
      values_list known_rdns r sub_keys attributes >>= λ rest.
      some (attribute_values known_rdns r sub_keys e attr ∷ rest)

  abbrev pub attr_map : List String → List String → Dict String → Dict String
  attr_map (attr ∷ attributes) (v ∷ item) m = attr_map attributes item (insert attr v m)
  attr_map _ _ m = m

  unfoldable pub generate_combinations :
      ℕ → List String → Result → List String → List String → Option (List (Dict String))
  unfolding values_list product insert
  generate_combinations fuel known_rdns r attributes sub_keys =
      values_list known_rdns r sub_keys attributes >>= λ lists.
      product fuel lists >>= λ items. some (map (λ item. attr_map attributes item []) items)

  -- `ResolveExpressions`, from the map made so far.
  unfoldable pub resolve_expressions :
      Result → List String → Dict String → Dict (Dict String) → Dict String → Dict String
  unfolding resolve_first_rdn insert cut
  resolve_expressions r [] values sub_map out = out
  resolve_expressions r (expr ∷ exprs) values sub_map out =
      let (attr, field, has_field) = cut expr b'.' in
      resolve_expressions r exprs values sub_map (
        if not has_field
        then insert expr (get_or values attr "") out
        else if attr == r.subsearch_attribute
        then insert expr (get_or (get_or sub_map (get_or values attr "") []) field "") out
        else elim (resolve_first_rdn (get_or values attr "") field) [
          | none ↦ out
          | some v ↦ insert expr v out
        ])

  abbrev pub without_prefix : String → List String → List String
  without_prefix prefix [] = []
  without_prefix prefix (e ∷ es) =
      let rest = without_prefix prefix es in
      if has_prefix e prefix then skip_chars (count prefix) e ∷ rest else rest

  module _ (S : SetOps String) (fuel : ℕ) (known_rdns : List String) where
    -- The combinations of sub-entry i, from number j on.
    abbrev pub add_combinations :
        Result → List String → ℕ → ℕ → List (Dict String) → Dict (Dict String) → Dict (Dict String)
    add_combinations r exprs i j [] m = m
    add_combinations r exprs i j (values ∷ more) m = add_combinations r exprs i (suc j) more (
        insert ("subentry" <> decimal (pos i) <> "-comb" <> decimal (pos j))
          (resolve_expressions r exprs values [] []) m)

    unfoldable pub add_entries :
        List String
        → List String
        → ℕ
        → List Entry
        → Dict (Dict String)
        → Option (Dict (Dict String))
    unfolding generate_combinations resolve_expressions insert
    add_entries exprs attributes i [] m = some m
    add_entries exprs attributes i (e ∷ entries) m =
        let r : Result = record {
          entry = some e;
          subsearch_attribute = "";
          subsearch_entries = [];
        } in
        generate_combinations fuel known_rdns r attributes [] >>= λ combinations.
        add_entries exprs attributes (suc i) entries (add_combinations r exprs i 0 combinations m)

    unfoldable pub generate_subsearch_values : Result → List String → Option (Dict (Dict String))
    unfolding add_entries list_variables skip_chars
    generate_subsearch_values r parent_expressions =
        let exprs = without_prefix (r.subsearch_attribute <> ".") parent_expressions in
        add_entries exprs (list_variables S exprs) 0 r.subsearch_entries []

    unfoldable pub generate_values : Result → List Format → Option (List (Dict String))
    unfolding generate_subsearch_values generate_combinations resolve_expressions list_expressions
        list_variables
    generate_values r fmts =
        let expressions = list_expressions S fmts in
        let attributes = list_variables S expressions in
        let sub_map =
          if r.subsearch_attribute == ""
          then some []
          else generate_subsearch_values r expressions in
        sub_map >>= λ m.
        generate_combinations fuel known_rdns r attributes (keys m) >>= λ combinations.
        some (map (λ values. resolve_expressions r expressions values m []) combinations)
