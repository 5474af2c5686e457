-- ===== src/Wanted/Searches.antt =====
-- internal/wanted/step.go: the searches of a step.
use ldap2pg.Common.{ℕ, String, not, List, [], ◌∷◌, ◌++◌, none, some}
use ldap2pg.Common.{◌==◌, string_eq, if◌then◌else◌}
use ldap2pg.Common.Dict.{get_or}
use ldap2pg.Ldap.{Search, Subsearch, Entry, Result, subsearch_attribute}
use ldap2pg.Wanted.{Step, has_ldap_search}

-- What a search sends: a result, or an error.
pub data SearchResult : Type 0 where
  found : Result → SearchResult
  failed : String → SearchResult

-- `ldapc.Search` is a parameter: an error, or the entries.
pub data Answer : Type 0 where
  entries : List Entry → Answer
  error : String → Answer

module _ (query : String → ℕ → String → List String → Answer) where
  -- The loop over the values of the attribute that is joined on.
  unfoldable pub search_bases : Subsearch → Result → List String → List SearchResult
  search_bases sub result [] = []
  search_bases sub result (base ∷ bases) =
      let rest = search_bases sub result bases in
      elim (query base sub.scope sub.filter sub.attributes) [
        | error e ↦ failed e ∷ rest
        | entries es ↦ found (record result { subsearch_entries = es }) ∷ rest
      ]

  unfoldable pub search_entries : Search → String → List Entry → List SearchResult
  unfolding search_bases
  search_entries s attr [] = []
  search_entries s attr (entry ∷ rest) =
      let result : Result = record {
        entry = some entry;
        subsearch_attribute = attr;
        subsearch_entries = [];
      } in
      let sub = get_or s.subsearches attr (record { filter = ""; scope = 0; attributes = [] }) in
      (if attr == ""
        then found result ∷ []
        else search_bases sub result (entry.attribute_values attr))
      ++ search_entries s attr rest

  -- `Step.search`
  unfoldable pub search : Step → List SearchResult
  unfolding search_entries
  search s =
      let q = s.ldap_search in
      if not (has_ldap_search s)
      then found (record { entry = none; subsearch_attribute = ""; subsearch_entries = [] }) ∷ []
      else elim (query q.base q.scope q.filter q.attributes) [
        | error e ↦ failed e ∷ []
        | entries es ↦ search_entries q (subsearch_attribute q) es
      ]
