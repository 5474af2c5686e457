-- ===== src/Normalize.antt =====
-- internal/normalize: the sanitising of loose YAML, and the values that the program gets from YAML
-- and makes of them. Error texts leave out what `%v` and `%q` print.
pub mod Keys
use ldap2pg.Common.{ℕ, String, ◌<>◌, Bool, true, false, List, [], ◌∷◌, Option, none, some, map}
use ldap2pg.Common.{◌==◌, string_eq, if◌then◌else◌, contains}
use ldap2pg.Common.Dict.{Dict, lookup, insert, erase, is_some}
use ldap2pg.Common.Int.{ℤ}
use ldap2pg.Common.Outcome.{Outcome, ok, error, ◌>>=◌, ◌>>◌}

-- `any`: `seq` is `[]any`, `mapping` is `map[string]any`, `texts` is `[]string`, `mappings` is
-- `[]map[string]any`; `other` is a value of another type, by the type's name.
mutual
  pub data Yaml : Type 0 where
    null : Yaml
    text : String → Yaml
    bool : Bool → Yaml
    int : ℤ → Yaml
    seq : Items → Yaml
    mapping : Fields → Yaml
    texts : List String → Yaml
    mappings : Items → Yaml
    other : String → Yaml

  pub data Items : Type 0 where
    nil : Items
    item : Yaml → Items → Items

  pub data Fields : Type 0 where
    end : Fields
    field : String → Yaml → Fields → Fields

abbrev pub to_list : Items → List Yaml
to_list nil = []
to_list (item y ys) = y ∷ to_list ys

abbrev pub of_list : List Yaml → Items
of_list [] = nil
of_list (y ∷ ys) = item y (of_list ys)

abbrev pub to_dict : Fields → Dict Yaml
to_dict end = []
to_dict (field k y fs) = (k, y) ∷ to_dict fs

abbrev pub of_dict : Dict Yaml → Fields
of_dict [] = end
of_dict ((k, y) ∷ m) = field k y (of_dict m)

-- `yaml.(map[string]any)`
abbrev pub as_mapping : Yaml → Option (Dict Yaml)
as_mapping (mapping fs) = some (to_dict fs)
as_mapping _ = none

-- `%T`
abbrev pub type_name : Yaml → String
type_name null = "<nil>"
type_name (text s) = "string"
type_name (bool b) = "bool"
type_name (int i) = "int"
type_name (seq ys) = "[]interface {}"
type_name (mapping fs) = "map[string]interface {}"
type_name (texts ss) = "[]string"
type_name (mappings ys) = "[]map[string]interface {}"
type_name (other t) = t

-- `Alias`
unfoldable pub alias : String → String → Dict Yaml → Outcome (Dict Yaml)
unfolding insert erase
alias key alias' yaml = elim (lookup alias' yaml) [
  | none ↦ ok yaml
  | some value ↦
      if is_some (lookup key yaml)
      then error ("key conflict between " <> key <> " and " <> alias')
      else ok (insert key value (erase alias' yaml))
]

-- Calls of `Alias` one behind the other.
unfoldable pub aliases : List (String × String) → Dict Yaml → Outcome (Dict Yaml)
unfolding alias
aliases [] yaml = ok yaml
aliases ((key, alias') ∷ rest) yaml = alias key alias' yaml >>= λ m. aliases rest m

-- `SpuriousKeys`
unfoldable pub spurious_keys : List String → Dict Yaml → Outcome (Unit {0})
spurious_keys known [] = ok tt
spurious_keys known ((key, _) ∷ yaml) =
    let rest = spurious_keys known yaml in
    if contains known key then rest else error ("unknown key '" <> key <> "'")

-- `maps.Copy`
unfoldable pub copy : Dict Yaml → Dict Yaml → Dict Yaml
unfolding insert
copy dst [] = dst
copy dst ((k, v) ∷ src) = copy (insert k v dst) src

-- The range of the functions that make single rules: all keys but one.
unfoldable pub copy_without : String → Dict Yaml → Dict Yaml → Dict Yaml
unfolding insert
copy_without skipped dst [] = dst
copy_without skipped dst ((k, v) ∷ src) =
    copy_without skipped (if k == skipped then dst else insert k v dst) src

abbrev pub yes_words : List String
yes_words = "y" ∷ "Y" ∷ "yes" ∷ "Yes" ∷ "YES" ∷ "on" ∷ "On" ∷ "ON" ∷ []

abbrev pub no_words : List String
no_words = "n" ∷ "N" ∷ "no" ∷ "No" ∷ "NO" ∷ "off" ∷ "Off" ∷ "OFF" ∷ []

-- `Boolean`
unfoldable pub boolean : Yaml → Yaml
boolean (text s) =
    if contains yes_words s
    then text "true"
    else if contains no_words s
    then text "false"
    else text s
boolean y = y

-- `List`
unfoldable pub list : Yaml → List Yaml
list (seq ys) = to_list ys
list (texts ss) = map text ss
list y = y ∷ []

abbrev pub as_text : Yaml → Outcome String
as_text (text s) = ok s
as_text _ = error "must be string"

unfoldable pub string_items : Items → Outcome (List String)
string_items nil = ok []
string_items (item y ys) = as_text y >>= λ s. string_items ys >>= λ ss. ok (s ∷ ss)

-- `StringList`
unfoldable pub string_list : Yaml → Outcome (List String)
unfolding string_items
string_list null = ok []
string_list (text s) = ok (s ∷ [])
string_list (seq ys) = string_items ys
string_list (texts ss) = ok ss
string_list _ = error "must be string or list of string"
