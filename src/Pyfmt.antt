-- ===== src/Pyfmt.antt =====
-- internal/pyfmt/format.go: texts with fields in braces. The braces are one byte each, so that the
-- scan over characters cuts where the scan over bytes does.
pub mod Total
use Prim.Native.Char.{code}
use ldap2pg.Common.{
  ℕ, zero, suc, String, ◌<>◌, ◌≡◌, refl, Bool, true, false, not, List, [], ◌∷◌, Option, none, some,
  ◌>>=◌,
}
use ldap2pg.Common.{◌==◌, string_eq, nat_eq, if◌then◌else◌, collect}
use ldap2pg.Common.Dict.{Dict, get_or}
use ldap2pg.Common.Sets.{SetOps}
use ldap2pg.Common.Text.{cut, replace_all, has_suffix, cut_last}

pub record Field : Type 0 where
  pub field_name : String
  pub format_spec : String
  pub conversion : String
  pub method : String

pub data Section : Type 0 where
  literal : String → Section
  field : Field → Section

-- `Fields` holds the pointers of the fields among `Sections`, in their order: see `fields`.
pub record Format : Type 0 where
  pub input : String
  pub sections : List Section

abbrev pub fields_of : List Section → List Field
fields_of [] = []
fields_of (literal s ∷ rest) = fields_of rest
fields_of (field f ∷ rest) = f ∷ fields_of rest

abbrev pub fields : Format → List Field
fields f = fields_of f.sections

abbrev pub no_fields : List Field → Bool
no_fields [] = true
no_fields (f ∷ fs) = false

unfoldable pub is_static : Format → Bool
is_static f = no_fields (fields f)

-- The end of `parseField`. `none` is the panic of a slice up to -1: a call without a point.
unfoldable pub split_method : Field → Option Field
unfolding has_suffix cut_last
split_method f =
    if has_suffix f.field_name "()"
    then elim (cut_last f.field_name b'.') [
      | none ↦ none
      | some (name, method) ↦ some (record f { field_name = name; method = method })
    ]
    else some f

unfoldable pub parse_field : String → Option Field
unfolding split_method cut
parse_field s =
    let (before, after, found) = cut s b'!' in
    let (conversion, spec, _) = cut after b':' in
    let (name, spec', _) = cut before b':' in
    split_method (
      if found
      then record { field_name = before; format_spec = spec; conversion = conversion; method = "" }
      else record { field_name = name; format_spec = spec'; conversion = ""; method = "" })

-- How `Parse` ends: with no error, with its error, or with the panic of `parseField`.
pub data Ending : Type 0 where
  parsed : Ending
  unexpected_end : Ending
  panicked : Ending

abbrev pub Parsed : Type 0
Parsed = List Section × Ending

-- `if i > start`
abbrev pub add_literal : String → Parsed → Parsed
add_literal s (sections, ending) =
    (if s == "" then sections else literal (replace_all s "}}" "}") ∷ sections, ending)

-- A `{` was found: whether another one follows, and the text behind what was read.
abbrev pub escaped : String → Bool × String
escaped String.[] = (false, "")
escaped (String.◌∷◌ c s) = if code c == b'{' then (true, s) else (false, String.◌∷◌ c s)

-- The loop over `s[i:]`, on fuel.
unfoldable pub parse_loop : ℕ → Bool → String → Option Parsed
unfolding parse_field cut replace_all nat_eq
parse_loop zero in_field s = none
parse_loop (suc fuel) in_field String.[] = some ([], if in_field then unexpected_end else parsed)
parse_loop (suc fuel) true (String.◌∷◌ c s) =
    let (before, after, found) = cut (String.◌∷◌ c s) b'}' in
    let rest = parse_loop fuel false after in
    if found
    then elim (parse_field before) [
      | none ↦ some ([], panicked)
      | some f ↦ rest >>= λ (sections, ending). some (field f ∷ sections, ending)
    ]
    else some ([], unexpected_end)
parse_loop (suc fuel) false (String.◌∷◌ c s) =
    let (before, after, found) = cut (String.◌∷◌ c s) b'{' in
    let (again, after') = escaped after in
    let rest = parse_loop fuel (not again) after' in
    if found
    then (rest >>= λ p. some (add_literal (if again then before <> "{" else before) p))
    else some (add_literal (String.◌∷◌ c s) ([], parsed))

unfoldable pub parse : ℕ → String → Option (Format × Ending)
unfolding parse_loop
parse fuel s = parse_loop fuel false s >>= λ (sections, ending).
    some (record { input = s; sections = sections }, ending)

-- `strings.ToLower` and `strings.ToUpper` are parameters.
module _ (lower upper : String → String) where
  unfoldable pub render_field : Dict String → Field → String
  unfolding replace_all
  render_field values f =
      let v = get_or values f.field_name "" in
      if f.method == ""
      then v
      else if f.method == "lower()"
      then lower v
      else if f.method == "upper()"
      then upper v
      else if f.method == "identifier()"
      then "\"" <> v <> "\""
      else if f.method == "string()"
      then "'" <> replace_all v "'" "''" <> "'"
      else "!INVALID_METHOD"

  unfoldable pub render : Dict String → List Section → String
  unfolding render_field
  render values [] = ""
  render values (literal s ∷ rest) = s <> render values rest
  render values (field f ∷ rest) = render_field values f <> render values rest

  -- `Format`. A nil map is `none`; the result `none` is the panic.
  unfoldable pub format : Format → Option (Dict String) → Option String
  unfolding render is_static
  format f none = if is_static f then some f.input else none
  format f (some values) = some (render values f.sections)

module _ (S : SetOps String) where
  abbrev field_names : List Field → List String
  field_names [] = []
  field_names (f ∷ fs) = f.field_name ∷ field_names fs

  unfoldable pub list_expressions : List Format → List String
  list_expressions fmts = S.iter (S.new_set (collect (λ f. field_names (fields f)) fmts))

  abbrev roots : List String → List String
  roots [] = []
  roots (e ∷ es) = let (attr, _, _) = cut e b'.' in attr ∷ roots es

  unfoldable pub list_variables : List String → List String
  list_variables expressions = S.iter (S.new_set (roots expressions))

samples :
    (parse 20 "cn={cn!r:>3}, {{x}}"
      ≡ some (
        record {
          input = "cn={cn!r:>3}, {{x}}";
          sections =
              literal "cn="
              ∷ field
                  (record { field_name = "cn"; format_spec = ">3"; conversion = "r"; method = "" })
              ∷ literal ", {"
              ∷ literal "x}"
              ∷ [];
        },
        parsed,
      ))
    × (parse 20 "{lower()}" ≡ some (record { input = "{lower()}"; sections = [] }, panicked))
    × (parse 20 "a{b"
        ≡ some (record { input = "a{b"; sections = literal "a" ∷ [] }, unexpected_end))
unfolding parse string_eq
samples = (refl, refl, refl)
