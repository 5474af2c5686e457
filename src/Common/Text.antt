-- ===== src/Common/Text.antt =====
-- The functions of Go's `strings` that the program calls, on native strings.
use Prim.Native.Nat.{ℕ, zero, suc, ◌-◌}
use Prim.Native.Char.{code}
use Prim.Native.String.{String, ◌++◌, count}
use mathlib.Core.Bool.{Bool, true, false}
use mathlib.Core.List.{List, [], ◌∷◌}
use mathlib.Core.Option.{Option, none, some}
use mathlib.Core.Path.{◌≡◌, refl}
use text.Mathlib.Text.{starts_with}
use ldap2pg.Common.Equality.{◌==◌, nat_eq, string_eq, if◌then◌else◌}

-- `strings.HasPrefix`
abbrev pub has_prefix : String → String → Bool
has_prefix s prefix = starts_with s prefix

-- `strings.Contains`
unfoldable pub contains_text : String → String → Bool
contains_text String.[] t = has_prefix "" t
contains_text (String.◌∷◌ c s) t =
    let rest = contains_text s t in if has_prefix (String.◌∷◌ c s) t then true else rest

-- The scan of `strings.ReplaceAll` for a text that is not empty; the number counts the characters
-- of a match that are still to be passed over.
unfoldable pub replace_from : String → String → String → ℕ → String
replace_from old new String.[] skip = ""
replace_from old new (String.◌∷◌ c s) (suc skip) = replace_from old new s skip
replace_from old new (String.◌∷◌ c s) zero =
    let hit = new ++ replace_from old new s (count old - 1) in
    let miss = String.◌∷◌ c (replace_from old new s 0) in
    if has_prefix (String.◌∷◌ c s) old then hit else miss

unfoldable pub replace_all : String → String → String → String
unfolding replace_from
replace_all s old new = replace_from old new s 0

-- The text behind a number of characters.
unfoldable pub skip_chars : ℕ → String → String
skip_chars zero s = s
skip_chars (suc n) String.[] = ""
skip_chars (suc n) (String.◌∷◌ c s) = skip_chars n s

-- `strings.Replace(s, old, new, 1)`
unfoldable pub replace_first : String → String → String → String
unfolding skip_chars
replace_first String.[] old new = ""
replace_first (String.◌∷◌ c s) old new =
    let miss = String.◌∷◌ c (replace_first s old new) in
    if has_prefix (String.◌∷◌ c s) old then new ++ skip_chars (count old - 1) s else miss

-- `strings.Cut` at one character: the text before it, the text behind it, and whether it was found.
unfoldable pub cut : String → ℕ → String × String × Bool
unfolding nat_eq
cut String.[] sep = ("", "", false)
cut (String.◌∷◌ c s) sep =
    let (before, after, found) = cut s sep in
    if code c == sep then ("", s, true) else (String.◌∷◌ c before, after, found)

-- `strings.HasSuffix`
unfoldable pub has_suffix : String → String → Bool
has_suffix String.[] t = "" == t
has_suffix (String.◌∷◌ c s) t =
    let rest = has_suffix s t in if String.◌∷◌ c s == t then true else rest

-- The texts before and behind the last of a character, as `strings.LastIndex` finds it.
unfoldable pub cut_last : String → ℕ → Option (String × String)
unfolding nat_eq
cut_last String.[] sep = none
cut_last (String.◌∷◌ c s) sep = elim (cut_last s sep) [
  | some (before, after) ↦ some (String.◌∷◌ c before, after)
  | none ↦ if code c == sep then some ("", s) else none
]

texts :
    (replace_all "a}}b}}" "}}" "}" ≡ "a}b}")
    × (contains_text "GRANT <acl> TO" "<acl>" ≡ true)
    × (replace_first "x<a><a>" "<a>" "%s" ≡ "x%s<a>")
    × (cut "member.cn" b'.' ≡ ("member", "cn", true))
unfolding replace_all contains_text replace_first cut
texts = (refl, refl, refl, refl)

-- `strings.TrimSuffix`
unfoldable pub trim_suffix : String → String → String
trim_suffix String.[] t = ""
trim_suffix (String.◌∷◌ c s) t =
    let rest = String.◌∷◌ c (trim_suffix s t) in if String.◌∷◌ c s == t then "" else rest

-- `strings.Split` at one character; there is always a first part.
unfoldable pub split_char : ℕ → String → List String
unfolding nat_eq
split_char sep String.[] = "" ∷ []
split_char sep (String.◌∷◌ c s) = elim (split_char sep s) [
  | [] ↦ []
  | part ∷ parts ↦ if code c == sep then "" ∷ (part ∷ parts) else String.◌∷◌ c part ∷ parts
]

-- `strings.Join`
unfoldable pub join : String → List String → String
join sep [] = ""
join sep (s ∷ []) = s
join sep (s ∷ (t ∷ rest)) = s ++ (sep ++ join sep (t ∷ rest))
