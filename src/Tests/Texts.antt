-- ===== src/Tests/Texts.antt =====
-- Formats, and lists to combine.
use Prim.Native.String.{count}
use ldap2pg.Common.{
  ◌≤◌, ◌<◌, String, ◌≡◌, ◌≢◌, refl, false, List, [], ◌∷◌, none, some, length, arith, string_eq,
  nat_eq, ◌==◌,
}
use ldap2pg.Common.Dict.{Dict}
use ldap2pg.Common.Text.{cut, replace_all}
use ldap2pg.Lists.Product.{product}
use ldap2pg.Lists.Product.Cartesian.{cartesian, product-cartesian}
use ldap2pg.Pyfmt.{Format, Ending, parsed, parse, format}
use ldap2pg.Pyfmt.Total.{parse_total, parse_plain}

abbrev lists : List (List String)
lists = ("1" ∷ "2" ∷ "3" ∷ []) ∷ ("a" ∷ "b" ∷ []) ∷ []

few : length (cartesian lists) ≤ 6
unfolding cartesian
few = omega arith

product-cartesian_example : product 6 lists ≡ some (cartesian lists)
product-cartesian_example = product-cartesian 6 lists few

short : count "{cn} of {o.lower()}" < 30
short = omega arith

parse_total_example :
    (f : Format) × (ending : Ending) × (parse 30 "{cn} of {o.lower()}" ≡ some (f, ending))
    × (f.input ≡ "{cn} of {o.lower()}")
parse_total_example = parse_total 30 "{cn} of {o.lower()}" short

abbrev same : String → String
same s = s

differ : (s t : String) → (s == t) ≡ false → s ≢ t
differ s t h e = ground arith

filled : ◌≢◌ {A = String} "a}}b" ""
unfolding string_eq
filled = differ "a}}b" "" refl

closed : (let (before, after, found) = cut "a}}b" b'{' in found ≡ false)
unfolding cut nat_eq
closed = refl

parse_plain_example :
    (f : Format) × (parse 1 "a}}b" ≡ some (f, parsed))
    × (format same same f none ≡ some "a}}b")
    × ((values : Dict String)
        → format same same f (some values) ≡ some (replace_all "a}}b" "}}" "}"))
parse_plain_example = parse_plain same same 1 "a}}b" filled closed (omega arith)
