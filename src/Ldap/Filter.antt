-- ===== src/Ldap/Filter.antt =====
-- internal/ldap/filter.go: how a filter is made fit for go-ldap. The two regular expressions are
-- scans: `\s` is a blank, a tab, a line feed, a form feed or a carriage return.
pub mod Tight
use Prim.Native.Char.{code}
use ldap2pg.Common.{ℕ, String, Bool, true, false, ◌&&◌, ◌||◌, if◌then◌else◌, ◌==◌, nat_eq}
use ldap2pg.Common.Text.{replace_all}
use Prim.Native.String

abbrev pub is_space : ℕ → Bool
is_space c = c == b' ' || (c == 9 || (c == 10 || (c == 12 || c == 13)))

-- A run of blanks, perhaps none, with a parenthesis that opens behind it.
unfoldable pub opens : String → Bool
unfolding nat_eq
opens String.String.[] = false
opens (String.String.◌∷◌ c s) =
    let rest = opens s in if code c == b'(' then true else if is_space (code c) then rest else false

-- `\s+\(` becomes `(`
unfoldable pub strip_before : String → String
unfolding opens nat_eq
strip_before String.String.[] = ""
strip_before (String.String.◌∷◌ c s) =
    let rest = strip_before s in
    if is_space (code c) && opens s then rest else String.String.◌∷◌ c rest

-- `\)\s+` becomes `)`; the flag tells whether the text stands behind a parenthesis that closes, or
-- behind blanks that follow one.
unfoldable pub strip_after : Bool → String → String
unfolding nat_eq
strip_after closed String.String.[] = ""
strip_after closed (String.String.◌∷◌ c s) =
    let dropped = strip_after true s in
    let kept = String.String.◌∷◌ c (strip_after (code c == b')') s) in
    if closed && is_space (code c) then dropped else kept

-- `CleanFilter`; the first text is a backslash and an n.
unfoldable pub clean_filter : String → String
unfolding replace_all strip_before strip_after
clean_filter filter = strip_after false (strip_before (replace_all filter "\\n" ""))
