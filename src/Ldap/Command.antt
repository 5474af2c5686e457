-- ===== src/Ldap/Command.antt =====
-- internal/ldap/command.go: the command line that a search is logged as; and scope.go.
pub mod Shell
pub mod Quoted
pub mod Scopes
use Prim.Native.Char.{code}
use Prim.Native.String
use ldap2pg.Common.{ℕ, String, ◌<>◌, Bool, true, false, not, ◌&&◌, ◌||◌, List, [], ◌∷◌, ◌++◌, map}
use ldap2pg.Common.{◌==◌, string_eq, nat_eq, if◌then◌else◌, contains}
use ldap2pg.Common.Outcome.{Outcome, ok, error}
use ldap2pg.Common.Text.{split_char, join}

-- `specialChars`: a blank, a double quote, `*!()[]{}` and a back quote.
abbrev pub special_chars : List ℕ
special_chars = b' ' ∷ 34 ∷ b'*' ∷ b'!' ∷ b'(' ∷ b')' ∷ b'[' ∷ b']' ∷ b'{' ∷ b'}' ∷ 96 ∷ []

abbrev pub special_from : String → Bool
special_from String.String.[] = false
special_from (String.String.◌∷◌ c s) = contains special_chars (code c) || special_from s

-- `NeedsQuote`
unfoldable pub needs_quote : String → Bool
unfolding nat_eq
needs_quote String.String.[] = true
needs_quote (String.String.◌∷◌ c s) = special_from (String.String.◌∷◌ c s)

abbrev pub is_blank : String → Bool
is_blank String.String.[] = true
is_blank (String.String.◌∷◌ c s) = false

-- One part of the text, between two single quotes of it.
unfoldable pub quote_part : String → String
unfolding needs_quote
quote_part part =
    if is_blank part then "" else if needs_quote part then "'" <> (part <> "'") else part

-- The parts but the first.
unfoldable pub quote_parts : List String → String
unfolding quote_part
quote_parts [] = ""
quote_parts (part ∷ parts) = "\"'\"" <> (quote_part part <> quote_parts parts)

-- `ShellQuote`; 39 is a single quote.
unfoldable pub shell_quote : String → String
unfolding quote_part quote_parts split_char
shell_quote arg =
    if is_blank arg
    then "''"
    else elim (split_char 39 arg) [ [] ↦ "" | part ∷ parts ↦ quote_part part <> quote_parts parts ]

-- The fields of `Client` that show in the command; `seconds` is the timeout as `%.0f` prints it.
pub record Client : Type 0 where
  pub uri : String
  pub has_timeout : Bool
  pub seconds : String
  pub bind_dn : String
  pub sasl_mech : String
  pub sasl_auth_cid : String
  pub password : String

abbrev unless_blank : String → List String → List String
unless_blank s words = if s == "" then [] else words

-- `Command`
unfoldable pub command : Client → String → List String → String
unfolding shell_quote join
command c name args = join " " (
    map shell_quote (
      name
      ∷ (unless_blank c.uri ("-H" ∷ c.uri ∷ [])
          ++ ((if c.has_timeout && name == "ldapsearch" then "-l" ∷ c.seconds ∷ [] else [])
              ++ (unless_blank c.bind_dn ("-D" ∷ c.bind_dn ∷ [])
                  ++ ((if c.sasl_mech == "" then "-x" ∷ [] else "-Y" ∷ c.sasl_mech ∷ [])
                      ++ (unless_blank c.sasl_auth_cid ("-U" ∷ c.sasl_auth_cid ∷ [])
                          ++ (unless_blank c.password ("-w" ∷ "$LDAPPASSWORD" ∷ []) ++ args))))))))

-- `ParseScope`: 0, 1 and 2 are go-ldap's base object, single level and whole subtree.
unfoldable pub parse_scope : String → Outcome ℕ
parse_scope s =
    if s == "sub"
    then ok 2
    else if s == "base"
    then ok 0
    else if s == "one"
    then ok 1
    else error ("bad scope: " <> s)

-- `Scope.String`
unfoldable pub scope_text : ℕ → String
unfolding nat_eq
scope_text s =
    if s == 0 then "base" else if s == 2 then "sub" else if s == 1 then "one" else "!INVALID"
