-- ===== src/Ldap/Command/Shell.antt =====
-- The words that a POSIX shell reads: what the quoting of internal/ldap/command.go is for.
use Prim.Native.Char.{Char, code}
use Prim.Native.String
use ldap2pg.Common.{ℕ, String, ◌<>◌, Bool, false, ◌||◌, List, [], ◌∷◌}
use ldap2pg.Common.{Option, none, some, ◌>>=◌, ◌==◌, nat_eq, if◌then◌else◌, contains}

-- Outside quotes, between single quotes, between double quotes.
pub data Mode : Type 0 where
  bare : Mode
  single : Mode
  double : Mode

abbrev pub push : Char → Option String → Option String
push c o = o >>= λ t. some (String.String.◌∷◌ c t)

abbrev pub prefix : String → Option String → Option String
prefix s o = o >>= λ t. some (s <> t)

-- What POSIX says is to be quoted, or may have to be, for it to stand for itself:
-- `| & ; < > ( ) $ \` and a back quote, blank, tab and end of line, and `* ? [ # ~`. The others of
-- that list, `=` and `%`, stand for themselves in an argument.
abbrev pub metacharacters : List ℕ
metacharacters =
    b'|' ∷ b'&' ∷ b';' ∷ b'<' ∷ b'>' ∷ b'(' ∷ b')' ∷ b'$' ∷ 92 ∷ 96 ∷ b' ' ∷ 9 ∷ 10 ∷ b'*' ∷ b'?'
    ∷ b'[' ∷ b'#' ∷ b'~' ∷ []

-- What does not stand for itself between double quotes.
abbrev pub expanded : List ℕ
expanded = b'$' ∷ 92 ∷ 96 ∷ []

-- The word that a shell makes of a text in which all stands for itself, but for the quotes: a quote
-- begins or ends a quotation and goes away. A metacharacter outside quotes, an expansion between
-- double quotes, or a quotation that does not end, is no such word.
unfoldable pub word : Mode → String → Option String
unfolding nat_eq
word bare String.String.[] = some ""
word single String.String.[] = none
word double String.String.[] = none
word bare (String.String.◌∷◌ c s) =
    let in_single = word single s in
    let in_double = word double s in
    let rest = push c (word bare s) in
    if code c == 39
    then in_single
    else if code c == 34
    then in_double
    else if contains metacharacters (code c)
    then none
    else rest
word single (String.String.◌∷◌ c s) =
    let closed = word bare s in
    let rest = push c (word single s) in if code c == 39 then closed else rest
word double (String.String.◌∷◌ c s) =
    let closed = word bare s in
    let rest = push c (word double s) in
    if code c == 34 then closed else if contains expanded (code c) then none else rest

abbrev pub meta_from : String → Bool
meta_from String.String.[] = false
meta_from (String.String.◌∷◌ c s) = contains metacharacters (code c) || meta_from s
