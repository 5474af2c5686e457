-- ===== src/Privileges/Format.antt =====
-- `Grant.FormatQuery` (grant.go): the placeholders of a query, and their arguments.
use Prim.Native.Char.{code}
use Prim.Native.String.{count}
use ldap2pg.Common.{ℕ, zero, suc, ◌-◌, String, ◌<>◌, ◌≡◌, refl, Bool, false, ◌&&◌, List, [], ◌∷◌}
use ldap2pg.Common.{Option, none, some, ◌>>=◌, ◌==◌, string_eq, nat_eq, ltb, not, if◌then◌else◌}
use ldap2pg.Common.Text.{contains_text, replace_all, replace_first}
use ldap2pg.Postgres.{Arg, identifier, Args, nil, cons, SyncQuery, zero_query}
use ldap2pg.Privileges.{Grant}

abbrev is_lower : ℕ → Bool
is_lower c = not (ltb c b'a') && not (ltb b'z' c)

-- The letters at the front of a text, when `>` follows them.
letters : String → Option String
unfolding nat_eq
letters String.[] = none
letters (String.◌∷◌ c s) =
    let rest = letters s in
    if code c == b'>'
    then some ""
    else if is_lower (code c)
    then (rest >>= λ w. some (String.◌∷◌ c w))
    else none

-- What the pattern `<[a-z]+>` matches at the front of a text.
placeholder_at : String → Option String
unfolding letters nat_eq
placeholder_at String.[] = none
placeholder_at (String.◌∷◌ c s) =
    if code c == b'<'
    then (letters s >>= λ w. if w == "" then none else some ("<" <> w <> ">"))
    else none

-- `qArgRe.FindAllString`: the matches from left to right; the number counts the characters of the
-- last match that are still to be passed over.
unfoldable pub find_all : String → ℕ → List String
unfolding placeholder_at
find_all String.[] skip = []
find_all (String.◌∷◌ c s) (suc skip) = find_all s skip
find_all (String.◌∷◌ c s) zero = elim (placeholder_at (String.◌∷◌ c s)) [
  | none ↦ find_all s 0
  | some m ↦ m ∷ find_all s (count m - 1)
]

-- The `switch` on the placeholder.
unfoldable pub argument : Grant → String → Option Arg
argument g m =
    if m == "<database>"
    then some (identifier g.database)
    else if m == "<grantee>"
    then some (identifier g.grantee)
    else if m == "<object>"
    then some (identifier g.object)
    else if m == "<owner>"
    then some (identifier g.owner)
    else if m == "<schema>"
    then some (identifier g.schema)
    else none

-- The loop: the query with `%s` for each placeholder, and the arguments. `none` is the early return.
unfoldable pub format_loop : Grant → List String → String → Option (String × Args)
unfolding argument replace_first
format_loop g [] s = some (s, nil)
format_loop g (m ∷ ms) s = argument g m >>= λ a.
    format_loop g ms (replace_first s m "%s") >>= λ (s', args). some (s', cons a args)

-- The keywords.
unfoldable pub keywords : Grant → String → String
unfolding replace_all contains_text
keywords g s =
    let t = replace_all (replace_all (replace_all s "%" "%%") "<privilege>" g.type) "<acl>" g.acl in
    if contains_text t "<owner>" then replace_all t "<object>" g.object else t

unfoldable pub format_query : Grant → String → SyncQuery
unfolding keywords find_all format_loop
format_query g s =
    let t = keywords g s in
    elim (format_loop g (find_all t 0) t) [
      | none ↦ zero_query
      | some (q, args) ↦ record { description = ""; database = ""; query = q; query_args = args }
    ]

abbrev select_on_tables : Grant
select_on_tables = record {
  owner = "";
  grantee = "bob";
  acl = "ALL TABLES IN SCHEMA";
  type = "SELECT";
  database = "app";
  schema = "public";
  object = "";
  partial = false;
}

format_query_sample :
    format_query select_on_tables "GRANT <privilege> ON <acl> <schema> TO <grantee>;" ≡ record {
      description = "";
      database = "";
      query = "GRANT SELECT ON ALL TABLES IN SCHEMA %s TO %s;";
      query_args = cons (identifier "public") (cons (identifier "bob") nil);
    }
unfolding format_query string_eq
format_query_sample = refl
