-- ===== src/Postgres/Apply.antt =====
-- internal/postgres/apply.go and the rewriting of queries (queries.go). The connection is a
-- parameter: whether a database can be reached, and the error, if any, of a query that is sent.
pub mod Runs
use ldap2pg.Common.{
  ℕ, zero, suc, ◌+◌, String, ◌<>◌, Bool, true, false, List, [], ◌∷◌, ◌++◌, Option, none, some,
  ◌>>=◌,
}
use ldap2pg.Common.{◌==◌, string_eq, if◌then◌else◌}
use ldap2pg.ErrorList.{Error, ErrorList, new, append, value}
use ldap2pg.Postgres.{Arg, identifier, text, items, Args, nil, cons, SyncQuery}

-- `pgx.Identifier.Sanitize`, `EscapeString`, `dedent.Dedent` with `strings.TrimSpace`, and
-- `fmt.Sprintf` on texts are parameters.
module _ (sanitize : String → String) (escape : String → Option String) (dedent : String → String)
    (sprintf : String → List String → String) where
  mutual
    format_arg : Arg → Option String
    format_arg (identifier s) = some (sanitize s)
    format_arg (text s) = escape s >>= λ t. some ("'" <> t <> "'")
    format_arg (items args) = format_items "" args

    format_items : String → Args → Option String
    format_items b nil = some b
    format_items b (cons arg args) =
        format_arg arg >>= λ item. format_items (if b == "" then item else b <> ", " <> item) args

  abbrev format_args : Args → Option (List String)
  format_args nil = some []
  format_args (cons arg args) = format_arg arg >>= λ a. format_args args >>= λ as'. some (a ∷ as')

  -- `RewriteQuery`; `none` is an error.
  unfoldable pub rewrite_query : String → Args → Option String
  unfolding format_arg format_items
  rewrite_query sql args = format_args args >>= λ texts. some (sprintf (dedent sql) texts)

-- What `Apply` returns, and the queries that it sent.
pub record Applied : Type 0 where
  pub count : ℕ
  pub sent : List SyncQuery
  pub errors : ErrorList
  pub unreachable : Bool

abbrev pub initial : Applied
initial = record {
  count = 0;
  sent = [];
  errors = new "synchronisation errors";
  unreachable = false;
}

module _ (reachable : String → Bool) (exec : SyncQuery → Option Error) (really : Bool) where
  -- The loop over the queries.
  unfoldable pub apply_loop : Applied → List SyncQuery → Applied
  unfolding append
  apply_loop a [] = a
  apply_loop a (q ∷ qs) =
      let counted = record a { count = suc a.count } in
      let (errors, more) = append a.errors (exec q) in
      let tried = record counted { sent = a.sent ++ q ∷ []; errors = errors } in
      let dry = apply_loop counted qs in
      let rest = apply_loop tried qs in
      if reachable q.database
      then (if really then (if more then rest else tried) else dry)
      else record counted { unreachable = true }

  unfoldable pub apply : List SyncQuery → Applied
  unfolding apply_loop
  apply = apply_loop initial
