-- ===== src/Inspect/Rows.antt =====
-- internal/inspect/query.go: the two implementations of `Querier`, and the loop that reads one.
-- pgx's rows are a parameter: a list of raw rows, and the error, if any, that ends them.
pub mod Reads
use ldap2pg.Common.{
  ℕ, zero, suc, ◌+◌, String, ◌<>◌, Bool, true, false, List, [], ◌∷◌, Option, none, some,
}
use ldap2pg.Common.{ltb, length}
use ldap2pg.Common.Outcome.{Outcome, ok, error, panic, spent, ◌>>=◌}

-- `Querier`: `Query` starts, and `Next`, `Err` and `Row` work on the state.
pub record Querier (T : Type 0) : Type 1 where
  pub State : Type 0
  pub query : State
  pub next : State → Outcome (Bool × State)
  pub err : State → Option String
  pub row : State → Outcome T

module _ {T : Type 0} where
  abbrev pub nth : List T → ℕ → Outcome T
  nth [] n = panic
  nth (x ∷ xs) zero = ok x
  nth (x ∷ xs) (suc n) = nth xs n

  -- `YAMLQuery`. The state is one above `currentIndex`, which starts at -1.
  abbrev pub yaml_row : List T → ℕ → Outcome T
  yaml_row rows zero = panic
  yaml_row rows (suc index) = nth rows index

  abbrev pub yaml_query : List T → Querier T
  yaml_query rows = record {
    State = ℕ;
    query = 0;
    next = λ n. ok (ltb n (length rows), suc n);
    err = λ n. none;
    row = yaml_row rows;
  }

-- What `Conn.Query` returns.
pub data Answer (R : Type 0) : Type 0 where
  refused : String → Answer R
  rows : List R → Option String → Answer R

-- The fields of `SQLQuery` that change. `rows` is what is left of them, with `rows.Err()`; it is nil
-- where the query was refused, and `Next` does not read it then.
pub record SqlState (R T : Type 0) : Type 0 where
  pub rows_left : List R
  pub rows_err : Option String
  pub err : Option String
  pub row : Option T

module _ {R T : Type 0} (row_to : R → Outcome T) where
  abbrev pub sql_start : Answer R → SqlState R T
  sql_start (refused e) = record {
    rows_left = [];
    rows_err = none;
    err = some ("bad query: " <> e);
    row = none;
  }
  sql_start (rows rs e) = record { rows_left = rs; rows_err = e; err = none; row = none }

  -- `q.row, q.err = q.RowTo(q.rows)`, and what `Next` returns.
  abbrev pub scan : SqlState R T → Outcome T → Outcome (Bool × SqlState R T)
  scan s (ok t) = ok (true, record s { err = none; row = some t })
  scan s (error e) = ok (false, record s { err = some e; row = none })
  scan s panic = panic
  scan s spent = spent

  abbrev pub sql_next : SqlState R T → Outcome (Bool × SqlState R T)
  sql_next s = elim s.err [
    | some e ↦ ok (false, s)
    | none ↦ elim s.rows_left [
      | [] ↦ ok (false, record s { err = s.rows_err })
      | r ∷ rs ↦ scan (record s { rows_left = rs }) (row_to r)
    ]
  ]

  -- `Row()` before the first row is the zero value, which no loop reads.
  abbrev pub sql_row : SqlState R T → Outcome T
  sql_row s = elim s.row [ none ↦ panic | some t ↦ ok t ]

  abbrev pub sql_query : Answer R → Querier T
  sql_query answer = record {
    State = SqlState R T;
    query = sql_start answer;
    next = sql_next;
    err = λ s. s.err;
    row = sql_row;
  }

-- `for q.Query(…); q.Next(); { … q.Row() … }`, with `q.Err()` behind it: the rows, and the error.
module _ {T : Type 0} (Q : Querier T) where
  abbrev pub body :
      Bool × Q.State → Outcome (List T × Option String) → Outcome (List T × Option String)
  body (false, s) rest = ok ([], Q.err s)
  body (true, s) rest = Q.row s >>= λ t. rest >>= λ r. ok (t ∷ r.0, r.1)

  unfoldable pub read_from : ℕ → Q.State → Outcome (List T × Option String)
  read_from zero s = spent
  read_from (suc fuel) s = Q.next s >>= λ n. let rest = read_from fuel n.1 in body n rest

  unfoldable pub read : ℕ → Outcome (List T × Option String)
  unfolding read_from
  read fuel = read_from fuel Q.query
