-- ===== src/Inspect/Rows/Reads.antt =====
-- What a loop over a querier reads.
use ldap2pg.Common.{
  ℕ, zero, suc, ◌<◌, ◌≡◌, refl, ◌∙◌, sym, ap, append_assoc, String, ◌<>◌, true, false, List, [],
  ◌∷◌, ◌++◌, Option, none, some,
}
use ldap2pg.Common.{ltb, length, length-append, arith}
use ldap2pg.Common.Outcome.{Outcome, ok, error, panic, spent, ◌>>=◌}
use ldap2pg.Inspect.Rows.{
  nth, yaml_query, Answer, refused, rows, SqlState, sql_query, scan, body, read_from, read,
}

module _ {R T : Type 0} (row_to : R → Outcome T) where
  -- The rows up to the first that cannot be scanned, and that error, or the one that ends them.
  unfoldable pub scanned : List R → Option String → Outcome (List T × Option String)
  scanned [] e = ok ([], e)
  scanned (r ∷ rs) e =
      let rest = scanned rs e in
      elim (row_to r) [
        | ok t ↦ rest >>= λ r. ok (t ∷ r.0, r.1)
        | error x ↦ ok ([], some x)
        | panic ↦ panic
        | spent ↦ spent
      ]

  unfoldable pub answered : Answer R → Outcome (List T × Option String)
  unfolding scanned
  answered (refused e) = ok ([], some ("bad query: " <> e))
  answered (rows rs e) = scanned rs e

  -- The bound of the loop: a call of `Next` for every row, and one more.
  abbrev pub size : Answer R → ℕ
  size (refused e) = 0
  size (rows rs e) = length rs

  -- One call of `Next` that has a row to scan, under the loop's recursive calls.
  read_from-scan :
      (a : Answer R) (fuel : ℕ) (s : SqlState R T) (rest : Outcome (List T × Option String))
      (o : Outcome T)
      → ((t : T)
          → read_from (sql_query row_to a) fuel (record s { err = none; row = some t }) ≡ rest)
      → (scan row_to s o >>= λ n.
          body (sql_query row_to a) n (read_from (sql_query row_to a) fuel n.1))
        ≡ (elim o [
          | ok t ↦ rest >>= λ r. ok (t ∷ r.0, r.1)
          | error x ↦ ok ([], some x)
          | panic ↦ panic
          | spent ↦ spent
        ])
  read_from-scan a fuel s rest (ok t) h = rw (h t)
  read_from-scan a fuel s rest (error x) h = refl
  read_from-scan a fuel s rest panic h = refl
  read_from-scan a fuel s rest spent h = refl

  read_from-scanned :
      (fuel : ℕ) (a : Answer R) (rs : List R) (e : Option String) (t : Option T)
      → length rs < fuel
      → read_from
          (sql_query row_to a)
          fuel
          (record { rows_left = rs; rows_err = e; err = none; row = t })
        ≡ scanned rs e
  unfolding read_from scanned
  read_from-scanned zero a rs e t h = absurd (omega arith)
  read_from-scanned (suc fuel) a [] e t h = refl
  read_from-scanned (suc fuel) a (r ∷ rs) e t h =
      read_from-scan a fuel (record { rows_left = rs; rows_err = e; err = none; row = t })
        (scanned rs e) (row_to r) (λ u. read_from-scanned fuel a rs e (some u) (omega arith))

  -- With more fuel than rows, the loop over a `SQLQuery` ends. It yields the rows, each scanned, up
  -- to the first that cannot be scanned, and the error of that one; where all can, the error that
  -- ends pgx's rows, if any; and no row and a `bad query` error where pgx refuses the query.
  pub read-sql_query :
      (fuel : ℕ) (a : Answer R) → size a < fuel → read (sql_query row_to a) fuel ≡ answered a
  unfolding read answered read_from
  read-sql_query zero a h = absurd (omega arith)
  read-sql_query (suc fuel) (refused e) h = refl
  read-sql_query (suc fuel) (rows rs e) h = read_from-scanned (suc fuel) (rows rs e) rs e none h

module _ {T : Type 0} where
  nth-drop : (xs : List T) (y : T) (ys : List T) → nth (xs ++ y ∷ ys) (length xs) ≡ ok y
  nth-drop [] y ys = refl
  nth-drop (x ∷ xs) y ys = nth-drop xs y ys

  read_from-yaml :
      (fuel : ℕ) (all seen left : List T)
      → all ≡ seen ++ left
      → length left < fuel
      → read_from (yaml_query all) fuel (length seen) ≡ ok (left, none)
  unfolding read_from
  read_from-yaml zero all seen left e h = absurd (omega arith)
  read_from-yaml (suc fuel) all seen [] e h =
      let test : ltb (length seen) (length all) ≡ false =
        ground (arith, ap length e, length-append seen []) in
      rw test refl
  read_from-yaml (suc fuel) all seen (y ∷ left) e h =
      let test : ltb (length seen) (length all) ≡ true =
        ground (arith, ap length e, length-append seen (y ∷ left)) in
      let ih =
        read_from-yaml fuel all (seen ++ y ∷ []) left (e ∙ sym (append_assoc seen (y ∷ []) left))
          (omega arith) in
      let size : length (seen ++ y ∷ []) ≡ suc (length seen) =
        omega (arith, length-append seen (y ∷ [])) in
      let found : nth all (length seen) ≡ ok y = rw e (nth-drop seen y left) in
      rw (test, found) (rw (rw size at ih) refl)

  -- With more fuel than rows, the loop over a `YAMLQuery` yields all of its rows in their order,
  -- and no error: `Row` never indexes out of range.
  pub read-yaml_query :
      (fuel : ℕ) (values : List T)
      → length values < fuel
      → read (yaml_query values) fuel ≡ ok (values, none)
  unfolding read
  read-yaml_query fuel values h = read_from-yaml fuel values [] values refl h
