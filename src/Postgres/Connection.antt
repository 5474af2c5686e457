-- ===== src/Postgres/Connection.antt =====
-- internal/postgres/global.go: the one connection that the program holds. Opening a connection is a
-- parameter, which may depend on all that was opened and closed before.
pub mod Single
use ldap2pg.Common.{String, Bool, List, [], ◌∷◌, Option, none, some}
use ldap2pg.Common.{◌==◌, string_eq, if◌then◌else◌}

pub data Event : Type 0 where
  opened : String → Event
  closed : String → Event

-- `globalConn`, by the database of its configuration, and what was opened and closed, the last
-- first.
pub record Global : Type 0 where
  pub conn : Option String
  pub events : List Event

-- `CloseConn`
unfoldable pub close_conn : Global → Global
close_conn g = elim g.conn [
  | none ↦ g
  | some d ↦ record { conn = none; events = closed d ∷ g.events }
]

-- `globalConf.Database`, and the error of `pgx.ConnectConfig`.
module _ (default_database : String) (connect : List Event → String → Option String) where
  abbrev pub asked : String → String
  asked database = if database == "" then default_database else database

  -- `if database != c.Database { CloseConn(ctx) }`
  unfoldable pub close_other : String → Global → Global
  unfolding close_conn
  close_other database g = elim g.conn [
    | none ↦ g
    | some d ↦ if database == d then g else close_conn g
  ]

  -- `if nil == globalConn { … }`: the error, and the state.
  unfoldable pub open_missing : String → Global → Option String × Global
  open_missing database g = elim g.conn [
    | some d ↦ (none, g)
    | none ↦ elim (connect g.events database) [
      | some e ↦ (some e, g)
      | none ↦ (none, record { conn = some database; events = opened database ∷ g.events })
    ]
  ]

  -- `GetConn`
  unfoldable pub get_conn : String → Global → Option String × Global
  unfolding close_other open_missing
  get_conn database g = open_missing (asked database) (close_other (asked database) g)

  -- The calls that the program makes, one behind the other.
  pub data Call : Type 0 where
    get : String → Call
    close : Call

  unfoldable pub calls : List Call → Global → Global
  unfolding get_conn close_conn
  calls [] g = g
  calls (get database ∷ rest) g = calls rest (get_conn database g).1
  calls (close ∷ rest) g = calls rest (close_conn g)
