-- ===== src/Lib.antt =====
-- ldap2pg synchronises the roles and privileges of PostgreSQL instances with a configuration and a
-- directory. This library models the part of it that decides what to do, and shows that it is right.
--
-- A run of the program (internal/cmd) reads and sanitises a configuration (internal/config,
-- internal/normalize), inspects an instance (internal/inspect), computes the wanted roles and grants
-- from rules and searches (internal/wanted, internal/ldap, internal/pyfmt), compares both
-- (internal/role, internal/privileges), and sends the resulting queries database by database
-- (internal/postgres).
--
-- Which file is about which code:
--   Cmd                     internal/cmd/ldap2pg.go: the stages up to the queries for roles; in
--                           Cmd.Grants the rest of the run, `syncPrivileges`, and the way it exits
--                           (flags.go)
--   Inspect and below       internal/inspect: queriers in Inspect.Rows (query.go), the stages in
--                           Inspect.Stage0 to Inspect.Stage3; `RowTo` of internal/role/role.go
--   Config and below        internal/config: role.go in Config.Roles, normalizers.go in
--                           Config.Items, `checkVersion` and `Instantiate` in Config
--   Normalize               internal/normalize, and the values of YAML
--   Wanted and below        internal/wanted/rules.go, step.go, map.go: `RoleRule.Generate`, the
--                           splitting of static rules, `search`, and `Rules.Run` (`run_rules`; `run`
--                           is what it does with what the searches yield); in Wanted.Infer the
--                           attributes to search, and the loop of `LoadYaml` that infers them
--   Ldap                    internal/ldap/search.go, generate.go: `GenerateValues` and what it calls;
--                           filter.go in Ldap.Filter, command.go and scope.go in Ldap.Command
--   Pyfmt                   internal/pyfmt/format.go: `Parse`, `Format`
--   Lists                   internal/lists: `Product`, `And`, `Filter`, the blacklist
--   Role                    internal/role: `Alter` in Role, `Create`, `Drop` and `Merge` in
--                           Role.Create, options in Role.RoleOptions, `Map.Check` and `Map.Flatten`
--                           in Role.Map, `Diff` in Role.Diff
--   Privileges              internal/privileges: ACLs and `Expand`; `FormatQuery` in
--                           Privileges.Format, `diff` and `Sync` in Privileges.Sync,
--                           `GrantRule.Generate` in Privileges.Rule, the sanitising of YAML in
--                           Privileges.Loose, the registries in Privileges.Registry, `Inspect` in
--                           Privileges.Inspection
--   Postgres                internal/postgres: `SyncOrder` and `GroupByDatabase`; `Apply` and
--                           `RewriteQuery` in Postgres.Apply, global.go in Postgres.Connection
--   ErrorList               internal/errorlist
--   Tree                    internal/tree/walk.go
--   Common                  Go's slices, maps, strings and sorts, the interface of mapset, and the
--                           depth-first walk of which `Tree` is an instance
--   Tests                   runs on small inputs
-- The other files below these hold the proofs, named for what they show.
--
-- State. Package variables are arguments: the column registry of the role options (`Columns`), the
-- ACLs, the profiles, `postgres.Databases` (a `DbMap`, which `Drop` returns with new owners), and
-- `KnownRDNs`. A channel is the list of what is sent on it. A Go map is a list of entries: `range`
-- visits them in any order, and the statements hold for every list. A mapset is any type with the
-- operations of `SetOps`; the statements ask of it what `IsLawful` says, and lists meet that. `none`
-- is a panic, an error value is a value, and what only reaches the log is left out. Where errors are
-- texts, a call is an `Outcome`: a value, an error, a panic, or fuel spent. A loop over the rows of a
-- query is run on the rows once these are read. `any` is the type `Yaml`; a nil map is an empty one.
--
-- Fuel. Recursions that follow names through a map take fuel. `Map.Check` ends with more fuel than
-- the map has roles, since its genealogy lists no role twice. `Map.Flatten` ends with the fuel with
-- which the check has passed. The walk of `Tree` ends with fuel above the rank of every key.
-- `Product` needs as much fuel as it sends combinations, `Parse` more than the text has characters,
-- and a loop over a querier more than it has rows.
--
-- Parameters: `filepath.Match`, go-ldap's entries, DN parser and searches, folding of case,
-- `fmt.Sprintf` and the quoting of pgx, whether a database can be reached and a query fails, what the
-- server answers to the queries of the inspection with each row as `Scan` makes it, and
-- `mapstructure.Decode` of a membership.
--
-- Not modelled: the network, flags and environment, reading files, mapstructure's decoding of the
-- sanitised configuration, and the table of builtin ACLs and profiles. Whether a query fails and what
-- the server answers depend on the query, not on those sent before it. Slices and maps that two roles
-- share are copies here, those that `RoleRule.Generate` gives to every role of a rule included, so
-- `Merge` writes into one role only. `Fields` of a format is computed from its sections, and what is
-- written through its pointers is written in the sections. Error texts leave out what `%v` and `%q`
-- print, and the text of joined errors.
--
-- Concurrency: a goroutine that sends on a channel is run to its end, save in the inspection of
-- grants, whose error the reader may see earlier or later: `Sight` says where.
--
-- Two accounts are of what is outside the program, and not translated: what `GRANT` and `REVOKE` do
-- to the grants of an instance (Privileges.Sync.Performed), and the words that a POSIX shell reads
-- (Ldap.Command.Shell).
pub mod Common
pub mod ErrorList
pub mod Ldap
pub mod Lists
pub mod Pyfmt
pub mod Tree
pub mod Postgres
pub mod Role
pub mod Privileges
pub mod Normalize
pub mod Config
pub mod Inspect
pub mod Wanted
pub mod Cmd
mod Tests
