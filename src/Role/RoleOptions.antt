-- ===== src/Role/RoleOptions.antt =====
-- internal/role/options.go. The loops over `reflect.VisibleFields` run over `visible_fields`: the
-- fields in their order, with their two tags. The package's global `instanceColumns` is an argument.
pub mod Changes
pub mod Enabled
use ldap2pg.Common.{String, ◌<>◌, ◌≡◌, refl, Bool, true, false, not, ◌&&◌, List, [], ◌∷◌, ◌++◌}
use ldap2pg.Common.{Option, none, some, ◌==◌, string_eq, if◌then◌else◌, contains, ◌>>=◌}
use ldap2pg.Common.Dict.{Dict, insert, get_or}
use ldap2pg.Common.Int.{ℤ, pos, int_eq, decimal}

pub record Options : Type 0 where
  pub super : Bool
  pub create_db : Bool
  pub create_role : Bool
  pub inherit : Bool
  pub can_login : Bool
  pub replication : Bool
  pub by_pass_rls : Bool
  pub conn_limit : ℤ

-- `Options{}`
abbrev pub zero_options : Options
zero_options = record {
  super = false;
  create_db = false;
  create_role = false;
  inherit = false;
  can_login = false;
  replication = false;
  by_pass_rls = false;
  conn_limit = pos 0;
}

pub data Value : Type 0 where
  bool : Bool → Value
  int : ℤ → Value

pub record Field : Type 0 where
  pub column : String
  pub keyword : String
  pub value : Options → Value

abbrev pub visible_fields : List Field
visible_fields =
    record { column = "rolsuper"; keyword = "SUPERUSER"; value = λ o. bool o.super }
    ∷ record { column = "rolcreatedb"; keyword = "CREATEDB"; value = λ o. bool o.create_db }
    ∷ record { column = "rolcreaterole"; keyword = "CREATEROLE"; value = λ o. bool o.create_role }
    ∷ record { column = "rolinherit"; keyword = "INHERIT"; value = λ o. bool o.inherit }
    ∷ record { column = "rolcanlogin"; keyword = "LOGIN"; value = λ o. bool o.can_login }
    ∷ record { column = "rolreplication"; keyword = "REPLICATION"; value = λ o. bool o.replication }
    ∷ record { column = "rolbypassrls"; keyword = "BYPASSRLS"; value = λ o. bool o.by_pass_rls }
    ∷ record {
      column = "rolconnlimit";
      keyword = "CONNECTION LIMIT";
      value = λ o. int o.conn_limit;
    }
    ∷ []

-- `instanceColumns`
pub record Columns : Type 0 where
  pub availability : Dict Bool
  pub order : List String

abbrev pub is_column_enabled : Columns → String → Bool
is_column_enabled c name = get_or c.availability name false

-- `writeBoolOption`
abbrev pub bool_option : Bool → String → String
bool_option value keyword = if value then keyword else "NO" <> keyword

-- `if b.Len() > 0 { b.WriteByte(' ') }`, and the text behind it.
abbrev pub write : String → String → String
write b option = if b == "" then option else b <> " " <> option

abbrev pub option : Field → Options → String
option f o = elim (f.value o) [
  | bool v ↦ bool_option v f.keyword
  | int i ↦ f.keyword <> " " <> decimal i
]

abbrev pub same_value : Value → Value → Bool
same_value (bool true) (bool true) = true
same_value (bool false) (bool false) = true
same_value (int i) (int j) = i == j
same_value _ _ = false

module _ (c : Columns) where
  unfoldable pub string_loop : Options → List Field → String → String
  string_loop o [] b = b
  string_loop o (f ∷ fs) b =
      string_loop o fs (if is_column_enabled c f.column then write b (option f o) else b)

  unfoldable pub to_string : Options → String
  unfolding string_loop
  to_string o = string_loop o visible_fields ""

  unfoldable pub diff_loop : Options → Options → List Field → String → String
  diff_loop o wanted [] b = b
  diff_loop o wanted (f ∷ fs) b = diff_loop o wanted fs (
      if is_column_enabled c f.column && not (same_value (f.value o) (f.value wanted))
      then write b (option f wanted)
      else b)

  -- The SQL to match the wanted options.
  unfoldable pub diff : Options → Options → String
  unfolding diff_loop
  diff o wanted = diff_loop o wanted visible_fields ""

abbrev pub known_columns : List Field → List String
known_columns [] = []
known_columns (f ∷ fs) = f.column ∷ known_columns fs

abbrev pub privileged_columns : List String
privileged_columns = "rolsuper" ∷ "rolreplication" ∷ "rolbypassrls" ∷ []

abbrev pub unavailable : List String → Dict Bool → Dict Bool
unavailable [] d = d
unavailable (name ∷ names) d = unavailable names (insert name false d)

unfoldable pub columns_loop : Bool → List String → Columns → Columns
columns_loop super [] c = c
columns_loop super (name ∷ names) c = columns_loop super names (
    if not (contains (known_columns visible_fields) name)
    then c
    else if not super && contains privileged_columns name
    then c
    else record { availability = insert name true c.availability; order = c.order ++ name ∷ [] })

-- `ProcessColumns`: the map is made anew, and the order goes on from what the global holds.
unfoldable pub process_columns : Columns → List String → Bool → Columns
unfolding columns_loop
process_columns c columns super =
    columns_loop super columns
      (record { availability = unavailable (known_columns visible_fields) []; order = c.order })

-- One case of the `switch` of `LoadRow`. A value of another type makes the assertion panic.
unfoldable pub load_column : String → Value → Options → Option Options
load_column name (bool v) o =
    if name == "rolbypassrls"
    then some (record o { by_pass_rls = v })
    else if name == "rolcanlogin"
    then some (record o { can_login = v })
    else if name == "rolconnlimit"
    then none
    else if name == "rolcreatedb"
    then some (record o { create_db = v })
    else if name == "rolcreaterole"
    then some (record o { create_role = v })
    else if name == "rolinherit"
    then some (record o { inherit = v })
    else if name == "rolreplication"
    then some (record o { replication = v })
    else if name == "rolsuper"
    then some (record o { super = v })
    else some o
load_column name (int i) o =
    if name == "rolconnlimit"
    then some (record o { conn_limit = i })
    else if contains (known_columns visible_fields) name
    then none
    else some o

-- `LoadRow`: value i goes to column i of the order, and a value too many panics.
unfoldable pub load_row : List String → List Value → Options → Option Options
unfolding load_column
load_row order [] o = some o
load_row [] (v ∷ row) o = none
load_row (name ∷ order) (v ∷ row) o = load_column name v o >>= λ o'. load_row order row o'
