-- ===== src/Tests/Grants.antt =====
-- Grants on the tables of a database with two schemas.
use ldap2pg.Common.{
  String, ◌≡◌, ◌≢◌, refl, sym, ◌∙◌, ap, subst, Bool, true, false, List, [], ◌∷◌, some, arith,
}
use ldap2pg.Common.{◌==◌, string_eq, contains, All, map}
use ldap2pg.Common.Dict.{keys, get_or, lookup}
use ldap2pg.Common.Sets.{list_set, list_set-IsLawful}
use ldap2pg.Common.Sort.{sort}
use ldap2pg.Postgres.{Database, DbMap}
use ldap2pg.Privileges.{Acls, Grant, grant_eq, creators, expand}
use ldap2pg.Privileges.Sync.{full, diff}
use ldap2pg.Privileges.Sync.Performed.{change_query, changes, after}
use ldap2pg.Privileges.Sync.Converge.{IsPlain, IsInspected, after_converges, diff_stable}
use ldap2pg.Privileges.Expand.{IsResolved, expand_resolves}

differ : (s t : String) → (s == t) ≡ false → s ≢ t
differ s t h e = ground arith

differs : (s t : String) → s ≢ t → (s == t) ≡ false
differs s t h = ground arith

abbrev grant : String → String → String → Bool → Grant
grant type grantee schema partial = record {
  owner = "";
  grantee = grantee;
  acl = "TABLES";
  type = type;
  database = "app";
  schema = schema;
  object = "";
  partial = partial;
}

abbrev reads : Grant
reads = grant "SELECT" "alice" "public" false

abbrev reads_some : Grant
reads_some = grant "SELECT" "alice" "public" true

abbrev writes : Grant
writes = grant "INSERT" "bob" "public" false

abbrev acls : Acls
acls =
    (
      "TABLES",
      record {
        name = "TABLES";
        scope = "database";
        inspect = "";
        grant = "GRANT <privilege> ON ALL <acl> IN SCHEMA <schema> TO <grantee>;";
        revoke = "REVOKE <privilege> ON ALL <acl> IN SCHEMA <schema> FROM <grantee>;";
      },
    )
    ∷ []

abbrev app : Database
app = record {
  name = "app";
  owner = "postgres";
  schemas =
      ("public", record { name = "public"; owner = "postgres"; creators = "alice" ∷ "bob" ∷ [] })
      ∷ ("audit", record { name = "audit"; owner = "postgres"; creators = "bob" ∷ [] })
      ∷ [];
}

abbrev databases : DbMap
databases = ("app", app) ∷ []

IsPlain-one : (h : Grant) → h.partial ≡ false → h.type ≢ "" → IsPlain (h ∷ [])
IsPlain-one h whole typed g m = elim (grant_eq.dec h g) [
  | yes e ↦ (ap (λ x. x.partial) (sym e) ∙ whole, λ t. typed (ap (λ x. x.type) e ∙ t))
  | no d ↦ absurd (ground arith)
]

reads-IsPlain : IsPlain (reads ∷ [])
unfolding string_eq
reads-IsPlain = IsPlain-one reads refl (differ "SELECT" "" refl)

-- The partial grant is wanted in full, the other is not wanted.
abbrev current : List Grant
current = reads_some ∷ writes ∷ []

full_missing : contains current (full reads_some) ≡ false
unfolding string_eq grant_eq
full_missing = refl

current-IsInspected : IsInspected current
unfolding string_eq
current-IsInspected = (typed, single)
  where
    typed : (g : Grant) → contains current g ≡ true → g.type ≢ ""
    typed g m = elim (grant_eq.dec reads_some g) [
      | yes e ↦ subst (λ (x : Grant). x.type ≢ "") e (differ "SELECT" "" refl)
      | no d ↦ elim (grant_eq.dec writes g) [
        | yes e ↦ subst (λ (x : Grant). x.type ≢ "") e (differ "INSERT" "" refl)
        | no f ↦ absurd (ground arith)
      ]
    ]

    single :
        (g : Grant)
        → contains current g ≡ true
        → g.partial ≡ true
        → contains current (full g) ≡ false
    single g m p = elim (grant_eq.dec reads_some g) [
      | yes e ↦ subst (λ x. contains current (full x) ≡ false) e full_missing
      | no d ↦ elim (grant_eq.dec writes g) [
        | yes e ↦ cc (p, ap (λ (x : Grant). x.partial) e)
        | no f ↦ absurd (ground arith)
      ]
    ]

after_converges_example :
    (diff list_set acls current (reads ∷ [])
      ≡ map (change_query acls) (changes list_set current (reads ∷ [])))
    × ((g : Grant) → contains (after list_set current (reads ∷ [])) g ≡ contains (reads ∷ []) g)
after_converges_example =
    after_converges list_set list_set-IsLawful current (reads ∷ []) current-IsInspected
      reads-IsPlain acls

diff_stable_example : diff list_set acls (reads ∷ []) (reads ∷ []) ≡ []
diff_stable_example =
    diff_stable list_set list_set-IsLawful (reads ∷ []) (reads ∷ []) acls reads-IsPlain (λ g. refl)

inspected : contains (keys databases) app.name ≡ true
unfolding string_eq
inspected = refl

databases_named : All (λ n. n ≢ "__all__") (keys databases)
unfolding string_eq
databases_named = (differ "app" "__all__" refl, tt)

schemas_named : All (λ n. n ≢ "__all__") (keys app.schemas)
unfolding string_eq
schemas_named = (differ "public" "__all__" refl, (differ "audit" "__all__" refl, tt))

abbrev Plain : List String → Type 0
Plain = All (λ r. r ≢ "__auto__")

creators_named : (schema : String) → Plain (creators list_set app schema)
unfolding creators sort string_eq
creators_named schema =
    let alice = differ "alice" "__auto__" refl in
    let bob = differ "bob" "__auto__" refl in
    elim (string_eq.dec schema "") [
      | yes e ↦ subst (λ s. Plain (creators list_set app s)) (sym e) (alice, (bob, (bob, tt)))
      | no d ↦ elim (string_eq.dec "public" schema) [
        | yes e ↦ subst (λ s. Plain (creators list_set app s)) e (alice, (bob, tt))
        | no f ↦ elim (string_eq.dec "audit" schema) [
          | yes e ↦ subst (λ s. Plain (creators list_set app s)) e (bob, tt)
          | no g ↦
              rw
                (
                  differs schema "" d,
                  get_or,
                  lookup,
                  differs "public" schema f,
                  differs "audit" schema g,
                )
                tt
        ]
      ]
    ]

expand_resolves_example :
    (out : List Grant) × (expand list_set acls databases
        (grant "SELECT" "alice" "__all__" false ∷ [])
        app
      ≡ some out)
    × All (IsResolved list_set acls databases app inspected) out
expand_resolves_example =
    expand_resolves list_set acls databases app inspected databases_named schemas_named
      creators_named (grant "SELECT" "alice" "__all__" false ∷ [])
