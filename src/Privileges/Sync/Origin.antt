-- ===== src/Privileges/Sync/Origin.antt =====
-- Where the queries of a synchronisation come from: revocations from the grants that the instance
-- has, grants from those wanted.
use ldap2pg.Common.{
  String, ◌≡◌, refl, subst, ◌⊎◌, inl, inr, Bool, true, false, not, ◌&&◌, ◌||◌, List, [], ◌∷◌, ◌++◌,
  some, >>=-eq-some,
}
use ldap2pg.Common.{
  ◌==◌, string_eq, arith, Bool-cases, map, collect, All, All-map, All-both, All-test, All-keep,
  All-append, All-collect,
}
use ldap2pg.Common.Dict.{keys, get_or}
use ldap2pg.Common.Sets.{SetOps}
use ldap2pg.Postgres.{SyncQuery, Database, DbMap, zero_database}
use ldap2pg.Privileges.{
  Acls, Grant, instance_wide, nonempty, each_database, expand_database, expand_schemas, creators,
  expand_owners, expand_databases, expand,
}
use ldap2pg.Privileges.Sync.{revoke_query, grant_query, revoked, granted, diff, sync}

-- The fields of a grant that expansion leaves as they are.
abbrev pub key : Grant → String × String × String
key g = (g.grantee, g.type, g.acl)

-- One of the grants has this key.
abbrev pub IsAsked : List Grant → String × String × String → Type 0
IsAsked [] k = ⊥
IsAsked (w ∷ ws) k = (key w ≡ k) ⊎ IsAsked ws k

pub All-IsAsked : (ws : List Grant) → All (λ w. IsAsked ws (key w)) ws
All-IsAsked [] = tt
All-IsAsked (w ∷ ws) = (
  inl refl,
  All-map (λ v. IsAsked ws (key v)) (λ v. IsAsked (w ∷ ws) (key v)) ws (λ v h. inr h)
      (All-IsAsked ws),
)

module _ {κ} (P : String × String × String → Type κ) where
  abbrev On : Grant → Type κ
  On g = P (key g)

  nonempty-On : (gs out : List Grant) → All On gs → nonempty gs ≡ some out → All On out
  nonempty-On [] out h e = cc
  nonempty-On (g ∷ gs) out h e = let same : g ∷ gs ≡ out = ground arith in subst (All On) same h

  each_database-On :
      (acls : Acls) (databases : DbMap) (g : Grant) (name : String) (names : List String)
      → On g
      → All On (each_database acls databases g name names)
  each_database-On acls databases g name [] h = tt
  each_database-On acls databases g name (n ∷ names) h =
      elim (Bool-cases (not (n == name) && not (instance_wide acls g))) [
        | inl skip ↦ rw skip (each_database-On acls databases g name names h)
        | inr take ↦ rw take (h, each_database-On acls databases g name names h)
      ]

  expand_database-On :
      (acls : Acls) (databases : DbMap) (g : Grant) (name : String) (out : List Grant)
      → On g
      → expand_database acls databases g name ≡ some out
      → All On out
  unfolding expand_database
  expand_database-On acls databases g name out h e = elim (Bool-cases (g.database == "__all__")) [
    | inl every ↦
        nonempty-On (each_database acls databases g name (keys databases)) out
          (each_database-On acls databases g name (keys databases) h) (ground arith)
    | inr one ↦ elim (Bool-cases (instance_wide acls g || g.database == name)) [
      | inl fits ↦ let same : g ∷ [] ≡ out = ground arith in subst (All On) same (h, tt)
      | inr other ↦ let same : [] ≡ out = ground arith in subst (All On) same tt
    ]
  ]

  with_schemas :
      (g : Grant) (names : List String)
      → On g
      → All On (collect (λ n. record g { schema = n } ∷ []) names)
  with_schemas g [] h = tt
  with_schemas g (n ∷ names) h = (h, with_schemas g names h)

  with_owners :
      (g : Grant) (names : List String)
      → On g
      → All On (collect (λ n. record g { owner = n } ∷ []) names)
  with_owners g [] h = tt
  with_owners g (n ∷ names) h = (h, with_owners g names h)

  expand_schemas-On : (g : Grant) (names : List String) → On g → All On (expand_schemas g names)
  unfolding expand_schemas
  expand_schemas-On g names h = elim (Bool-cases (g.schema == "__all__")) [
    | inl every ↦ rw every (with_schemas g names h)
    | inr one ↦ rw one (h, tt)
  ]

  module _ (S : SetOps String) where
    expand_owners-On : (g : Grant) (d : Database) → On g → All On (expand_owners S g d)
    unfolding expand_owners
    expand_owners-On g d h = elim (Bool-cases (g.owner == "__auto__")) [
      | inr one ↦ rw one (h, tt)
      | inl auto ↦ elim (Bool-cases (d.name == g.database)) [
        | inr far ↦ rw (auto, far) tt
        | inl near ↦ rw (auto, near) (with_owners g (creators S d g.schema) h)
      ]
    ]

    expand_databases-On :
        (acls : Acls) (databases : DbMap) (name : String) (gs out : List Grant)
        → All On gs
        → expand_databases S acls databases name gs ≡ some out
        → All On out
    unfolding expand_databases
    expand_databases-On acls databases name [] out h e =
        let same : [] ≡ out = ground arith in subst (All On) same tt
    expand_databases-On acls databases name (g ∷ gs) out h e =
        let (a, ea, ka) = >>=-eq-some (expand_database acls databases g name) _ e in
        let (b, eb, kb) = >>=-eq-some (expand_databases S acls databases name gs) _ ka in
        let same : a ++ b ≡ out = ground arith in
        subst (All On) same (
          All-append On a b (expand_database-On acls databases g name a h.0 ea)
            (expand_databases-On acls databases name gs b h.1 eb))

    pub expand-On :
        (acls : Acls) (databases : DbMap) (gs out : List Grant) (d : Database)
        → All On gs
        → expand S acls databases gs d ≡ some out
        → All On out
    unfolding expand
    expand-On acls databases gs out d h e =
        let (a, ea, ka) = >>=-eq-some (expand_databases S acls databases d.name gs) _ e in
        let full = collect (λ g. expand_schemas g (keys d.schemas)) a in
        let same : collect (λ g. expand_owners S g d) full ≡ out = ground arith in
        subst (All On) same (
          All-collect On On (λ g. expand_owners S g d) full (λ g k. expand_owners-On g d k)
            (All-collect On On (λ g. expand_schemas g (keys d.schemas)) a
              (λ g k. expand_schemas-On g (keys d.schemas) k)
              (expand_databases-On acls databases d.name gs a h ea)))

map-All {κ μ} :
    (P : Grant → Type κ) (Q : SyncQuery → Type μ) (f : Grant → SyncQuery) (gs : List Grant)
    → ((g : Grant) → P g → Q (f g))
    → All P gs
    → All Q (map f gs)
map-All P Q f [] h k = tt
map-All P Q f (g ∷ gs) h k = (h g k.0, map-All P Q f gs h k.1)

-- The query revokes a grant of which `P` holds and that has a type, or it grants what is asked.
abbrev pub ComesFrom {κ} : Acls → (Grant → Type κ) → List Grant → SyncQuery → Type κ
ComesFrom acls P wanted q =
    ((g : Grant) × (q ≡ revoke_query acls g) × ((g.type == "") ≡ false) × P g)
    ⊎ ((g : Grant) × (q ≡ grant_query acls g) × IsAsked wanted (key g))

module _ (S : SetOps String) (G : SetOps Grant) (acls : Acls) (P : Grant → Type 0) where
  test-type : (had : Bool) (g : Grant) → not (had || g.type == "") ≡ true → (g.type == "") ≡ false
  test-type had g h = ground arith

  pub sync-ComesFrom :
      (databases : DbMap) (dbname : String) (current wanted : List Grant) (qs : List SyncQuery)
      → All P current
      → sync G S acls databases dbname current wanted ≡ some qs
      → All (ComesFrom acls P wanted) qs
  unfolding sync diff revoked granted
  sync-ComesFrom databases dbname current wanted qs h e =
      let (a, ea, ka) =
        >>=-eq-some (expand S acls databases wanted (get_or databases dbname zero_database)) _ e in
      let same : diff G acls current a ≡ qs = ground arith in
      let asked =
        expand-On (IsAsked wanted) S acls databases wanted a (get_or databases dbname zero_database)
          (All-IsAsked wanted) ea in
      subst (All (ComesFrom acls P wanted)) same (
        All-append (ComesFrom acls P wanted) (map (revoke_query acls) (revoked G current a))
          (map (grant_query acls) (granted G current a))
          (map-All _ (ComesFrom acls P wanted) (revoke_query acls) (revoked G current a)
            (λ g k.
              inl (
                g,
                refl,
                test-type (G.has (G.new_set a) (record g { partial = false })) g k.1,
                k.0,
              ))
            (All-both P _ (revoked G current a) (All-keep P _ current h) (All-test _ current)))
          (map-All (λ g. IsAsked wanted (key g)) (ComesFrom acls P wanted) (grant_query acls)
            (granted G current a) (λ g k. inr (g, refl, k))
            (All-keep (λ g. IsAsked wanted (key g)) _ a asked)))
